-- ===== src/NameServer/Tests/Requests.antt =====
-- The theorems on access and on requests for it, applied.
use distributed_document_sys.NameServer.Catalog.{find_access}
use distributed_document_sys.NameServer.Tests.{
  bob, program, asked, notes, one_file, asked-IsConsistent, one_file-IsConsistent, asked-IsOrdered,
}
use distributed_document_sys.NameServer.Consistent.{Finishes, Succeeds}
use distributed_document_sys.NameServer.Requests.Decide.{handle_req_approve_request_lem}
use distributed_document_sys.Protocol.{read_only}
use distributed_document_sys.NameServer.Access.Handlers.{Changes, handle_req_add_access-Changes}
use distributed_document_sys.NameServer.Access.{handle_req_add_access}
use distributed_document_sys.Base.{arith, none, ◌≡◌, refl}
use distributed_document_sys.NameServer.Requests.{pending_request, handle_req_approve_request}

handle_req_add_access-Changes_example :
    Finishes
      (Changes one_file 7 notes bob read_only 0 bob)
      (handle_req_add_access 7 notes bob read_only one_file)
handle_req_add_access-Changes_example =
    handle_req_add_access-Changes 7 notes bob read_only one_file 0 bob one_file-IsConsistent

handle_req_approve_request_lem_example :
    Succeeds
      (λ s' out.
        (pending_request 1 s' ≡ none)
        × (find_access (asked.access_requests 0).requesting_user (s'.file_catalog 0).access_list
            ≡ (asked.access_requests 0).requested_perm))
      (handle_req_approve_request 7 1 asked)
unfolding program
handle_req_approve_request_lem_example =
    handle_req_approve_request_lem 7 1 asked 0 0 asked-IsConsistent asked-IsOrdered refl refl refl
      (omega arith)
