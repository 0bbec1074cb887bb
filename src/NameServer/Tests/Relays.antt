-- ===== src/NameServer/Tests/Relays.antt =====
-- The theorems on relays, lists of requests, execution and registration, applied to concrete servers.
use distributed_document_sys.NameServer.Index.{empty}
use distributed_document_sys.NameServer.Index.View.{view}
use distributed_document_sys.NameServer.State.{Server, max_access_requests}
use distributed_document_sys.NameServer.Registration.Recovered.{sync_files-unlisted}
use distributed_document_sys.NameServer.Tests.{
  ready, bob, todo, program, notes, one_file-IsConsistent, ready-IsConsistent, one_file,
}
use distributed_document_sys.NameServer.Relays.Listed.{handle_req_check_requests_lem, own_requests}
use distributed_document_sys.NameServer.Consistent.{Succeeds, Finishes, IsConsistent}
use distributed_document_sys.Protocol.{
  sent, req_ss_revert, request_list, req_ss_viewcheckpoint, res_request_list, simple_header,
  listcheckpoints_request, checkpoint_request, req_ss_listcheckpoints, req_ss_checkpoint, res_ok,
}
use distributed_document_sys.NameServer.Relays.Guarded.{Relayed, checkpoint_handlers-Relayed}
use distributed_document_sys.Base.{
  arith, length, List, codes, ℕ, none, inl, CString, refl, true, [], ◌∷◌, ◌≡◌, some, false,
}
use distributed_document_sys.NameServer.Catalog.{has_read_access, has_write_access, set_file}
use distributed_document_sys.NameServer.Registration.Keeps.{
  fresh_item, no_item, FreshItems, handle_ss_register-IsConsistent,
}
use distributed_document_sys.NameServer.Relays.{
  handle_req_check_requests, handle_req_revert, content_answer, items_answer, handle_req_checkpoint,
  handle_req_listcheckpoints, handle_req_viewcheckpoint,
}
use distributed_document_sys.NameServer.Registration.{
  recoverable, FileItem, handle_ss_register, sync_files_to_recovering_ss,
}

checkpoint_handlers-Relayed_example :
    let s = one_file in
    Relayed has_write_access s 7 notes req_ss_checkpoint
      (checkpoint_request notes bob)
      (simple_header 7 res_ok)
      (handle_req_checkpoint 7 notes bob res_ok s)
    × Relayed has_write_access s 7 notes req_ss_revert
        (checkpoint_request notes bob)
        (simple_header 7 res_ok)
        (handle_req_revert 7 notes bob res_ok s)
    × Relayed has_read_access s 7 notes req_ss_viewcheckpoint
        (checkpoint_request notes bob)
        (content_answer 7 none res_ok)
        (handle_req_viewcheckpoint 7 notes bob none res_ok s)
    × Relayed has_read_access s 7 notes req_ss_listcheckpoints
        (listcheckpoints_request notes)
        (items_answer 7 none res_ok)
        (handle_req_listcheckpoints 7 notes none res_ok s)
checkpoint_handlers-Relayed_example =
    checkpoint_handlers-Relayed 7 notes bob none none res_ok one_file one_file-IsConsistent

handle_req_check_requests_lem_example :
    let items = own_requests 7 one_file max_access_requests 0 in
    Succeeds
      (λ s' out.
        (s'.file_catalog ≡ one_file.file_catalog)
        × ((k : CString) → view s'.index k ≡ view one_file.index k)
        × (out ≡ sent 7 res_request_list (request_list (length items) items) ∷ []))
      (handle_req_check_requests 7 one_file)
handle_req_check_requests_lem_example =
    handle_req_check_requests_lem 7 one_file one_file-IsConsistent

-- A storage server that brings bob's file.
abbrev todo_item : FileItem
todo_item = record { filename = todo; owner = bob; access_list = [] }

no_files : ℕ → CString → List ℕ
no_files source name = []

todo-FreshItems : FreshItems ready.index (todo_item ∷ [])
unfolding program
todo-FreshItems = fresh_item refl (omega arith) tt no_item

handle_ss_register-IsConsistent_example : Finishes IsConsistent (
    handle_ss_register no_files 6
      (codes "10.0.0.6")
      (codes "10.0.0.6")
      9002
      (todo_item ∷ [])
      0
      ready)
handle_ss_register-IsConsistent_example =
    handle_ss_register-IsConsistent no_files 6 (codes "10.0.0.6") (codes "10.0.0.6") 9002
      (todo_item ∷ []) 0 ready todo-FreshItems (inl (λ e. cc)) ready-IsConsistent

-- alice's file after the disconnection of its server, and with a backup on socket 5.
abbrev lost : Server
lost =
    record (set_file 0
      (record (one_file.file_catalog 0) { active = false; ss_sock_fd = 6; backup_ss_sock = some 5 })
      one_file) { index = empty }

sync_files-unlisted_example :
    let t = (sync_files_to_recovering_ss no_files 6 lost).0 in
    ((t.file_catalog 0).active ≡ true)
    × (view t.index (t.file_catalog 0).filename ≡ none)
    × ¬ IsConsistent t
unfolding program recoverable
sync_files-unlisted_example = sync_files-unlisted no_files 6 5 0 lost (omega arith) refl refl
