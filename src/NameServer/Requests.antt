-- ===== src/NameServer/Requests.antt =====
-- name/handlers.c: the queue of access requests.
pub mod Queue
pub mod Decide
pub mod Keeps
use distributed_document_sys.NameServer.Access.{notify, grant, set_access}
use distributed_document_sys.NameServer.State.{
  Server, max_access_requests, Handled, AccessRequest, done,
}
use distributed_document_sys.NameServer.Catalog.{with_slot, is_owner}
use distributed_document_sys.Base.{
  not, update, Option, ℕ, ◌&&◌, if◌then◌else◌, false, ◌∷◌, ◌++◌, ◌==◌, true, [], none, CString, ◌+◌,
  some, find_first,
}
use distributed_document_sys.Protocol.{
  access_request, PermissionLevel, req_ss_add_access, res_error, res_error_not_found,
  res_error_access_denied, simple_header, res_ok,
}

-- The search for a free place in `access_requests`.
unfoldable pub free_request : Server → Option ℕ
free_request s = find_first (λ i. not (s.access_requests i).active) max_access_requests 0

-- The search for a pending request by its identifier.
unfoldable pub pending_request : ℕ → Server → Option ℕ
pending_request id s =
    find_first (λ i. (s.access_requests i).active && (s.access_requests i).request_id == id)
      max_access_requests 0

abbrev pub set_request : ℕ → AccessRequest → Server → Server
set_request i r s = record s { access_requests = update s.access_requests i r }

-- `now` is `time(NULL)`.
unfoldable pub handle_req_request_access :
    ℕ → CString → CString → PermissionLevel → (now : ℕ) → Server → Handled
handle_req_request_access sock name user perm now s₀ = with_slot name s₀ λ found s. elim found [
  | none ↦ done s (simple_header sock res_error_not_found ∷ [])
  | some _ ↦ elim (free_request s) [
    | none ↦ done s (simple_header sock res_error ∷ [])
    | some i ↦
        done
          (record (set_request i
            (record {
              active = true;
              request_id = s.next_request_id;
              filename = name;
              requesting_user = user;
              requested_perm = perm;
              timestamp = now;
            })
            s) { next_request_id = s.next_request_id + 1 })
          (simple_header sock res_ok ∷ [])
  ]
]

abbrev pub close_request : ℕ → Server → Server
close_request i s = set_request i (record (s.access_requests i) { active = false }) s

unfoldable pub handle_req_approve_request : ℕ → ℕ → Server → Handled
handle_req_approve_request sock id s₁ = elim (pending_request id s₁) [
  | none ↦ done s₁ (simple_header sock res_error ∷ [])
  | some i ↦
      let r = s₁.access_requests i in
      with_slot r.filename s₁ λ found s. elim found [
        | none ↦ done s (simple_header sock res_error_access_denied ∷ [])
        | some slot ↦
            let meta = s.file_catalog slot in
            if is_owner s sock meta
            then elim (grant r.requesting_user r.requested_perm meta.access_list) [
              | none ↦ done s (simple_header sock res_error ∷ [])
              | some access ↦ done (close_request i (set_access slot access s)) (
                  notify s meta req_ss_add_access
                    (access_request r.filename r.requesting_user r.requested_perm)
                  ++ simple_header sock res_ok ∷ [])
            ]
            else done s (simple_header sock res_error_access_denied ∷ [])
      ]
]

unfoldable pub handle_req_deny_request : ℕ → ℕ → Server → Handled
handle_req_deny_request sock id s₁ = elim (pending_request id s₁) [
  | none ↦ done s₁ (simple_header sock res_error ∷ [])
  | some i ↦ with_slot (s₁.access_requests i).filename s₁ λ found s. elim found [
    | none ↦ done s (simple_header sock res_error_access_denied ∷ [])
    | some slot ↦
        if is_owner s sock (s.file_catalog slot)
        then done (close_request i s) (simple_header sock res_ok ∷ [])
        else done s (simple_header sock res_error_access_denied ∷ [])
  ]
]
