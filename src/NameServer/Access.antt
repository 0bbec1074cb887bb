-- ===== src/NameServer/Access.antt =====
-- name/handlers.c: the access lists, `handle_req_add_access` and `handle_req_rem_access`.
pub mod Perms
pub mod Handlers
use distributed_document_sys.NameServer.Catalog.{set_file, with_slot, is_owner}
use distributed_document_sys.Base.{
  consed, length, ltb, leb, Bool, str_eq, Option, ℕ, List, ◌++◌, some, [], CString, none, ◌∷◌,
  if◌then◌else◌,
}
use distributed_document_sys.Protocol.{
  sent, Sent, access_request, res_ok, max_permissions_per_file, simple_header, MessageType,
  res_error_access_denied, AccessEntry, Payload, res_error, res_error_not_found, PermissionLevel,
  req_ss_add_access, req_ss_rem_access,
}
use distributed_document_sys.NameServer.State.{Server, Handled, done, FileMetadata}

-- The loop that looks for an existing entry, and the write to it: `none` if there is no such entry.
unfoldable pub set_existing :
    CString → PermissionLevel → List AccessEntry → Option (List AccessEntry)
set_existing user perm [] = none
set_existing user perm (e ∷ es) =
    if str_eq e.username user
    then some (record e { permission = perm } ∷ es)
    else consed e (set_existing user perm es)

-- The list with the user's permission set; `none` where a new entry finds the array full.
unfoldable pub grant : CString → PermissionLevel → List AccessEntry → Option (List AccessEntry)
grant user perm access = elim (set_existing user perm access) [
  | some access' ↦ some access'
  | none ↦
      if leb max_permissions_per_file (length access)
      then none
      else some (access ++ record { username = user; permission = perm } ∷ [])
]

-- The loop that removes every entry of the user, moving the rest down.
unfoldable pub revoke : CString → List AccessEntry → List AccessEntry
revoke user [] = []
revoke user (e ∷ es) = if str_eq e.username user then revoke user es else e ∷ revoke user es

-- What the storage server is told, if it is active.
abbrev pub notify : Server → FileMetadata → MessageType → Payload → List Sent
notify s meta type payload =
    if (s.ss_state meta.ss_sock_fd).active then sent meta.ss_sock_fd type payload ∷ [] else []

abbrev pub set_access : ℕ → List AccessEntry → Server → Server
set_access slot access s = set_file slot (record (s.file_catalog slot) { access_list = access }) s

unfoldable pub handle_req_add_access : ℕ → CString → CString → PermissionLevel → Server → Handled
handle_req_add_access sock name user perm s₀ = with_slot name s₀ λ found s. elim found [
  | none ↦ done s (simple_header sock res_error_not_found ∷ [])
  | some slot ↦
      let meta = s.file_catalog slot in
      if is_owner s sock meta
      then elim (grant user perm meta.access_list) [
        | none ↦ done s (simple_header sock res_error ∷ [])
        | some access ↦ done (set_access slot access s) (
            notify s meta req_ss_add_access (access_request name user perm)
            ++ simple_header sock res_ok ∷ [])
      ]
      else done s (simple_header sock res_error_access_denied ∷ [])
]

-- `removed_count > 0`
abbrev pub removed : List AccessEntry → List AccessEntry → Bool
removed before after = ltb (length after) (length before)

unfoldable pub handle_req_rem_access : ℕ → CString → CString → PermissionLevel → Server → Handled
handle_req_rem_access sock name user perm s₀ = with_slot name s₀ λ found s. elim found [
  | none ↦ done s (simple_header sock res_error_not_found ∷ [])
  | some slot ↦
      let meta = s.file_catalog slot in
      let access = revoke user meta.access_list in
      if is_owner s sock meta
      then done (set_access slot access s) (
          (if removed meta.access_list access
            then notify s meta req_ss_rem_access (access_request name user perm)
            else [])
          ++ simple_header sock res_ok ∷ [])
      else done s (simple_header sock res_error_access_denied ∷ [])
]
