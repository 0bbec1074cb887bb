-- ===== src/NameServer/Catalog.antt =====
-- name/catalog.c and the searches of name/fault_tolerance.c.
use distributed_document_sys.NameServer.Index.{find_file_slot}
use distributed_document_sys.Protocol.{
  read_write, replicate_file, max_files_in_system, req_replicate_file, read_only, no_perm, sent,
  level, AccessEntry, max_connections, Sent, PermissionLevel,
}
use distributed_document_sys.NameServer.State.{FileMetadata, Server}
use distributed_document_sys.Base.{
  ◌==◌, ◌&&◌, none, if◌then◌else◌, some, [], ◌∷◌, not, str_eq, leb, find_first, update, Bool, List,
  count_from, Option, ℕ, CString,
}

-- `find_file_slot`, which may fill the cache.
unfoldable pub find_slot : CString → Server → Option ℕ × Server
find_slot name s = let (slot, ix) = find_file_slot name s.index in (slot, record s { index = ix })

-- `int slot = find_file_slot(name);` and what a handler does with the answer.
unfoldable pub with_slot {ℓ} : {R : Type ℓ} → CString → Server → (Option ℕ → Server → R) → R
with_slot name s rest = rest (find_slot name s).0 (find_slot name s).1

unfoldable pub find_empty_file_slot : Server → Option ℕ
find_empty_file_slot s = find_first (λ i. not (s.file_catalog i).active) max_files_in_system 0

unfoldable pub find_available_ss : Server → Option ℕ
find_available_ss s = find_first (λ i. (s.ss_state i).active) max_connections 0

unfoldable pub find_backup_ss : Server → ℕ → Option ℕ
find_backup_ss s primary =
    find_first (λ i. (s.ss_state i).active && not (i == primary)) max_connections 0

unfoldable pub count_active_ss : Server → ℕ
count_active_ss s = count_from (λ i. (s.ss_state i).active) max_connections 0

-- The loop of `get_permission`.
unfoldable pub find_access : CString → List AccessEntry → PermissionLevel
find_access username [] = no_perm
find_access username (e ∷ es) =
    if str_eq e.username username then e.permission else find_access username es

unfoldable pub get_permission : FileMetadata → CString → PermissionLevel
get_permission meta username =
    if str_eq meta.owner username then read_write else find_access username meta.access_list

abbrev pub has_read_access : FileMetadata → CString → Bool
has_read_access meta username = leb (level read_only) (level (get_permission meta username))

abbrev pub has_write_access : FileMetadata → CString → Bool
has_write_access meta username = level (get_permission meta username) == level read_write

-- `replicate_to_backup`: what it sends.
abbrev pub replicate_to_backup : ℕ → FileMetadata → Sent
replicate_to_backup backup file =
    sent backup req_replicate_file
      (replicate_file file.filename file.owner file.access_list file.file_size)

-- The choice of a backup for a new entry, in `handle_req_create` and in `catalog_ss_files`.
unfoldable pub choose_backup : Server → ℕ → Option ℕ
choose_backup s primary = if leb 2 (count_active_ss s) then find_backup_ss s primary else none

-- The message to the backup that was chosen.
abbrev pub replicate : FileMetadata → List Sent
replicate meta = elim meta.backup_ss_sock [
  | none ↦ []
  | some backup ↦ replicate_to_backup backup meta ∷ []
]

abbrev pub set_file : ℕ → FileMetadata → Server → Server
set_file slot meta s = record s { file_catalog = update s.file_catalog slot meta }

-- The name under which a client is registered on a socket.
abbrev pub user_of : Server → ℕ → CString
user_of s sock = (s.client_state sock).username

-- `strcmp(meta->client_state[sock_fd].username) == 0`
abbrev pub is_owner : Server → ℕ → FileMetadata → Bool
is_owner s sock meta = str_eq meta.owner (user_of s sock)
