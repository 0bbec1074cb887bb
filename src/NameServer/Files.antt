-- ===== src/NameServer/Files.antt =====
-- name/handlers.c: the handlers that create, locate, delete, undo and move files. `reply` is the
-- type of the header after the handler has read the storage server's answer into it.
pub mod Keeps
pub mod Effects
pub mod Locate
use distributed_document_sys.NameServer.Index.{
  add_to_hashmap, remove_from_hashmap, invalidate_cache,
}
use distributed_document_sys.NameServer.Catalog.{
  with_slot, has_read_access, has_write_access, is_owner, user_of, find_available_ss, replicate,
  choose_backup, find_empty_file_slot, find_slot, set_file,
}
use distributed_document_sys.NameServer.State.{
  then_send, after_relay, done, undefined, Handled, FileMetadata, Server,
}
use distributed_document_sys.Protocol.{
  max_filename, is_ok, is_write, ss_create_request, res_error_access_denied, res_ok, req_ss_create,
  req_ss_undo, res_error_not_found, res_error, req_ss_delete, req_ss_move, filename_request,
  move_request, res_error_file_exists, read_response, simple_header, res_read_location, AccessEntry,
  sent, UpdateMetadata, MessageType, Sent,
}
use distributed_document_sys.Base.{
  length, ltb, ◌==◌, none, if◌then◌else◌, ◌++◌, [], true, false, Bool, some, ◌∷◌, Option, List,
  CString, ℕ,
}

-- A new catalog entry, indexed under its name. The statistics of the slot stay as they were.
unfoldable pub add_entry : ℕ → CString → ℕ → CString → List AccessEntry → Server → Handled
add_entry slot name ss owner access s =
    let meta = record (s.file_catalog slot) {
      active = true;
      filename = name;
      ss_sock_fd = ss;
      owner = owner;
      access_list = access;
      backup_ss_sock = choose_backup s ss;
    } in
    done (record (set_file slot meta s) { index = add_to_hashmap name slot s.index })
      (replicate meta)

-- Undefined behaviour: with no empty slot the entry is written at index -1.
unfoldable pub create_confirmed : ℕ → CString → ℕ → Server → Handled
create_confirmed sock name ss s = elim (find_empty_file_slot s) [
  | none ↦ undefined
  | some slot ↦ then_send (simple_header sock res_ok) (add_entry slot name ss (user_of s sock) [] s)
]

unfoldable pub handle_req_create : ℕ → CString → MessageType → Server → Handled
handle_req_create sock name reply s₀ = with_slot name s₀ λ found s. elim found [
  | some _ ↦ done s (simple_header sock res_error_file_exists ∷ [])
  | none ↦ elim (find_available_ss s) [
    | none ↦ done s (simple_header sock res_error ∷ [])
    | some ss ↦ after_relay (sent ss req_ss_create (ss_create_request name (user_of s sock))) (
        if is_ok reply
        then create_confirmed sock name ss s
        else done s (simple_header sock res_error ∷ []))
  ]
]

-- The server that is to serve the file: the primary, or an active backup.
unfoldable pub serving : Server → FileMetadata → Option ℕ
serving s meta =
    if (s.ss_state meta.ss_sock_fd).active then some meta.ss_sock_fd else elim meta.backup_ss_sock [
      | none ↦ none
      | some b ↦ if (s.ss_state b).active then some b else none
    ]

abbrev pub location : Server → ℕ → ℕ → Sent
location s sock ss =
    sent sock res_read_location (read_response (s.ss_state ss).ip (s.ss_state ss).client_port)

abbrev pub located : Server → ℕ → Option ℕ → Handled
located s sock none = done s (simple_header sock res_error ∷ [])
located s sock (some ss) = done s (location s sock ss ∷ [])

-- The test of `has_perm`.
abbrev pub may_open : MessageType → FileMetadata → CString → Bool
may_open type meta username =
    if is_write type then has_write_access meta username else has_read_access meta username

unfoldable pub handle_req_read_write_stream : ℕ → MessageType → CString → Server → Handled
handle_req_read_write_stream sock type name s₀ = with_slot name s₀ λ found s. elim found [
  | none ↦ done s (simple_header sock res_error_not_found ∷ [])
  | some slot ↦
      let meta = s.file_catalog slot in
      if may_open type meta (user_of s sock)
      then located s sock (serving s meta)
      else done s (simple_header sock res_error_access_denied ∷ [])
]

-- The copy of a deletion that goes to an active backup.
abbrev pub backup_delete : Server → FileMetadata → CString → List Sent
backup_delete s meta name = elim meta.backup_ss_sock [
  | none ↦ []
  | some b ↦ if (s.ss_state b).active then sent b req_ss_delete (filename_request name) ∷ [] else []
]

unfoldable pub delist : ℕ → Server → Server
delist slot s =
    let meta = s.file_catalog slot in
    record (set_file slot (record meta { active = false }) s) {
      index = invalidate_cache meta.filename (remove_from_hashmap meta.filename s.index);
    }

-- The storage server's answer is read and not looked at.
unfoldable pub handle_req_delete : ℕ → CString → Server → Handled
handle_req_delete sock name s₀ = with_slot name s₀ λ found s. elim found [
  | none ↦ done s (simple_header sock res_error_not_found ∷ [])
  | some slot ↦
      let meta = s.file_catalog slot in
      if is_owner s sock meta
      then if (s.ss_state meta.ss_sock_fd).active
        then done (delist slot s) (
            sent meta.ss_sock_fd req_ss_delete (filename_request name)
            ∷ (backup_delete s meta name ++ simple_header sock res_ok ∷ []))
        else done s (simple_header sock res_error ∷ [])
      else done s (simple_header sock res_error_access_denied ∷ [])
]

unfoldable pub handle_req_undo : ℕ → CString → Server → Handled
handle_req_undo sock name s₀ = with_slot name s₀ λ found s. elim found [
  | none ↦ done s (simple_header sock res_error_not_found ∷ [])
  | some slot ↦
      let meta = s.file_catalog slot in
      if has_write_access meta (user_of s sock)
      then if (s.ss_state meta.ss_sock_fd).active
        then done s (
            sent meta.ss_sock_fd req_ss_undo (filename_request name)
            ∷ simple_header sock res_ok
            ∷ [])
        else done s (simple_header sock res_error ∷ [])
      else done s (simple_header sock res_error_access_denied ∷ [])
]

unfoldable pub handle_req_update_metadata : UpdateMetadata → Server → Handled
handle_req_update_metadata msg s₀ = with_slot msg.filename s₀ λ found s. elim found [
  | none ↦ done s []
  | some slot ↦
      done
        (set_file slot
          (record (s.file_catalog slot) {
            file_size = msg.file_size;
            word_count = msg.word_count;
            char_count = msg.char_count;
            last_modified = msg.last_modified;
            last_accessed = msg.last_accessed;
          })
          s)
        []
]

-- `strrchr(filename, '/')`, and the name after it.
unfoldable pub base_filename : CString → CString → CString
base_filename seen [] = seen
base_filename seen (c ∷ cs) = base_filename (if c == b'/' then cs else seen) cs

-- `"%s/%s"` of the folder and the base name.
unfoldable pub moved_path : CString → CString → CString
moved_path folder name = folder ++ (b'/' ∷ base_filename name name)

unfoldable pub relabel : ℕ → CString → Server → Server
relabel slot path s =
    let meta = s.file_catalog slot in
    record (set_file slot (record meta { filename = path }) s) {
      index =
          add_to_hashmap path slot
            (invalidate_cache meta.filename (remove_from_hashmap meta.filename s.index));
    }

-- Undefined behaviour of a long path: `add_to_hashmap` copies the path into 100 bytes.
unfoldable pub move_confirmed : ℕ → ℕ → CString → Server → Handled
move_confirmed sock slot path s =
    if ltb (length path) max_filename
    then done (relabel slot path s) (simple_header sock res_ok ∷ [])
    else undefined

unfoldable pub handle_req_move : ℕ → CString → CString → MessageType → Server → Handled
handle_req_move sock name folder reply s₀ = with_slot name s₀ λ found s. elim found [
  | none ↦ done s (simple_header sock res_error_not_found ∷ [])
  | some slot ↦
      let meta = s.file_catalog slot in
      if is_owner s sock meta
      then if (s.ss_state meta.ss_sock_fd).active
        then after_relay (sent meta.ss_sock_fd req_ss_move (move_request name folder)) (
            if is_ok reply
            then move_confirmed sock slot (moved_path folder name) s
            else done s (simple_header sock res_error ∷ []))
        else done s (simple_header sock res_error ∷ [])
      else done s (simple_header sock res_error_access_denied ∷ [])
]
