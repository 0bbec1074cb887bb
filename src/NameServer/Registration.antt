-- ===== src/NameServer/Registration.antt =====
-- name/name_server.c: `handle_ss_register`, `check_and_handle_recovery`, `catalog_ss_files`;
-- `sync_file_to_recovering_ss` and `sync_files_to_recovering_ss` of name/fault_tolerance.c.
pub mod Keeps
pub mod Recovered
use distributed_document_sys.NameServer.Index.{add_to_hashmap}
use distributed_document_sys.NameServer.Catalog.{
  replicate, find_empty_file_slot, set_file, choose_backup,
}
use distributed_document_sys.Protocol.{
  sent, Sent, res_ok, max_files_in_system, req_sync_from_backup, req_get_file_content,
  simple_header, AccessEntry, synced_file, sync_file,
}
use distributed_document_sys.Base.{
  length, update, not, Option, Bool, ℕ, List, CString, true, find_first, some, zero, if◌then◌else◌,
  ◌∷◌, ◌&&◌, is_none, ◌==◌, none, [], false, suc, ◌++◌,
}
use distributed_document_sys.NameServer.State.{Server, Handled, FileMetadata, done}

-- `Msg_File_Item`
pub record FileItem : Type 0 where
  pub filename : CString
  pub owner : CString
  pub access_list : List AccessEntry

-- `content` is what the backup sends for a file; an empty file is not passed on.
unfoldable pub sync_file_to_recovering_ss : (ℕ → CString → List ℕ) → ℕ → ℕ → CString → List Sent
sync_file_to_recovering_ss content recovering source name =
    let got = content source name in
    sent source req_get_file_content (sync_file name)
    ∷ (if 0 == length got
        then []
        else sent recovering req_sync_from_backup (synced_file name (length got) got) ∷ [])

-- The test of the loop: an inactive entry of the server, whose backup is active; `none` where it
-- fails.
unfoldable pub recoverable : ℕ → Server → FileMetadata → Option ℕ
recoverable sock s meta = elim meta.backup_ss_sock [
  | none ↦ none
  | some source ↦
      if not meta.active && (meta.ss_sock_fd == sock && (s.ss_state source).active)
      then some source
      else none
]

unfoldable pub sync_files : (ℕ → CString → List ℕ) → ℕ → ℕ → ℕ → Server → Server × List Sent
sync_files content sock zero i s = (s, [])
sync_files content sock (suc n) i s =
    let meta = s.file_catalog i in
    elim (recoverable sock s meta) [
      | none ↦ sync_files content sock n (suc i) s
      | some source ↦
          let (t, out) =
            sync_files content sock n (suc i) (set_file i (record meta { active = true }) s) in
          (t, sync_file_to_recovering_ss content sock source meta.filename ++ out)
    ]

abbrev pub sync_files_to_recovering_ss : (ℕ → CString → List ℕ) → ℕ → Server → Server × List Sent
sync_files_to_recovering_ss content sock s = sync_files content sock max_files_in_system 0 s

-- An inactive entry of the server that has a backup.
unfoldable pub has_backup : ℕ → FileMetadata → Bool
has_backup sock meta =
    not meta.active && (meta.ss_sock_fd == sock && not (is_none meta.backup_ss_sock))

-- The entries for the files that the server says it has, as far as there are slots.
unfoldable pub catalog_ss_files : ℕ → List FileItem → Server → Server × List Sent
catalog_ss_files sock [] s = (s, [])
catalog_ss_files sock (f ∷ fs) s = elim (find_empty_file_slot s) [
  | none ↦ catalog_ss_files sock fs s
  | some slot ↦
      let meta : FileMetadata = record (s.file_catalog slot) {
        active = true;
        filename = f.filename;
        ss_sock_fd = sock;
        owner = f.owner;
        access_list = f.access_list;
        backup_ss_sock = choose_backup s sock;
      } in
      let s' = record (set_file slot meta s) { index = add_to_hashmap f.filename slot s.index } in
      let (t, out) = catalog_ss_files sock fs s' in (t, replicate meta ++ out)
]

unfoldable pub register_ss : ℕ → CString → CString → ℕ → ℕ → Server → Server
register_ss sock peer_ip ip port now s = record s {
  ss_state = update s.ss_state sock (record {
    active = true;
    ip = ip;
    client_port = port;
    ip_addr = peer_ip;
    last_heartbeat = now;
    missed_heartbeats = 0;
  });
  client_state = update s.client_state sock (record (s.client_state sock) { active = false });
}

-- A server that brings no file, and has entries with backups, is taken for a recovering one.
unfoldable pub handle_ss_register :
    (ℕ → CString → List ℕ) → ℕ → CString → CString → ℕ → List FileItem → ℕ → Server → Handled
handle_ss_register content sock peer_ip ip port items now s₀ =
    let s = register_ss sock peer_ip ip port now s₀ in
    let recovering =
      not (is_none (find_first (λ i. has_backup sock (s.file_catalog i)) max_files_in_system 0)) in
    let (t, out) =
      if 0 == length items && recovering
      then sync_files_to_recovering_ss content sock s
      else catalog_ss_files sock items s in
    done t (out ++ simple_header sock res_ok ∷ [])
