-- ===== src/Storage/Files.antt =====
-- storage/handlers.c: the requests of the naming server on the files, the folders and the metadata of
-- a storage server, and `handle_nm_message_ss`, which routes all its requests. A handler gives what
-- it sends back, and is `none` where the program uses what was never written.
pub mod Access
pub mod Copy
pub mod Move
pub mod Routed
use distributed_document_sys.Storage.Checkpoints.{
  handle_ss_revert, handle_ss_checkpoint, handle_ss_listcheckpoints, handle_ss_undo,
  handle_ss_viewcheckpoint, outcome, prefixes,
}
use distributed_document_sys.Storage.Disk.{
  remove, checkpoint_dir, exists, rename, mkdir, Disk, backup_path, open_read, write_file,
}
use distributed_document_sys.Storage.Statistics.{
  bytes, number, Output, calculate_and_send_metadata, header,
}
use distributed_document_sys.Storage.Metadata.{
  load_file_metadata, save_file_metadata, MetadataFile, delete_file_metadata,
}
use distributed_document_sys.Protocol.{
  res_ss_heartbeat, AccessEntry, PermissionLevel, res_ok, max_permissions_per_file,
}
use distributed_document_sys.Base.{
  ltb, ◌>>=◌, consed, take, length, Bool, str_eq, List, Option, ℕ, [], true, CString, ◌++◌, some,
  none, ◌∷◌, ◌==◌, if◌then◌else◌, false, ◌||◌,
}

pub record Store : Type 0 where
  pub disk : Disk
  pub metadata : MetadataFile

-- `handle_create_file`
abbrev pub handle_create_file : CString → Disk → Disk
handle_create_file f d = write_file f [] d

unfoldable pub handle_ss_create :
    (CString → ℕ × ℕ) → CString → CString → Store → Option (List Output × Store)
handle_ss_create stamp f owner s = do
  let d = handle_create_file f s.disk
  m ← save_file_metadata f owner [] s.metadata
  some (header res_ok ∷ calculate_and_send_metadata stamp f d, record { disk = d; metadata = m })

unfoldable pub handle_ss_delete : CString → Store → Option (List Output × Store)
handle_ss_delete f s = do
  m ← delete_file_metadata f s.metadata
  some
      (header res_ok ∷ [], record { disk = remove (backup_path f) (remove f s.disk); metadata = m })

abbrev pub entry_for : CString → PermissionLevel → AccessEntry
entry_for user perm = record { username = user; permission = perm }

unfoldable pub handle_ss_add_access : CString → CString → PermissionLevel → Store → Option Store
handle_ss_add_access f user perm s = do
  (owner, access) ← load_file_metadata f s.metadata
  let added = save_file_metadata f owner (access ++ entry_for user perm ∷ []) s.metadata
  m ← (if ltb (length access) max_permissions_per_file then added else some s.metadata)
  some (record s { metadata = m })

-- Without the first entry of the user, if there is one.
unfoldable pub drop_user : CString → List AccessEntry → Option (List AccessEntry)
drop_user user [] = none
drop_user user (e ∷ es) =
    let rest = drop_user user es in if str_eq e.username user then some es else consed e rest

unfoldable pub handle_ss_rem_access : CString → CString → Store → Option Store
handle_ss_rem_access f user s = do
  (owner, access) ← load_file_metadata f s.metadata
  m ← (elim (drop_user user access) [
    | none ↦ some s.metadata
    | some es ↦ save_file_metadata f owner es s.metadata
  ])
  some (record s { metadata = m })

-- The directories above the folder: one that is there already is no failure.
unfoldable pub make_all : List CString → Disk → Bool × Disk
make_all [] d = (true, d)
make_all (p ∷ ps) d =
    let (made, d') = mkdir p d in
    let rest = make_all ps d' in if made || exists p d then rest else (false, d')

unfoldable pub handle_ss_createfolder : CString → Disk → List Output × Disk
handle_ss_createfolder folder d =
    let (above, d₁) = make_all (prefixes [] folder) d in
    let (made, d₂) = mkdir folder d₁ in
    if d.is_dir folder
    then (outcome false, d)
    else if above
    then (outcome made, d₂)
    else (outcome false, d₁)

abbrev pub handle_ss_checkfolder : CString → Disk → List Output
handle_ss_checkfolder folder d = outcome (d.is_dir folder)

-- What stands after the last '/', or the whole name.
unfoldable pub base_from : CString → CString → CString
base_from best [] = best
base_from best (c ∷ cs) = base_from (if c == b'/' then cs else best) cs

abbrev pub base_filename : CString → CString
base_filename f = base_from f f

abbrev pub moved_path : CString → CString → CString
moved_path folder f = folder ++ (b'/' ∷ base_filename f)

unfoldable pub handle_ss_move : CString → CString → Store → Option (List Output × Store)
handle_ss_move f folder s =
    let new = moved_path folder f in
    let (ok, d) = rename f new (mkdir folder s.disk).1 in
    let d' = (rename (backup_path f) (backup_path new) d).1 in
    let kept = (do
      (owner, access) ← load_file_metadata f s.metadata
      m ← delete_file_metadata f s.metadata
      m' ← save_file_metadata new owner access m
      some (outcome true, record { disk = d'; metadata = m' })) in
    if ok then kept else some (outcome false, record s { disk = d })

-- The backup copy of a new file, empty.
unfoldable pub handle_ss_replicate_file :
    CString → CString → List AccessEntry → Store → Option Store
handle_ss_replicate_file f owner access s = do
  m ← save_file_metadata f owner access s.metadata
  some (record { disk = write_file f [] s.disk; metadata = m })

unfoldable pub handle_ss_get_file_content : CString → Disk → List Output
handle_ss_get_file_content f d = elim (open_read f d) [
  | none ↦ number 0 ∷ []
  | some content ↦ number (length content) ∷ bytes content ∷ []
]

-- At most so many bytes are taken of what comes in.
unfoldable pub handle_ss_sync_from_backup : CString → ℕ → List ℕ → Disk → Disk
handle_ss_sync_from_backup f file_size incoming d = write_file f (take file_size incoming) d

-- The requests of the naming server, with their messages.
pub data SsRequest : Type 0 where
  create_file : (filename owner : CString) → SsRequest
  delete_file undo_file get_file_content : (filename : CString) → SsRequest
  add_access : (filename username : CString) (perm : PermissionLevel) → SsRequest
  rem_access : (filename username : CString) → SsRequest
  createfolder checkfolder : (foldername : CString) → SsRequest
  move_file : (filename foldername : CString) → SsRequest
  checkpoint_file viewcheckpoint revert_file : (filename tag : CString) → SsRequest
  listcheckpoints : (filename : CString) → SsRequest
  replicate : (filename owner : CString) (access_list : List AccessEntry) → SsRequest
  heartbeat : SsRequest
  sync_from_backup : (filename : CString) (file_size : ℕ) (incoming : List ℕ) → SsRequest

-- A handler that does not touch the metadata.
abbrev on_disk : List Output × Disk → Store → Option (List Output × Store)
on_disk (out, d) s = some (out, record s { disk = d })

abbrev silent : Option Store → Option (List Output × Store)
silent none = none
silent (some s) = some ([], s)

-- `listing` is what `readdir` gives for a directory.
unfoldable pub handle_nm_message_ss :
    (CString → ℕ × ℕ) → (CString → List CString) → SsRequest → Store → Option (List Output × Store)
handle_nm_message_ss stamp listing (create_file f owner) s = handle_ss_create stamp f owner s
handle_nm_message_ss stamp listing (delete_file f) s = handle_ss_delete f s
handle_nm_message_ss stamp listing (undo_file f) s = on_disk (handle_ss_undo stamp f s.disk) s
handle_nm_message_ss stamp listing (get_file_content f) s =
    some (handle_ss_get_file_content f s.disk, s)
handle_nm_message_ss stamp listing (add_access f user perm) s =
    silent (handle_ss_add_access f user perm s)
handle_nm_message_ss stamp listing (rem_access f user) s = silent (handle_ss_rem_access f user s)
handle_nm_message_ss stamp listing (createfolder folder) s =
    on_disk (handle_ss_createfolder folder s.disk) s
handle_nm_message_ss stamp listing (checkfolder folder) s =
    some (handle_ss_checkfolder folder s.disk, s)
handle_nm_message_ss stamp listing (move_file f folder) s = handle_ss_move f folder s
handle_nm_message_ss stamp listing (checkpoint_file f tag) s =
    on_disk (handle_ss_checkpoint f tag s.disk) s
handle_nm_message_ss stamp listing (viewcheckpoint f tag) s =
    some (handle_ss_viewcheckpoint f tag s.disk, s)
handle_nm_message_ss stamp listing (revert_file f tag) s = on_disk (handle_ss_revert f tag s.disk) s
handle_nm_message_ss stamp listing (listcheckpoints f) s =
    some (handle_ss_listcheckpoints stamp f (listing (checkpoint_dir f)) s.disk, s)
handle_nm_message_ss stamp listing (replicate f owner access) s =
    silent (handle_ss_replicate_file f owner access s)
handle_nm_message_ss stamp listing heartbeat s = some (header res_ss_heartbeat ∷ [], s)
handle_nm_message_ss stamp listing (sync_from_backup f size incoming) s =
    some ([], record s { disk = handle_ss_sync_from_backup f size incoming s.disk })
