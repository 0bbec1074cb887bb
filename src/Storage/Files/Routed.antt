-- ===== src/Storage/Files/Routed.antt =====
-- Proofs about `handle_nm_message_ss` of storage/handlers.c: requests that the metadata file can
-- hold.
use distributed_document_sys.Storage.Checkpoints.{
  handle_ss_revert, handle_ss_undo, handle_ss_listcheckpoints, handle_ss_checkpoint,
  handle_ss_viewcheckpoint,
}
use distributed_document_sys.Storage.Files.Move.{handle_ss_move-Represents}
use distributed_document_sys.Storage.Disk.{checkpoint_dir, remove, backup_path, write_file}
use distributed_document_sys.Storage.Metadata.Lookup.{or_system, Entry, entry}
use distributed_document_sys.Storage.Files.Access.{
  handle_ss_add_access_full, handle_ss_add_access_lem, handle_ss_rem_access_lem, NewName,
}
use distributed_document_sys.Storage.Statistics.{header, calculate_and_send_metadata, Output}
use distributed_document_sys.Storage.Metadata.Printed.{IsName, IsUser, IsPrintable}
use distributed_document_sys.Protocol.{
  res_ss_heartbeat, res_ok, max_permissions_per_file, max_files_per_ss,
}
use distributed_document_sys.Storage.Metadata.Map.{
  put_entry, Represents, save_file_metadata_lem, delete_file_metadata_lem,
}
use distributed_document_sys.Base.{
  length, ltb, inl, none, Bool-cases, ◌∷◌, arith, Option, List, ℕ, some, CString, inr, ◌+◌, [],
  refl, ◌≤◌, ◌<◌, ◌≡◌,
}
use distributed_document_sys.Storage.Files.{
  handle_ss_createfolder, listcheckpoints, checkpoint_file, checkfolder, revert_file,
  viewcheckpoint, undo_file, handle_ss_checkfolder, heartbeat, createfolder, get_file_content,
  handle_ss_sync_from_backup, handle_ss_get_file_content, sync_from_backup, moved_path, Store,
  handle_ss_delete, delete_file, handle_nm_message_ss, create_file, add_access, SsRequest,
  rem_access, handle_ss_replicate_file, handle_ss_create, move_file, replicate,
}

-- The names, owners and users of a request have the length and the form that the file can hold.
unfoldable pub Fits : SsRequest → Type 0
Fits (create_file f owner) = NewName f × IsPrintable (entry f owner [])
Fits (replicate f owner access) = NewName f × IsPrintable (entry f owner access)
Fits (add_access f user perm) = NewName f × IsUser user
Fits (rem_access f user) = NewName f
Fits (move_file f folder) = IsName f × NewName (moved_path folder f)
Fits (delete_file f) = Unit
Fits (undo_file f) = Unit
Fits (get_file_content f) = Unit
Fits (createfolder folder) = Unit
Fits (checkfolder folder) = Unit
Fits (checkpoint_file f tag) = Unit
Fits (viewcheckpoint f tag) = Unit
Fits (revert_file f tag) = Unit
Fits (listcheckpoints f) = Unit
Fits heartbeat = Unit
Fits (sync_from_backup f size incoming) = Unit

-- The request is carried out without a use of what was never written, and the metadata file then
-- holds a table again.
abbrev pub Routed : (CString → ℕ × ℕ) → (CString → List CString) → SsRequest → ℕ → Store → Type 0
Routed stamp listing q size s =
    (out : List Output) × (s' : Store) × (owners : CString → Option Entry) × (size' : ℕ)
    × (handle_nm_message_ss stamp listing q s ≡ some (out, s'))
    × Represents owners size' s'.metadata
    × (size' ≤ size + 1)

module _ (stamp : CString → ℕ × ℕ) (listing : CString → List CString)
    (owners : CString → Option Entry) (size : ℕ) (s : Store) (r : Represents owners size s.metadata)
    (room : size < max_files_per_ss) where
  -- A request whose names, owner and users the metadata file can hold is carried out while the
  -- file holds a table with room: no step uses what was never written, and the file then holds
  -- a table again, with at most one entry more.
  pub handle_nm_message_ss-Represents : (q : SsRequest) → Fits q → Routed stamp listing q size s
  unfolding Fits handle_nm_message_ss handle_ss_create handle_ss_delete handle_ss_replicate_file
  handle_nm_message_ss-Represents (create_file f owner) (n, p) =
      let (m, size', e, q, le) =
        save_file_metadata_lem owners size s.metadata f owner [] r p (inr (room, n.1)) in
      let d = write_file f [] s.disk in
      (
        header res_ok ∷ calculate_and_send_metadata stamp f d,
        record { disk = d; metadata = m },
        put_entry f (some (owner, [])) owners,
        size',
        rw (e, handle_ss_create) refl,
        q,
        le,
      )
  handle_nm_message_ss-Represents (replicate f owner access) (n, p) =
      let (m, size', e, q, le) =
        save_file_metadata_lem owners size s.metadata f owner access r p (inr (room, n.1)) in
      (
        [],
        record { disk = write_file f [] s.disk; metadata = m },
        put_entry f (some (owner, access)) owners,
        size',
        rw (e, handle_ss_replicate_file) refl,
        q,
        le,
      )
  handle_nm_message_ss-Represents (delete_file f) h =
      let (m, size', e, q, le) = delete_file_metadata_lem owners size s.metadata f r in
      (
        header res_ok ∷ [],
        record { disk = remove (backup_path f) (remove f s.disk); metadata = m },
        put_entry f none owners,
        size',
        rw (e, handle_ss_delete) refl,
        q,
        omega (arith, le),
      )
  handle_nm_message_ss-Represents (add_access f user perm) (n, u) =
      let access = (or_system (owners f)).1 in
      elim (Bool-cases (ltb (length access) max_permissions_per_file)) [
        | inl few ↦
            let (s', size', e, q, le) =
              handle_ss_add_access_lem owners size s f r room n user perm u (ground (arith, few)) in
            ([], s', _, size', rw e refl, q, le)
        | inr many ↦
            let e =
              handle_ss_add_access_full owners size s f r room n user perm (ground (arith, many)) in
            ([], s, owners, size, rw e refl, r, omega arith)
      ]
  handle_nm_message_ss-Represents (rem_access f user) n =
      let (s', size', e, q, le) = handle_ss_rem_access_lem owners size s f r room n user in
      ([], s', _, size', rw e refl, q, le)
  handle_nm_message_ss-Represents (move_file f folder) (n, new) =
      let (out, s', owners', size', e, q, le) =
        handle_ss_move-Represents owners size s f folder r room n new in
      (out, s', owners', size', e, q, le)
  handle_nm_message_ss-Represents (undo_file f) h = (
    (handle_ss_undo stamp f s.disk).0,
    record s { disk = (handle_ss_undo stamp f s.disk).1 },
    owners,
    size,
    refl,
    r,
    omega arith,
  )
  handle_nm_message_ss-Represents (get_file_content f) h = (
    handle_ss_get_file_content f s.disk,
    record s { disk = s.disk },
    owners,
    size,
    refl,
    r,
    omega arith,
  )
  handle_nm_message_ss-Represents (createfolder folder) h = (
    (handle_ss_createfolder folder s.disk).0,
    record s { disk = (handle_ss_createfolder folder s.disk).1 },
    owners,
    size,
    refl,
    r,
    omega arith,
  )
  handle_nm_message_ss-Represents (checkfolder folder) h = (
    handle_ss_checkfolder folder s.disk,
    record s { disk = s.disk },
    owners,
    size,
    refl,
    r,
    omega arith,
  )
  handle_nm_message_ss-Represents (checkpoint_file f tag) h = (
    (handle_ss_checkpoint f tag s.disk).0,
    record s { disk = (handle_ss_checkpoint f tag s.disk).1 },
    owners,
    size,
    refl,
    r,
    omega arith,
  )
  handle_nm_message_ss-Represents (viewcheckpoint f tag) h = (
    handle_ss_viewcheckpoint f tag s.disk,
    record s { disk = s.disk },
    owners,
    size,
    refl,
    r,
    omega arith,
  )
  handle_nm_message_ss-Represents (revert_file f tag) h = (
    (handle_ss_revert f tag s.disk).0,
    record s { disk = (handle_ss_revert f tag s.disk).1 },
    owners,
    size,
    refl,
    r,
    omega arith,
  )
  handle_nm_message_ss-Represents (listcheckpoints f) h = (
    handle_ss_listcheckpoints stamp f (listing (checkpoint_dir f)) s.disk,
    record s { disk = s.disk },
    owners,
    size,
    refl,
    r,
    omega arith,
  )
  handle_nm_message_ss-Represents heartbeat h =
      (header res_ss_heartbeat ∷ [], record s { disk = s.disk }, owners, size, refl, r, omega arith)
  handle_nm_message_ss-Represents (sync_from_backup f n incoming) h = (
    [],
    record s { disk = handle_ss_sync_from_backup f n incoming s.disk },
    owners,
    size,
    refl,
    r,
    omega arith,
  )
