-- ===== src/Storage/Checkpoints/Swap.antt =====
-- Proofs about `handle_ss_undo` of storage/handlers.c where no state was saved: the file and its
-- backup.
use distributed_document_sys.Protocol.{res_ok}
use distributed_document_sys.Storage.Checkpoints.Restore.{can_write-same, can_write-is_dir}
use distributed_document_sys.Storage.Checkpoints.{swap_backup, handle_ss_undo}
use distributed_document_sys.Storage.Disk.Paths.{paths-Apart}
use distributed_document_sys.Storage.Statistics.{header, calculate_and_send_metadata}
use distributed_document_sys.Storage.Disk.{
  open_read, remove, write, rename, Disk, exists, redo_tag, can_write, backup_path, swap_path,
  checkpoint_path, undo_tag,
}
use distributed_document_sys.Base.{
  sym, ap, strcmp, ◌∙◌, arith, Option, ℕ, List, CString, some, refl, [], none, false, true, Bool,
  ◌∷◌, ◌≡◌, ◌≢◌,
}

-- The file and its backup can be written, and there is no swap file and no state that a revert has
-- saved.
pub record HasBackup (f : CString) (cur : List ℕ) (old : Option (List ℕ)) (d : Disk) : Type 0 where
  pub file : can_write f d ≡ true
  pub backup : can_write (backup_path f) d ≡ true
  pub swap : can_write (swap_path f) d ≡ true
  pub now : d.files f ≡ some cur
  pub before : d.files (backup_path f) ≡ old
  pub no_swap : d.files (swap_path f) ≡ none
  pub no_undo : exists (checkpoint_path f undo_tag) d ≡ false
  pub no_redo : exists (checkpoint_path f redo_tag) d ≡ false

-- What a change of other files and of no directory keeps.
pub HasBackup-same :
    {f : CString} {cur cur' : List ℕ} {old old' : Option (List ℕ)} {d e : Disk}
    → HasBackup f cur old d
    → e.is_dir ≡ d.is_dir
    → e.files f ≡ some cur'
    → e.files (backup_path f) ≡ old'
    → e.files (swap_path f) ≡ none
    → e.files (checkpoint_path f undo_tag) ≡ d.files (checkpoint_path f undo_tag)
    → e.files (checkpoint_path f redo_tag) ≡ d.files (checkpoint_path f redo_tag)
    → HasBackup f cur' old' e
unfolding exists
HasBackup-same {f} {d = d} {e = e} h dirs now before gone undo redo = record {
  file = can_write-same d e f dirs h.file;
  backup = can_write-same d e (backup_path f) dirs h.backup;
  swap = can_write-same d e (swap_path f) dirs h.swap;
  now = now;
  before = before;
  no_swap = gone;
  no_undo = rw (undo, ap (λ (k : CString → Bool). k (checkpoint_path f undo_tag)) dirs) h.no_undo;
  no_redo = rw (redo, ap (λ (k : CString → Bool). k (checkpoint_path f redo_tag)) dirs) h.no_redo;
}

swapped :
    (stamp : CString → ℕ × ℕ) (f : CString) (cur : List ℕ) (old : Option (List ℕ)) (d : Disk)
    → HasBackup f cur old d
    → handle_ss_undo stamp f d
      ≡ (header res_ok ∷ calculate_and_send_metadata stamp f (swap_backup f d), swap_backup f d)
unfolding handle_ss_undo
swapped stamp f cur old d h = rw (h.no_undo, h.no_redo, handle_ss_undo) refl

module _ (f : CString) (cur : List ℕ) (d : Disk) where
  abbrev Swapped : Option (List ℕ) → Option (List ℕ) → Disk → Type 0
  Swapped now before e =
      (e.files f ≡ now)
      × (e.files (backup_path f) ≡ before)
      × (e.files (swap_path f) ≡ none)
      × ((p : CString) → f ≢ p → backup_path f ≢ p → swap_path f ≢ p → e.files p ≡ d.files p)
      × (e.is_dir ≡ d.is_dir)

  swap_both :
      (old : List ℕ)
      → HasBackup f cur (some old) d
      → Swapped (some old) (some cur) (swap_backup f d)
  unfolding swap_backup rename write remove can_write
  swap_both old h =
      let a = paths-Apart f [] in
      (
        ground (
          arith, h.now, h.before, h.file, h.backup, h.swap, a.file_backup, a.file_swap,
          a.backup_swap,
        ),
        ground (
          arith, h.now, h.before, h.file, h.backup, h.swap, a.file_backup, a.file_swap,
          a.backup_swap,
        ),
        ground (
          arith, h.now, h.before, h.file, h.backup, h.swap, a.file_backup, a.file_swap,
          a.backup_swap,
        ),
        λ p x y z. ground (
          arith, h.now, h.before, h.file, h.backup, h.swap, a.file_backup, a.file_swap,
          a.backup_swap, x, y, z,
        ),
        ground (
          arith, h.now, h.before, h.file, h.backup, h.swap, a.file_backup, a.file_swap,
          a.backup_swap,
        ),
      )

  swap_none : HasBackup f cur none d → Swapped none (some cur) (swap_backup f d)
  unfolding swap_backup rename write remove can_write
  swap_none h =
      let a = paths-Apart f [] in
      (
        ground (
          arith, h.now, h.before, h.file, h.backup, h.swap, a.file_backup, a.file_swap,
          a.backup_swap,
        ),
        ground (
          arith, h.now, h.before, h.file, h.backup, h.swap, a.file_backup, a.file_swap,
          a.backup_swap,
        ),
        ground (
          arith, h.now, h.before, h.file, h.backup, h.swap, a.file_backup, a.file_swap,
          a.backup_swap,
        ),
        λ p x y z. ground (
          arith, h.now, h.before, h.file, h.backup, h.swap, a.file_backup, a.file_swap,
          a.backup_swap, x, y, z,
        ),
        ground (
          arith, h.now, h.before, h.file, h.backup, h.swap, a.file_backup, a.file_swap,
          a.backup_swap,
        ),
      )

  module _ (stamp : CString → ℕ × ℕ) where
    -- Where the file, its backup and its swap file can be written, no state is saved and there
    -- is no swap file, an undo gives the file the backup's content and the backup the file's, replies
    -- with success and leaves every other file; what it leaves can be undone again.
    pub handle_ss_undo-swaps :
        (old : List ℕ)
        → HasBackup f cur (some old) d
        → let (out, e) = handle_ss_undo stamp f d in
          (out ≡ header res_ok ∷ calculate_and_send_metadata stamp f e)
          × HasBackup f old (some cur) e
          × ((p : CString) → f ≢ p → backup_path f ≢ p → e.files p ≡ d.files p)
    handle_ss_undo-swaps old h =
        let (now, before, gone, others, dirs) = swap_both old h in
        let u = paths-Apart f undo_tag in
        let r = paths-Apart f redo_tag in
        rw (swapped stamp f cur (some old) d h) (
          refl,
          HasBackup-same h dirs now before gone (others _ u.file_tag u.backup_tag u.swap_tag)
              (others _ r.file_tag r.backup_tag r.swap_tag),
          λ p x y. elim (strcmp (swap_path f) p) [
            | no z ↦ others p x y z
            | yes z ↦ ap (swap_backup f d).files (sym z) ∙ (gone ∙ (sym h.no_swap ∙ ap d.files z))
          ],
        )

    -- Where the file and the paths of its backup and its swap file can be written, no state is
    -- saved by a revert and there is no backup and no swap file, an undo replies with success,
    -- and the file is gone: its content is at the backup's path.
    pub handle_ss_undo-removes :
        HasBackup f cur none d
        → let (out, e) = handle_ss_undo stamp f d in
          (out ≡ header res_ok ∷ []) × (e.files f ≡ none) × (e.files (backup_path f) ≡ some cur)
    unfolding calculate_and_send_metadata open_read
    handle_ss_undo-removes h =
        let (now, before, gone, others, dirs) = swap_none h in
        rw (swapped stamp f cur none d h) (
          rw
              (
                now,
                can_write-is_dir f (swap_backup f d)
                    (can_write-same d (swap_backup f d) f dirs h.file),
                open_read,
                calculate_and_send_metadata,
              )
              refl,
          now,
          before,
        )
