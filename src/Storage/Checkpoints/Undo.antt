-- ===== src/Storage/Checkpoints/Undo.antt =====
-- Proofs about `handle_ss_revert` and `handle_ss_undo` of storage/handlers.c: what they restore.
use distributed_document_sys.Storage.Statistics.{calculate_and_send_metadata, header}
use distributed_document_sys.Storage.Checkpoints.Restore.{
  can_write-is_dir, IsPlace-same, IsPlace, restored_lem, IsRestored,
}
use distributed_document_sys.Storage.Checkpoints.{handle_ss_undo, toggle, handle_ss_revert}
use distributed_document_sys.Protocol.{res_ok}
use distributed_document_sys.Storage.Disk.{
  Disk, remove, exists, undo_tag, redo_tag, can_write, backup_path, checkpoint_path,
}
use distributed_document_sys.Base.{
  arith, sym, ℕ, List, refl, [], ◌∷◌, ◌≡◌, some, false, CString, none, ◌≢◌, true,
}
use distributed_document_sys.Storage.Disk.Paths.{
  undo_redo_apart, checkpoint_path-injective, paths-Apart,
}

-- An undo after a revert: the saved state is to come back.
pub record HasUndo (f : CString) (cur saved : List ℕ) (d : Disk) : Type 0 where
  pub undo_place : IsPlace f d
  pub undo_now : d.files f ≡ some cur
  pub undo_saved : d.files (checkpoint_path f undo_tag) ≡ some saved

-- A redo after an undo.
pub record HasRedo (f : CString) (cur saved : List ℕ) (d : Disk) : Type 0 where
  pub redo_place : IsPlace f d
  pub redo_now : d.files f ≡ some cur
  pub redo_saved : d.files (checkpoint_path f redo_tag) ≡ some saved
  pub no_undo : d.files (checkpoint_path f undo_tag) ≡ none

pub revert_restores :
    (f tag : CString) (old new : List ℕ) (d : Disk)
    → IsPlace f d
    → tag ≢ undo_tag
    → d.is_dir (checkpoint_path f tag) ≡ false
    → d.files f ≡ some old
    → d.files (checkpoint_path f tag) ≡ some new
    → (d' : Disk) × (handle_ss_revert f tag d ≡ (header res_ok ∷ [], d'))
      × IsRestored (checkpoint_path f tag) (checkpoint_path f undo_tag) f old new d d'
unfolding handle_ss_revert exists
revert_restores f tag old new d p ne nd hf hd =
    let t = paths-Apart f tag in
    let u = paths-Apart f undo_tag in
    let (d', e, r) =
      restored_lem (checkpoint_path f tag) (checkpoint_path f undo_tag) f old new d
        (λ e. t.file_tag (sym e)) (λ e. ne (sym (checkpoint_path-injective f undo_tag tag e)))
        u.file_backup u.backup_tag u.file_tag nd p.undo p.file p.backup hf hd in
    (d', rw (e, nd, hd, exists, handle_ss_revert) refl, r)

toggle_restores :
    (from saved f : CString) (old new : List ℕ) (d : Disk)
    → from ≢ f
    → saved ≢ from
    → f ≢ backup_path f
    → backup_path f ≢ saved
    → backup_path f ≢ from
    → f ≢ saved
    → d.is_dir from ≡ false
    → can_write saved d ≡ true
    → can_write f d ≡ true
    → can_write (backup_path f) d ≡ true
    → d.files f ≡ some old
    → d.files from ≡ some new
    → (d' : Disk) × (toggle from saved f d ≡ (header res_ok ∷ [], d'))
      × (d'.files f ≡ some new)
      × (d'.files saved ≡ some old)
      × (d'.files from ≡ none)
      × (d'.is_dir ≡ d.is_dir)
unfolding toggle remove
toggle_restores from saved f old new d a b c nb nb' nf df ws wf wb hf hd =
    let (d', e, r) = restored_lem from saved f old new d a b c nb nf df ws wf wb hf hd in
    (
      remove from d',
      rw (e, toggle) refl,
      ground (arith, r.now, a),
      ground (arith, r.kept, b),
      ground arith,
      r.dirs,
    )

abbrev pub Undone : (CString → ℕ × ℕ) → CString → Disk → Disk → Type 0
Undone stamp f d d' =
    handle_ss_undo stamp f d ≡ (header res_ok ∷ calculate_and_send_metadata stamp f d', d')

module _ (stamp : CString → ℕ × ℕ) (f : CString) (cur saved : List ℕ) (d : Disk) where
  pub undo_lem : HasUndo f cur saved d → (d' : Disk) × Undone stamp f d d' × HasRedo f saved cur d'
  unfolding handle_ss_undo exists
  undo_lem h =
      let p = h.undo_place in
      let u = paths-Apart f undo_tag in
      let r = paths-Apart f redo_tag in
      let (d', e, now, kept, gone, dirs) =
        toggle_restores (checkpoint_path f undo_tag) (checkpoint_path f redo_tag) f cur saved d
          (λ e. u.file_tag (sym e)) (λ e. undo_redo_apart f (sym e)) r.file_backup r.backup_tag
          u.backup_tag r.file_tag (can_write-is_dir _ d p.undo) p.redo p.file p.backup h.undo_now
          h.undo_saved in
      (
        d',
        rw (h.undo_saved, can_write-is_dir _ d p.undo, e, exists, handle_ss_undo) refl,
        record {
          redo_place = IsPlace-same dirs p;
          redo_now = now;
          redo_saved = kept;
          no_undo = gone;
        },
      )

  pub redo_lem : HasRedo f cur saved d → (d' : Disk) × Undone stamp f d d' × HasUndo f saved cur d'
  unfolding handle_ss_undo exists
  redo_lem h =
      let p = h.redo_place in
      let u = paths-Apart f undo_tag in
      let r = paths-Apart f redo_tag in
      let (d', e, now, kept, gone, dirs) =
        toggle_restores (checkpoint_path f redo_tag) (checkpoint_path f undo_tag) f cur saved d
          (λ e. r.file_tag (sym e)) (undo_redo_apart f) u.file_backup u.backup_tag r.backup_tag
          u.file_tag (can_write-is_dir _ d p.redo) p.undo p.file p.backup h.redo_now h.redo_saved in
      (
        d',
        rw
            (
              h.no_undo,
              h.redo_saved,
              can_write-is_dir _ d p.undo,
              can_write-is_dir _ d p.redo,
              e,
              exists,
              handle_ss_undo,
            )
            refl,
        record { undo_place = IsPlace-same dirs p; undo_now = now; undo_saved = kept },
      )
