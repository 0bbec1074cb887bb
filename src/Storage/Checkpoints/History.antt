-- ===== src/Storage/Checkpoints/History.antt =====
-- Proofs about `handle_ss_revert` and `handle_ss_undo` of storage/handlers.c, one after the other.
use distributed_document_sys.Storage.Document.{flush_list_to_file}
use distributed_document_sys.Storage.Disk.Paths.{paths-Apart}
use distributed_document_sys.Storage.Sessions.Commit.{write_back_others, write_back_lem}
use distributed_document_sys.Storage.Checkpoints.Swap.{
  handle_ss_undo-swaps, HasBackup, HasBackup-same,
}
use distributed_document_sys.Storage.Edits.{SentenceNode}
use distributed_document_sys.Storage.Statistics.{header}
use distributed_document_sys.Protocol.{res_ok}
use distributed_document_sys.Storage.Checkpoints.Undo.{undo_lem, redo_lem, revert_restores, HasUndo}
use distributed_document_sys.Storage.Checkpoints.{handle_ss_revert, handle_ss_undo}
use distributed_document_sys.Storage.Sessions.{values, Storage, write_back}
use distributed_document_sys.Storage.Disk.{redo_tag, Disk, checkpoint_path, undo_tag}
use distributed_document_sys.Storage.Checkpoints.Restore.{IsPlace, IsPlace-same}
use distributed_document_sys.Base.{
  Option, ◌∙◌, List, ℕ, CString, refl, some, false, [], ◌∷◌, ◌≡◌, ◌≢◌,
}

module _ (stamp : CString → ℕ × ℕ) (f : CString) where
  -- Where the file, its backup and its saved states can be written and the checkpoint is
  -- another than the undo state, a revert gives the file the checkpoint's content, an undo
  -- then gives it the content before the revert, and a second undo the checkpoint's again.
  pub handle_ss_undo-handle_ss_revert :
      (tag : CString) (old new : List ℕ) (d : Disk)
      → IsPlace f d
      → tag ≢ undo_tag
      → d.is_dir (checkpoint_path f tag) ≡ false
      → d.files f ≡ some old
      → d.files (checkpoint_path f tag) ≡ some new
      → let (out, d₁) = handle_ss_revert f tag d in
        let d₂ = (handle_ss_undo stamp f d₁).1 in
        let d₃ = (handle_ss_undo stamp f d₂).1 in
        (out ≡ header res_ok ∷ [])
        × (d₁.files f ≡ some new)
        × (d₂.files f ≡ some old)
        × (d₃.files f ≡ some new)
  handle_ss_undo-handle_ss_revert tag old new d p ne nd hf hd =
      let (d₁, e₁, r) = revert_restores f tag old new d p ne nd hf hd in
      let (d₂, e₂, h₂) =
        undo_lem stamp f new old d₁
          (record { undo_place = IsPlace-same r.dirs p; undo_now = r.now; undo_saved = r.kept }) in
      let (d₃, e₃, h₃) = redo_lem stamp f old new d₂ h₂ in
      rw (e₁, e₂, e₃) (refl, r.now, h₂.redo_now, h₃.undo_now)

  -- Where the file, its backup and the states that a revert and an undo save can be written, a
  -- revert has saved a state, and a session has committed since, an undo brings the state
  -- before the revert back, whatever the session's backup holds.
  pub handle_ss_undo-write_back :
      (cur saved : List ℕ) (doc : List SentenceNode) (s : Storage)
      → HasUndo f cur saved s.disk
      → (handle_ss_undo stamp f (write_back f doc s).disk).1.files f ≡ some saved
  handle_ss_undo-write_back cur saved doc s h =
      let p = h.undo_place in
      let t = (write_back f doc s).disk in
      let (now, before) = write_back_lem f doc cur s p.file p.backup h.undo_now in
      let (others, dirs) = write_back_others f doc s in
      let u = paths-Apart f undo_tag in
      let (d', e, g) = undo_lem stamp f (flush_list_to_file (values doc)) saved t (record {
        undo_place = IsPlace-same dirs p;
        undo_now = now;
        undo_saved = others _ u.file_tag u.backup_tag ∙ h.undo_saved;
      }) in
      rw e g.redo_now

  -- Where no state is saved by a revert, the file, its backup and its swap file can be written
  -- and there is no swap file, an undo of a session's commit gives the file the content before
  -- the commit, and its backup the committed document.
  pub handle_ss_undo-committed :
      (cur : List ℕ) (old : Option (List ℕ)) (doc : List SentenceNode) (s : Storage)
      → HasBackup f cur old s.disk
      → HasBackup f cur
          (some (flush_list_to_file (values doc)))
          (handle_ss_undo stamp f (write_back f doc s).disk).1
  handle_ss_undo-committed cur old doc s h =
      let (now, before) = write_back_lem f doc cur s h.file h.backup h.now in
      let (others, dirs) = write_back_others f doc s in
      let a = paths-Apart f [] in
      let u = paths-Apart f undo_tag in
      let r = paths-Apart f redo_tag in
      let committed =
        HasBackup-same h dirs now before (others _ a.file_swap a.backup_swap ∙ h.no_swap)
          (others _ u.file_tag u.backup_tag) (others _ r.file_tag r.backup_tag) in
      (handle_ss_undo-swaps f (flush_list_to_file (values doc)) (write_back f doc s).disk stamp cur
        committed).1
