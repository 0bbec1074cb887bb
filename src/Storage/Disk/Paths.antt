-- ===== src/Storage/Disk/Paths.antt =====
-- Proofs about the paths of a file: which of them are different.
use distributed_document_sys.Base.{
  arith, codes, ap, length, CString, ◌≢◌, ◌++◌, ◌+◌, ◌≡◌, [], length-append, ◌∷◌,
}
use distributed_document_sys.Storage.Disk.{
  redo_tag, checkpoint_dir, swap_path, checkpoint_path, backup_path, undo_tag,
}

abbrev UnequalLength : CString → CString → Type 0
UnequalLength a b = length a ≢ length b

apart : (a b : CString) → UnequalLength a b → a ≢ b
apart a b h e = h (ap length e)

append-cancel : (a b c : CString) → a ++ b ≡ a ++ c → b ≡ c
append-cancel [] b c e = e
append-cancel (x ∷ a) b c e = append-cancel a b c (cc)

pub checkpoint_path-injective :
    (f s t : CString) → checkpoint_path f s ≡ checkpoint_path f t → s ≡ t
checkpoint_path-injective f s t e =
    let p : b'/' ∷ s ≡ b'/' ∷ t = append-cancel (checkpoint_dir f) (b'/' ∷ s) (b'/' ∷ t) e in cc

length-checkpoint_path : (f t : CString) → length (checkpoint_path f t) ≡ 14 + length f + length t
length-checkpoint_path f t =
    omega
      (arith, length-append (checkpoint_dir f) (b'/' ∷ t), length-append (codes ".checkpoints/") f)

-- The paths that the handlers of a file use beside it.
pub record Apart (f tag : CString) : Type 0 where
  pub file_backup : f ≢ backup_path f
  pub file_swap : f ≢ swap_path f
  pub backup_swap : backup_path f ≢ swap_path f
  pub file_tag : f ≢ checkpoint_path f tag
  pub backup_tag : backup_path f ≢ checkpoint_path f tag
  pub swap_tag : swap_path f ≢ checkpoint_path f tag

pub paths-Apart : (f tag : CString) → Apart f tag
paths-Apart f tag =
    let bak = length-append f (codes ".bak") in
    let swap = length-append f (codes ".swap") in
    let cp = length-checkpoint_path f tag in
    record {
      file_backup = apart f (backup_path f) (omega (arith, bak));
      file_swap = apart f (swap_path f) (omega (arith, swap));
      backup_swap = apart (backup_path f) (swap_path f) (omega (arith, bak, swap));
      file_tag = apart f (checkpoint_path f tag) (omega (arith, cp));
      backup_tag = apart (backup_path f) (checkpoint_path f tag) (omega (arith, bak, cp));
      swap_tag = apart (swap_path f) (checkpoint_path f tag) (omega (arith, swap, cp));
    }

pub undo_redo_apart : (f : CString) → checkpoint_path f undo_tag ≢ checkpoint_path f redo_tag
undo_redo_apart f e =
    let p : undo_tag ≡ redo_tag = checkpoint_path-injective f undo_tag redo_tag e in
    ground (arith, p)
