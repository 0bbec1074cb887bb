-- ===== src/Storage/Checkpoints/Restore.antt =====
-- Proofs about the copies that a restoration makes.
use distributed_document_sys.Storage.Checkpoints.{restore}
use distributed_document_sys.Base.{
  ap, not, Bool, ◌&&◌, arith, sym, ◌∙◌, ℕ, List, false, some, CString, ◌≢◌, true, refl, ◌≡◌,
}
use distributed_document_sys.Storage.Disk.{
  parent, write, copy, Disk, checkpoint_path, backup_path, redo_tag, open_read, undo_tag, can_write,
}

-- The file can be written, and so can its backup and its saved states.
pub record IsPlace (f : CString) (d : Disk) : Type 0 where
  pub file : can_write f d ≡ true
  pub backup : can_write (backup_path f) d ≡ true
  pub undo : can_write (checkpoint_path f undo_tag) d ≡ true
  pub redo : can_write (checkpoint_path f redo_tag) d ≡ true

-- Copying
pub copy_lem :
    (from to : CString) (content : List ℕ) (d : Disk)
    → can_write to d ≡ true
    → d.is_dir from ≡ false
    → d.files from ≡ some content
    → copy from to d ≡ (true, write to content d)
unfolding copy open_read
copy_lem from to content d w n e = rw (w, n, e, copy, open_read) refl

pub write-other :
    (p q : CString) (content : List ℕ) (d : Disk) → p ≢ q → (write p content d).files q ≡ d.files q
unfolding write
write-other p q content d ne = ground (arith, ne)

pub write-same :
    (p : CString) (content : List ℕ) (d : Disk) → (write p content d).files p ≡ some content
unfolding write
write-same p content d = ground arith

restore_lem :
    (from saved f : CString) (old new : List ℕ) (d : Disk)
    → from ≢ f
    → saved ≢ from
    → d.is_dir f ≡ false
    → d.is_dir from ≡ false
    → can_write saved d ≡ true
    → can_write f d ≡ true
    → can_write (backup_path f) d ≡ true
    → d.files f ≡ some old
    → d.files from ≡ some new
    → restore from saved f d ≡ (true, write (backup_path f) new (write f new (write saved old d)))
unfolding restore write can_write
restore_lem from saved f old new d a b nf nd ws wf wb hf hd =
    let d₁ : Disk = write saved old d in
    let d₂ : Disk = write f new d₁ in
    let e₁ : d₁.files from ≡ some new = write-other saved from old d b ∙ hd in
    let e₂ : d₂.files from ≡ some new = write-other f from new d₁ (λ e. a (sym e)) ∙ e₁ in
    let s₁ : copy f saved d ≡ (true, d₁) = copy_lem f saved old d ws nf hf in
    let s₂ : copy from f d₁ ≡ (true, d₂) = copy_lem from f new d₁ wf nd e₁ in
    let s₃ : copy from (backup_path f) d₂ ≡ (true, write (backup_path f) new d₂) =
      copy_lem from (backup_path f) new d₂ wb nd e₂ in
    rw (restore, s₁, s₂, s₃) refl

pub can_write-same :
    (d e : Disk) (p : CString) → e.is_dir ≡ d.is_dir → can_write p d ≡ true → can_write p e ≡ true
unfolding can_write
can_write-same d e p same w = ap (λ (k : CString → Bool). k (parent p) && not (k p)) same ∙ w

pub IsPlace-same : {f : CString} {d e : Disk} → e.is_dir ≡ d.is_dir → IsPlace f d → IsPlace f e
IsPlace-same {f} {d} {e} same p = record {
  file = can_write-same d e f same p.file;
  backup = can_write-same d e (backup_path f) same p.backup;
  undo = can_write-same d e (checkpoint_path f undo_tag) same p.undo;
  redo = can_write-same d e (checkpoint_path f redo_tag) same p.redo;
}

pub can_write-is_dir : (p : CString) (d : Disk) → can_write p d ≡ true → d.is_dir p ≡ false
unfolding can_write
can_write-is_dir p d e = ground (arith, e)

-- What a restoration from `from` leaves: its content is that of the file, the old one is saved.
pub record IsRestored (from saved f : CString) (old new : List ℕ) (d d' : Disk) : Type 0 where
  pub now : d'.files f ≡ some new
  pub before : d'.files (backup_path f) ≡ some new
  pub kept : d'.files saved ≡ some old
  pub others : (p : CString) → f ≢ p → backup_path f ≢ p → saved ≢ p → d'.files p ≡ d.files p
  pub dirs : d'.is_dir ≡ d.is_dir

module _ (from saved f : CString) (old new : List ℕ) (d : Disk) (a : from ≢ f) (b : saved ≢ from)
    (c : f ≢ backup_path f) (nb : backup_path f ≢ saved) (nf : f ≢ saved)
    (df : d.is_dir from ≡ false) (ws : can_write saved d ≡ true) (wf : can_write f d ≡ true)
    (wb : can_write (backup_path f) d ≡ true) (hf : d.files f ≡ some old)
    (hd : d.files from ≡ some new) where
  abbrev written : Disk
  written = write (backup_path f) new (write f new (write saved old d))

  restored : restore from saved f d ≡ (true, written)
  restored = restore_lem from saved f old new d a b (can_write-is_dir f d wf) df ws wf wb hf hd

  written_lem : IsRestored from saved f old new d written
  unfolding write
  written_lem = record {
    now = ground (arith, c);
    before = ground arith;
    kept = ground (arith, nb, nf);
    others = λ p x y z. ground (arith, x, y, z);
    dirs = refl;
  }

  pub restored_lem :
      (d' : Disk) × (restore from saved f d ≡ (true, d')) × IsRestored from saved f old new d d'
  restored_lem = (written, restored, written_lem)
