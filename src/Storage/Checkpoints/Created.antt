-- ===== src/Storage/Checkpoints/Created.antt =====
-- Proofs about `handle_ss_checkpoint` and `handle_ss_viewcheckpoint` of storage/handlers.c.
use distributed_document_sys.Storage.Checkpoints.{
  prefixes, handle_ss_viewcheckpoint, handle_ss_checkpoint, make_dirs, make_path,
}
use distributed_document_sys.Storage.Checkpoints.Restore.{
  write-same, can_write-is_dir, write-other, copy_lem,
}
use distributed_document_sys.Storage.Disk.{
  open_read, write, copy, exists, Disk, mkdir, checkpoint_dir, can_write, checkpoint_path,
}
use distributed_document_sys.Storage.Statistics.{header, bytes}
use distributed_document_sys.Protocol.{res_error, res_ss_file_ok, res_ok}
use distributed_document_sys.Storage.Disk.Paths.{paths-Apart}
use distributed_document_sys.Base.{
  arith, ap, sym, ℕ, List, some, CString, true, ◌∙◌, ◌≢◌, ◌≡◌, refl, ◌∷◌, [], false,
}

pub mkdir-files : (p : CString) (d : Disk) → (mkdir p d).1.files ≡ d.files
unfolding mkdir
mkdir-files p d = ground arith

make_dirs-files : (ps : List CString) (d : Disk) → (make_dirs ps d).files ≡ d.files
unfolding make_dirs
make_dirs-files [] d = refl
make_dirs-files (p ∷ ps) d = make_dirs-files ps (mkdir p d).1 ∙ mkdir-files p d

make_path-files : (p : CString) (d : Disk) → (make_path p d).files ≡ d.files
make_path-files p d = mkdir-files p _ ∙ make_dirs-files (prefixes [] p) d

exists_file :
    (p : CString) (content : List ℕ) (d : Disk) → d.files p ≡ some content → exists p d ≡ true
unfolding exists
exists_file p content d e = ground (arith, e)

-- A tag that is in use
refused :
    (f tag : CString) (d : Disk)
    → exists (checkpoint_path f tag) d ≡ true
    → handle_ss_checkpoint f tag d ≡ (header res_error ∷ [], d)
unfolding handle_ss_checkpoint
refused f tag d e = ground (arith, e)

viewed :
    (f tag : CString) (content : List ℕ) (d : Disk)
    → d.is_dir (checkpoint_path f tag) ≡ false
    → d.files (checkpoint_path f tag) ≡ some content
    → handle_ss_viewcheckpoint f tag d ≡ header res_ss_file_ok ∷ bytes content ∷ []
unfolding handle_ss_viewcheckpoint open_read
viewed f tag content d nd e = rw (nd, e, open_read, handle_ss_viewcheckpoint) refl

-- Where the file exists, the tag is free and the checkpoint can be written and is no directory
-- once the directories are made, a checkpoint is acknowledged, the file keeps its content, the
-- checkpoint shows it, and a second checkpoint with the tag is refused and changes nothing.
pub handle_ss_viewcheckpoint-handle_ss_checkpoint :
    (f tag : CString) (content : List ℕ) (d : Disk)
    → d.files f ≡ some content
    → (make_path (checkpoint_dir f) d).is_dir f ≡ false
    → exists (checkpoint_path f tag) d ≡ false
    → can_write (checkpoint_path f tag) (make_path (checkpoint_dir f) d) ≡ true
    → let (out, d') = handle_ss_checkpoint f tag d in
      (out ≡ header res_ok ∷ [])
      × (d'.files f ≡ some content)
      × (handle_ss_viewcheckpoint f tag d' ≡ header res_ss_file_ok ∷ bytes content ∷ [])
      × (handle_ss_checkpoint f tag d' ≡ (header res_error ∷ [], d'))
unfolding handle_ss_checkpoint write
handle_ss_viewcheckpoint-handle_ss_checkpoint f tag content d hf nd free w =
    let e = make_path (checkpoint_dir f) d in
    let cp = checkpoint_path f tag in
    let ne : cp ≢ f = λ q. (paths-Apart f tag).file_tag (sym q) in
    let he : e.files f ≡ some content = ap (λ k. k f) (make_path-files (checkpoint_dir f) d) ∙ hf in
    let c : copy f cp e ≡ (true, write cp content e) = copy_lem f cp content e w nd he in
    let d' : Disk = write cp content e in
    let made : handle_ss_checkpoint f tag d ≡ (header res_ok ∷ [], d') =
      rw (c, free, exists_file f content d hf, handle_ss_checkpoint) refl in
    let there : d'.files cp ≡ some content = write-same cp content e in
    rw made (
      refl,
      write-other cp f content e ne ∙ he,
      viewed f tag content d' (can_write-is_dir cp e w) there,
      refused f tag d' (exists_file cp content d' there),
    )
