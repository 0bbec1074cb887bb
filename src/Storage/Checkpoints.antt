-- ===== src/Storage/Checkpoints.antt =====
-- storage/handlers.c: `handle_ss_checkpoint`, `handle_ss_viewcheckpoint`, `handle_ss_revert`,
-- `handle_ss_listcheckpoints` and `handle_ss_undo`. A handler's outputs go to the naming server.
pub mod Created
pub mod History
pub mod Restore
pub mod Swap
pub mod Undo
use distributed_document_sys.Storage.Statistics.{
  number, item, Output, calculate_and_send_metadata, bytes, header,
}
use distributed_document_sys.Storage.Disk.{
  remove, exists, rename, copy, mkdir, Disk, checkpoint_path, undo_tag, backup_path, open_read,
  checkpoint_dir, redo_tag, swap_path,
}
use distributed_document_sys.Base.{
  map, length, codes, not, str_eq, ℕ, Bool, List, CString, is_none, [], some, suc, true, zero,
  if◌then◌else◌, ◌==◌, ◌∷◌, ◌++◌, ◌||◌, none, false,
}
use distributed_document_sys.Protocol.{
  res_checkpoint_list, max_files_per_ss, res_ok, res_error, res_ss_file_ok,
}

-- The directories above a path, from the top: the loops that end a path at each '/'.
unfoldable pub prefixes : CString → CString → List CString
prefixes seen [] = []
prefixes seen (c ∷ cs) = elim (c == b'/') [
  | true ↦ seen ∷ prefixes (seen ++ c ∷ []) cs
  | false ↦ prefixes (seen ++ c ∷ []) cs
]

-- `mkdir` on each, whatever it returns.
unfoldable pub make_dirs : List CString → Disk → Disk
make_dirs [] d = d
make_dirs (p ∷ ps) d = make_dirs ps (mkdir p d).1

-- The directory is made after those above it.
abbrev pub make_path : CString → Disk → Disk
make_path path d = (mkdir path (make_dirs (prefixes [] path) d)).1

abbrev pub outcome : Bool → List Output
outcome ok = header (if ok then res_ok else res_error) ∷ []

unfoldable pub handle_ss_checkpoint : CString → CString → Disk → List Output × Disk
handle_ss_checkpoint f tag d =
    let checkpoint = checkpoint_path f tag in
    let (ok, d') = copy f checkpoint (make_path (checkpoint_dir f) d) in
    if not (exists f d) || exists checkpoint d then (outcome false, d) else (outcome ok, d')

unfoldable pub handle_ss_viewcheckpoint : CString → CString → Disk → List Output
handle_ss_viewcheckpoint f tag d = elim (open_read (checkpoint_path f tag) d) [
  | none ↦ outcome false
  | some content ↦ header res_ss_file_ok ∷ bytes content ∷ []
]

-- The file is copied to `saved` first; then it gets the content of `from`, and so does its backup.
unfoldable pub restore : CString → CString → CString → Disk → Bool × Disk
restore from saved f d =
    let (ok, d') = copy from f (copy f saved d).1 in
    (ok, if ok then (copy from (backup_path f) d').1 else d')

unfoldable pub handle_ss_revert : CString → CString → Disk → List Output × Disk
handle_ss_revert f tag d =
    let (ok, d') = restore (checkpoint_path f tag) (checkpoint_path f undo_tag) f d in
    if exists (checkpoint_path f tag) d then (outcome ok, d') else (outcome false, d)

-- Back from one of the two saved states, whose file goes; the present state is saved in the other.
unfoldable pub toggle : CString → CString → CString → Disk → List Output × Disk
toggle from saved f d =
    let (ok, d') = restore from saved f d in (outcome ok, if ok then remove from d' else d')

unfoldable pub swap_backup : CString → Disk → Disk
swap_backup f d =
    let d₁ = (rename f (swap_path f) d).1 in
    let d₂ = (rename (backup_path f) f d₁).1 in (rename (swap_path f) (backup_path f) d₂).1

unfoldable pub handle_ss_undo : (CString → ℕ × ℕ) → CString → Disk → List Output × Disk
handle_ss_undo stamp f d =
    let undone = checkpoint_path f undo_tag in
    let redone = checkpoint_path f redo_tag in
    let (out, d') =
      if exists undone d
      then toggle undone redone f d
      else if exists redone d
      then toggle redone undone f d
      else (outcome true, swap_backup f d) in
    (out ++ calculate_and_send_metadata stamp f d', d')

-- `names` is what `readdir` gives, in order; at most `room` items are taken.
unfoldable pub list_items :
    (CString → ℕ × ℕ) → ℕ → CString → List CString → Disk → List (CString × ℕ)
list_items stamp room f [] d = []
list_items stamp zero f (name ∷ names) d = []
list_items stamp (suc room) f (name ∷ names) d =
    let skip =
      str_eq name (codes ".")
      || (str_eq name (codes "..")
          || (str_eq name undo_tag
              || (str_eq name redo_tag || is_none (d.files (checkpoint_path f name))))) in
    let rest = list_items stamp (if skip then suc room else room) f names d in
    if skip then rest else (name, (stamp (checkpoint_path f name)).0) ∷ rest

abbrev pub handle_ss_listcheckpoints :
    (CString → ℕ × ℕ) → CString → List CString → Disk → List Output
handle_ss_listcheckpoints stamp f names d =
    let items = list_items stamp max_files_per_ss f names d in
    header res_checkpoint_list ∷ number (length items) ∷ map (λ i. item i.0 i.1) items
