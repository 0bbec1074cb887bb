-- ===== src/Storage/Disk.antt =====
-- The files under `g_storage_path`, by their paths from there, and the calls of the C library on
-- them that the storage server makes. A file's name is taken to lead to no directory where it is
-- renamed or removed.
pub mod Paths
use distributed_document_sys.Base.{
  not, ℕ, codes, str_eq, List, Bool, Option, if◌then◌else◌, ◌==◌, ◌++◌, some, ◌&&◌, ◌∷◌, [], false,
  none, CString, true, ◌||◌, is_none,
}

pub record Disk : Type 0 where
  pub files : CString → Option (List ℕ)
  pub is_dir : CString → Bool

-- What stands before the last '/'; the storage directory itself is the empty path.
unfoldable pub parent_from : CString → CString → CString → CString
parent_from best seen [] = best
parent_from best seen (c ∷ cs) = parent_from (if c == b'/' then seen else best) (seen ++ c ∷ []) cs

abbrev pub parent : CString → CString
parent path = parent_from [] [] path

-- `stat(path, &st) == 0`
unfoldable pub exists : CString → Disk → Bool
exists path d = d.is_dir path || not (is_none (d.files path))

-- `fopen(path, "r")` and what can be read: a directory opens, and gives nothing.
unfoldable pub open_read : CString → Disk → Option (List ℕ)
open_read path d = if d.is_dir path then some [] else d.files path

-- Whether `fopen(path, "w")` succeeds.
unfoldable pub can_write : CString → Disk → Bool
can_write path d = d.is_dir (parent path) && not (d.is_dir path)

unfoldable pub write : CString → List ℕ → Disk → Disk
write path content d = record d { files = λ p. if str_eq path p then some content else d.files p }

-- The file is written if it can be opened.
unfoldable pub write_file : CString → List ℕ → Disk → Disk
write_file path content d = if can_write path d then write path content d else d

-- `remove(path)`, `unlink(path)`
unfoldable pub remove : CString → Disk → Disk
remove path d = record d { files = λ p. if str_eq path p then none else d.files p }

-- `rename(from, to) == 0`, and the files after it.
unfoldable pub rename : CString → CString → Disk → Bool × Disk
rename from to d = elim (d.files from) [
  | none ↦ (false, d)
  | some content ↦ if can_write to d then (true, write to content (remove from d)) else (false, d)
]

-- `mkdir(path, 0777) == 0`
unfoldable pub mkdir : CString → Disk → Bool × Disk
mkdir path d =
    if d.is_dir (parent path) && not (exists path d)
    then (true, record d { is_dir = λ p. if str_eq path p then true else d.is_dir p })
    else (false, d)

-- Both files are opened, the target for writing; if both are open, the source is copied.
unfoldable pub copy : CString → CString → Disk → Bool × Disk
copy from to d =
    if can_write to d
    then elim (open_read from d) [
      | none ↦ (false, write to [] d)
      | some content ↦ (true, write to content d)
    ]
    else (false, d)

-- `"%s/%s.bak"`
abbrev pub backup_path : CString → CString
backup_path f = f ++ codes ".bak"

abbrev pub swap_path : CString → CString
swap_path f = f ++ codes ".swap"

abbrev pub checkpoint_dir : CString → CString
checkpoint_dir f = codes ".checkpoints/" ++ f

-- `"%s/.checkpoints/%s/%s"`
abbrev pub checkpoint_path : CString → CString → CString
checkpoint_path f tag = checkpoint_dir f ++ (b'/' ∷ tag)

abbrev pub undo_tag : CString
undo_tag = codes "__UNDO__"

abbrev pub redo_tag : CString
redo_tag = codes "__REDO__"
