-- ===== src/Storage/Metadata/Printed.antt =====
-- Proofs about the text of the metadata file: what is printed is read back.
use native.Mathlib.Decide.{ℕ_discrete}
use distributed_document_sys.Storage.Stdio.{skip, fgets, scan_int, print_int}
use distributed_document_sys.Storage.Document.{isspace}
use distributed_document_sys.Storage.Stdio.Scanned.{
  fgets_full, fgets-append, scan_int-print_int, scan_int_space, Starts, scan_word-append,
  Starts-cons,
}
use distributed_document_sys.Base.{
  subst, suc, arith, leb, ◌∙◌, true, All, List, length, ◌≤◌, refl, some, false, [], CString, ◌≢◌,
  ◌<◌, ◌≡◌, ◌+◌, ◌∷◌, ◌++◌,
}
use distributed_document_sys.Storage.Metadata.{
  print_table, read_head, print_file, read_files, read_table, read_list, print_files, read_file,
  print_access, read_access, FileMetadataSs, to_level,
}
use distributed_document_sys.Protocol.{
  max_files_per_ss, level, max_filename, read_write, max_permissions_per_file, read_only,
  max_username, PermissionLevel, no_perm, AccessEntry,
}

-- The user's name fits in its buffer, and is one word.
pub record IsUser (w : CString) : Type 0 where
  pub some_byte : w ≢ []
  pub user_fits : length w < max_username
  pub no_space : All (λ c. isspace c ≡ false) w

-- The name fits in a line, does not begin with white space, and is not empty.
pub record IsName (w : CString) : Type 0 where
  pub starts : (rest : CString) → Starts (w ++ b'\n' ∷ rest)
  pub name_fits : length w + 1 < max_filename
  pub one_line : All (λ c. c ≢ b'\n') w

pub record IsPrintable (m : FileMetadataSs) : Type 0 where
  pub name : IsName m.filename
  pub owner_fits : length m.owner < max_username
  pub owner_line : All (λ c. c ≢ b'\n') m.owner
  pub users : All (λ e. IsUser e.username) m.access_list
  pub few : length m.access_list ≤ max_permissions_per_file

to_level-level : (p : PermissionLevel) → to_level (level p) ≡ some p
unfolding to_level
to_level-level no_perm = refl
to_level-level read_only = refl
to_level-level read_write = refl

IsUser-Starts : (w rest : CString) → IsUser w → Starts (w ++ rest)
IsUser-Starts [] rest h = absurd (h.some_byte refl)
IsUser-Starts (c ∷ w) rest h = Starts-cons c (w ++ rest) h.no_space.0

print_access-Starts :
    (es : List AccessEntry) (rest : CString)
    → All (λ e. IsUser e.username) es
    → Starts rest
    → Starts (print_access es rest)
unfolding print_access
print_access-Starts [] rest h s = s
print_access-Starts (e ∷ es) rest h s = IsUser-Starts e.username _ h.0

pub read_access-print_access :
    (es : List AccessEntry) (rest : CString)
    → All (λ e. IsUser e.username) es
    → Starts rest
    → read_access (length es) (print_access es rest) ≡ some (es, rest)
unfolding read_access print_access
read_access-print_access [] rest h s = refl
read_access-print_access (e ∷ es) rest h s =
    let u = h.0 in
    let more = print_access es rest in
    let number : scan_int (b' ' ∷ (print_int (level e.permission) ++ b'\n' ∷ more))
        ≡ some (level e.permission, more) =
      scan_int_space b' ' _ refl
      ∙ scan_int-print_int (level e.permission) more (print_access-Starts es rest h.1 s) in
    rw
      (
        scan_word-append max_username e.username (print_int (level e.permission) ++ b'\n' ∷ more)
            b' ' u.some_byte u.user_fits u.no_space refl,
        number,
        to_level-level e.permission,
        read_access-print_access es rest h.1 s,
        read_access,
      )
      refl

-- What the line of the owner leaves, whose end may still be to be read.
read_owner :
    (w rest : CString)
    → length w < max_username
    → All (λ c. c ≢ b'\n') w
    → (left : CString) × (fgets max_username (w ++ b'\n' ∷ rest) ≡ some (w, left))
      × (scan_int left ≡ scan_int rest)
read_owner w rest lt all = elim (ℕ_discrete (suc (length w)) max_username) [
  | yes e ↦ (
    b'\n' ∷ rest,
    subst (λ n. fgets n (w ++ b'\n' ∷ rest) ≡ some (w, b'\n' ∷ rest)) e (fgets_full w rest all),
    scan_int_space b'\n' rest refl,
  )
  | no ne ↦ (rest, fgets-append max_username w rest (omega (arith, lt, ne)) all, refl)
]

pub read_head-print_file :
    (m : FileMetadataSs) (rest : CString)
    → IsPrintable m
    → Starts rest
    → read_head (print_file m rest)
      ≡ some (m.filename, m.owner, length m.access_list, print_access m.access_list rest)
unfolding read_head print_file
read_head-print_file m rest h s =
    let count = print_int (length m.access_list) ++ b'\n' ∷ print_access m.access_list rest in
    let (left, e, f) = read_owner m.owner count h.owner_fits h.owner_line in
    let n : scan_int left ≡ some (length m.access_list, print_access m.access_list rest) =
      f
      ∙ scan_int-print_int (length m.access_list) _
          (print_access-Starts m.access_list rest h.users s) in
    let first : fgets max_filename (m.filename ++ b'\n' ∷ (m.owner ++ b'\n' ∷ count))
        ≡ some (m.filename, m.owner ++ b'\n' ∷ count) =
      fgets-append max_filename m.filename _ h.name.name_fits h.name.one_line in
    rw (first, e, n, read_head) refl

print_file-Starts :
    (m : FileMetadataSs) (rest : CString) → IsPrintable m → Starts (print_file m rest)
unfolding print_file
print_file-Starts m rest h = h.name.starts _

pub print_files-Starts : (ms : List FileMetadataSs) → All IsPrintable ms → Starts (print_files ms)
unfolding print_files skip
print_files-Starts [] h = refl
print_files-Starts (m ∷ ms) h = print_file-Starts m (print_files ms) h.0

pub read_file-print_file :
    (m : FileMetadataSs) (rest : CString)
    → IsPrintable m
    → Starts rest
    → read_file (print_file m rest) ≡ some (m, rest)
unfolding read_file read_list
read_file-print_file m rest h s =
    let few : leb (length m.access_list) max_permissions_per_file ≡ true = ground (arith, h.few) in
    rw
      (
        read_head-print_file m rest h s,
        few,
        read_access-print_access m.access_list rest h.users s,
        read_file,
        read_list,
      )
      refl

read_files-print_files :
    (ms : List FileMetadataSs)
    → All IsPrintable ms
    → read_files (length ms) (print_files ms) ≡ some ms
unfolding read_files print_files
read_files-print_files [] h = refl
read_files-print_files (m ∷ ms) h =
    rw
      (
        read_file-print_file m (print_files ms) h.0 (print_files-Starts ms h.1),
        read_files-print_files ms h.1,
        read_files,
      )
      refl

pub scan_int-print_table :
    (ms : List FileMetadataSs)
    → All IsPrintable ms
    → scan_int (print_table ms) ≡ some (length ms, print_files ms)
unfolding print_table
scan_int-print_table ms h =
    scan_int-print_int (length ms) (print_files ms) (print_files-Starts ms h)

-- A table of at most 100 entries whose names and owners fit on their lines, and whose users
-- are single words that fit, at most 50 for each entry, is read back from its text as it was.
pub read_table-print_table :
    (ms : List FileMetadataSs)
    → All IsPrintable ms
    → length ms ≤ max_files_per_ss
    → read_table (some (print_table ms)) ≡ some ms
unfolding read_table
read_table-print_table ms h le =
    let few : leb (length ms) max_files_per_ss ≡ true = ground (arith, le) in
    rw (scan_int-print_table ms h, few, read_files-print_files ms h, read_table) refl
