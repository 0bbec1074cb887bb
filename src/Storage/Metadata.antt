-- ===== src/Storage/Metadata.antt =====
-- storage/metadata.c: `save_file_metadata`, `load_file_metadata` and `delete_file_metadata`, which
-- keep the owners and the permissions of the server's files in one text file.
pub mod Lookup
pub mod Map
pub mod Printed
use distributed_document_sys.Storage.Stdio.{fgets, scan_word, print_int, scan_int}
use distributed_document_sys.Base.{
  ◌>>=◌, consed, codes, str_eq, leb, Bool, ℕ, length, Option, List, if◌then◌else◌, [], zero, some,
  suc, ◌∷◌, ◌++◌, none, CString,
}
use distributed_document_sys.Protocol.{
  level, no_perm, read_only, max_filename, max_permissions_per_file, PermissionLevel,
  max_files_per_ss, read_write, AccessEntry, max_username,
}

-- `FileMetadata_SS`; `access_count` is the list's length.
pub record FileMetadataSs : Type 0 where
  pub filename : CString
  pub owner : CString
  pub access_list : List AccessEntry

-- `METADATA_FILE`, and whether it can be opened for writing.
pub record MetadataFile : Type 0 where
  pub content : Option (List ℕ)
  pub writable : Bool

-- `"%s %d\n"` for each entry
unfoldable pub print_access : List AccessEntry → CString → CString
print_access [] rest = rest
print_access (e ∷ es) rest =
    e.username ++ (b' ' ∷ (print_int (level e.permission) ++ (b'\n' ∷ print_access es rest)))

-- `"%s\n%s\n%d\n"` and the entries
unfoldable pub print_file : FileMetadataSs → CString → CString
print_file m rest =
    m.filename
    ++ (b'\n'
        ∷ (m.owner
            ++ (b'\n'
                ∷ (print_int (length m.access_list) ++ (b'\n' ∷ print_access m.access_list rest)))))

unfoldable pub print_files : List FileMetadataSs → CString
print_files [] = []
print_files (m ∷ ms) = print_file m (print_files ms)

unfoldable pub print_table : List FileMetadataSs → List ℕ
print_table ms = print_int (length ms) ++ (b'\n' ∷ print_files ms)

-- The level of a number; another number is no level.
unfoldable pub to_level : ℕ → Option PermissionLevel
to_level zero = some no_perm
to_level (suc zero) = some read_only
to_level (suc (suc zero)) = some read_write
to_level (suc (suc (suc n))) = none

-- Reading is `none` where a read fails or overruns its buffer.
unfoldable pub read_access : ℕ → CString → Option (List AccessEntry × CString)
read_access zero s = some ([], s)
read_access (suc n) s = do
  (user, s₁) ← scan_word max_username s
  (perm, s₂) ← scan_int s₁
  p ← to_level perm
  (es, rest) ← read_access n s₂
  some (record { username = user; permission = p } ∷ es, rest)

-- An entry, up to the number of its permissions.
unfoldable pub read_head : CString → Option (CString × CString × ℕ × CString)
read_head s = do
  (name, s₁) ← fgets max_filename s
  (owner, s₂) ← fgets max_username s₁
  (count, s₃) ← scan_int s₂
  some (name, owner, count, s₃)

-- Into the array of an entry, or of a caller, which has so many places.
unfoldable pub read_list : ℕ → CString → Option (List AccessEntry × CString)
read_list n s = if leb n max_permissions_per_file then read_access n s else none

unfoldable pub read_file : CString → Option (FileMetadataSs × CString)
read_file s = do
  (name, owner, count, s₁) ← read_head s
  (es, rest) ← read_list count s₁
  some (record { filename = name; owner = owner; access_list = es }, rest)

unfoldable pub read_files : ℕ → CString → Option (List FileMetadataSs)
read_files zero s = some []
read_files (suc n) s = do (m, s₁) ← read_file s; ms ← read_files n s₁; some (m ∷ ms)

-- A file that is missing, or has no number at its front, is an empty table. A larger number than
-- there are places runs past the array.
unfoldable pub read_table : Option (List ℕ) → Option (List FileMetadataSs)
read_table none = some []
read_table (some content) = elim (scan_int content) [
  | none ↦ some []
  | some (n, s) ↦ if leb n max_files_per_ss then read_files n s else none
]

abbrev fopen_write : List FileMetadataSs → MetadataFile → MetadataFile
fopen_write ms f = if f.writable then record f { content = some (print_table ms) } else f

-- The first entry of the name gets the owner and the list.
unfoldable pub replace :
    CString → CString → List AccessEntry → List FileMetadataSs → Option (List FileMetadataSs)
replace name owner access [] = none
replace name owner access (m ∷ ms) =
    let rest = replace name owner access ms in
    if str_eq m.filename name
    then some (record m { owner = owner; access_list = access } ∷ ms)
    else consed m rest

-- A new entry, if there is a place. `strncpy` copies `max_username` bytes of its name, and a longer
-- name has no end then.
unfoldable pub append_entry :
    CString → CString → List AccessEntry → List FileMetadataSs → Option (List FileMetadataSs)
append_entry name owner access ms =
    if leb max_files_per_ss (length ms)
    then some ms
    else if leb max_username (length name)
    then none
    else some (ms ++ record { filename = name; owner = owner; access_list = access } ∷ [])

unfoldable pub put :
    CString → CString → List AccessEntry → List FileMetadataSs → Option (List FileMetadataSs)
put name owner access ms = elim (replace name owner access ms) [
  | some ms' ↦ some ms'
  | none ↦ append_entry name owner access ms
]

-- `none` where the program uses what was never written.
unfoldable pub save_file_metadata :
    CString → CString → List AccessEntry → MetadataFile → Option MetadataFile
save_file_metadata name owner access f = do
  ms ← read_table f.content
  ms' ← put name owner access ms
  some (fopen_write ms' f)

-- The search reads no further than the entry of the name.
unfoldable pub find_entry : CString → ℕ → CString → Option (CString × List AccessEntry)
find_entry name zero s = some (codes "system", [])
find_entry name (suc n) s = do
  (fname, owner, count, s₁) ← read_head s
  let other = (do (es, rest) ← read_access count s₁; find_entry name n rest)
  let found = (do (es, rest) ← read_list count s₁; some (owner, es))
  if str_eq fname name then found else other

unfoldable pub load_file_metadata : CString → MetadataFile → Option (CString × List AccessEntry)
load_file_metadata name f = elim f.content [
  | none ↦ some (codes "system", [])
  | some content ↦ elim (scan_int content) [
    | none ↦ some (codes "system", [])
    | some (n, s) ↦ find_entry name n s
  ]
]

unfoldable pub without : CString → List FileMetadataSs → List FileMetadataSs
without name [] = []
without name (m ∷ ms) =
    let rest = without name ms in if str_eq m.filename name then rest else m ∷ rest

unfoldable pub delete_file_metadata : CString → MetadataFile → Option MetadataFile
delete_file_metadata name f = elim f.content [
  | none ↦ some f
  | some content ↦ do ms ← read_table (some content); some (fopen_write (without name ms) f)
]
