-- ===== src/Storage/Metadata/Map.antt =====
-- Proofs about the metadata file as a finite map: from a name to its owner and permissions.
use distributed_document_sys.Storage.Metadata.Lookup.{
  lookup-append, without_lem, lookup, entry, Entry, or_system, find_entry-print_files,
  replace-cases,
}
use distributed_document_sys.Storage.Metadata.Printed.{
  IsName, scan_int-print_table, read_table-print_table, IsPrintable,
}
use distributed_document_sys.Storage.Metadata.{
  without, append_entry, put, load_file_metadata, MetadataFile, read_table, print_table,
  FileMetadataSs, save_file_metadata, delete_file_metadata,
}
use distributed_document_sys.Protocol.{max_username, AccessEntry, max_files_per_ss}
use distributed_document_sys.Base.{
  subst, leb, is_yes, strcmp, arith, length-append, ◌+◌, false, All-append, ◌++◌, ◌∷◌, length, sym,
  All, ap, List, str_eq, ℕ, Option, ◌⊎◌, if◌then◌else◌, true, ◌<◌, ◌≤◌, refl, inl, ◌∙◌, none, inr,
  ◌≢◌, ◌≡◌, CString, [], some,
}

-- The file can be written, and holds a table of `size` entries, by which the names have these owners and permissions.
pub record Represents (owners : CString → Option Entry) (size : ℕ) (f : MetadataFile) : Type 0 where
  pub table : List FileMetadataSs
  pub text : (f.content ≡ some (print_table table)) ⊎ ((f.content ≡ none) × (table ≡ []))
  pub can_save : f.writable ≡ true
  pub printable : All IsPrintable table
  pub in_bounds : length table ≤ max_files_per_ss
  pub counted : length table ≡ size
  pub entries : (name : CString) → lookup name table ≡ owners name

read_table_lem :
    {owners : CString → Option Entry} {size : ℕ} (f : MetadataFile) (r : Represents owners size f)
    → read_table f.content ≡ some r.table
unfolding read_table
read_table_lem f r = elim r.text [
  | inl e ↦ ap read_table e ∙ read_table-print_table r.table r.printable r.in_bounds
  | inr (e, none_left) ↦ ap read_table e ∙ ap some (sym none_left)
]

-- The owner and the permissions of a name are loaded as the map that the file stands for says;
-- "system" owns a file that the map does not know.
pub load_file_metadata_lem :
    (owners : CString → Option Entry) (size : ℕ) (f : MetadataFile) (name : CString)
    → Represents owners size f
    → load_file_metadata name f ≡ some (or_system (owners name))
unfolding load_file_metadata
load_file_metadata_lem owners size f name r = elim r.text [
  | inl e ↦
      rw (e, scan_int-print_table r.table r.printable, load_file_metadata)
        (find_entry-print_files name r.table r.printable
          ∙ ap (λ o. some (or_system o)) (r.entries name))
  | inr (e, none_left) ↦
      let absent : owners name ≡ none = sym (r.entries name) ∙ ap (lookup name) none_left in
      rw (e, absent, load_file_metadata) refl
]

abbrev pub put_entry : CString → Option Entry → (CString → Option Entry) → CString → Option Entry
put_entry name e owners n = if str_eq name n then e else owners n

written :
    (owners : CString → Option Entry) (ms : List FileMetadataSs) (f : MetadataFile)
    → f.writable ≡ true
    → All IsPrintable ms
    → length ms ≤ max_files_per_ss
    → ((n : CString) → lookup n ms ≡ owners n)
    → Represents owners (length ms) (record f { content = some (print_table ms) })
written owners ms f w h le e = record {
  table = ms;
  text = inl refl;
  can_save = w;
  printable = h;
  in_bounds = le;
  counted = refl;
  entries = e;
}

-- A known name, or a new one of less than 50 bytes for which there is a place, is saved with
-- its owner and permissions, if they can be printed, and no other name's change.
pub save_file_metadata_lem :
    (owners : CString → Option Entry) (size : ℕ) (f : MetadataFile) (name owner : CString)
    (access : List AccessEntry)
    → Represents owners size f
    → IsPrintable (entry name owner access)
    → (owners name ≢ none) ⊎ ((size < max_files_per_ss) × (length name < max_username))
    → (f' : MetadataFile) × (size' : ℕ) × (save_file_metadata name owner access f ≡ some f')
      × Represents (put_entry name (some (owner, access)) owners) size' f'
      × (size' ≤ size + 1)
unfolding save_file_metadata put append_entry
save_file_metadata_lem owners size f name owner access r p room =
    let ms = r.table in
    let e = read_table_lem f r in
    elim (replace-cases name owner access ms p r.printable) [
      | inl (ms', put_in, q) ↦ (
        record f { content = some (print_table ms') },
        length ms',
        rw (e, put_in, r.can_save, save_file_metadata, put) refl,
        written _ ms' f r.can_save q.printable (omega (arith, q.as_many, r.in_bounds)) (λ n.
            elim (strcmp name n)
              as (λ d. lookup n ms' ≡ (if is_yes d then some (owner, access) else owners n)) [
                | yes same ↦ ap (λ k. lookup k ms') (sym same) ∙ q.found
                | no other ↦ q.others n other ∙ r.entries n
              ]),
        omega (arith, q.as_many, r.counted),
      )
      | inr (put_in, absent) ↦
          let fresh : (size < max_files_per_ss) × (length name < max_username) = elim room [
            | inl known ↦ absurd (known (sym (r.entries name) ∙ absent))
            | inr both ↦ both
          ] in
          let free : leb max_files_per_ss (length ms) ≡ false =
            ground (arith, fresh.0, r.counted) in
          let short : leb max_username (length name) ≡ false = ground (arith, fresh.1) in
          let ms' : List FileMetadataSs = ms ++ entry name owner access ∷ [] in
          let more : length ms' ≡ length ms + 1 = length-append ms (entry name owner access ∷ []) in
          (
            record f { content = some (print_table ms') },
            length ms',
            rw (e, put_in, free, short, r.can_save, save_file_metadata, put, append_entry) refl,
            written _ ms' f r.can_save
                (All-append IsPrintable ms (entry name owner access ∷ []) r.printable (p, tt))
                (omega (arith, more, fresh.0, r.counted))
                (λ n.
                  lookup-append n name (owner, access) ms absent
                  ∙ ap (λ o. if str_eq name n then some (owner, access) else o) (r.entries n)),
            omega (arith, more, r.counted),
          )
    ]

-- A deleted name is unknown, and no other name's entry changes.
pub delete_file_metadata_lem :
    (owners : CString → Option Entry) (size : ℕ) (f : MetadataFile) (name : CString)
    → Represents owners size f
    → (f' : MetadataFile) × (size' : ℕ) × (delete_file_metadata name f ≡ some f')
      × Represents (put_entry name none owners) size' f'
      × (size' ≤ size)
unfolding delete_file_metadata
delete_file_metadata_lem owners size f name r =
    let ms = r.table in
    elim r.text [
      | inl e ↦
          let q = without_lem name ms r.printable in
          (
            record f { content = some (print_table (without name ms)) },
            length (without name ms),
            rw
                (
                  e,
                  read_table-print_table ms r.printable r.in_bounds,
                  r.can_save,
                  delete_file_metadata,
                )
                refl,
            written _ (without name ms) f r.can_save q.printable
                (omega (arith, q.no_more, r.in_bounds))
                (λ n.
                  elim (strcmp name n)
                    as (λ d. lookup n (without name ms) ≡ (if is_yes d then none else owners n)) [
                      | yes same ↦ ap (λ k. lookup k (without name ms)) (sym same) ∙ q.gone
                      | no other ↦ q.kept n other ∙ r.entries n
                    ]),
            omega (arith, q.no_more, r.counted),
          )
      | inr (e, none_left) ↦ (
        f,
        size,
        ground (arith, e),
        record {
          table = ms;
          text = r.text;
          can_save = r.can_save;
          printable = r.printable;
          in_bounds = r.in_bounds;
          counted = r.counted;
          entries = λ n. ground (arith, r.entries n, ap (lookup n) none_left);
        },
        omega arith,
      )
    ]

lookup-IsPrintable :
    (name : CString) (ms : List FileMetadataSs)
    → All IsPrintable ms
    → IsName name
    → let e = or_system (lookup name ms) in IsPrintable (entry name e.0 e.1)
lookup-IsPrintable name [] h n = record {
  name = n;
  owner_fits = omega arith;
  owner_line = (
    ground arith,
    (ground arith, (ground arith, (ground arith, (ground arith, (ground arith, tt))))),
  );
  users = tt;
  few = omega arith;
}
lookup-IsPrintable name (m ∷ ms) h n =
    let rest = lookup-IsPrintable name ms h.1 n in
    let p = h.0 in
    elim (str_eq m.filename name)
      as (λ b.
        let e = or_system (if b then some (m.owner, m.access_list) else lookup name ms) in
        IsPrintable (entry name e.0 e.1)) [
          | true ↦ record {
            name = n;
            owner_fits = p.owner_fits;
            owner_line = p.owner_line;
            users = p.users;
            few = p.few;
          }
          | false ↦ rest
        ]

-- What is loaded can be saved.
pub loaded-IsPrintable :
    (owners : CString → Option Entry) (size : ℕ) (f : MetadataFile) (name : CString)
    → Represents owners size f
    → IsName name
    → let e = or_system (owners name) in IsPrintable (entry name e.0 e.1)
loaded-IsPrintable owners size f name r n =
    subst (λ o. let e = or_system o in IsPrintable (entry name e.0 e.1)) (r.entries name)
      (lookup-IsPrintable name r.table r.printable n)
