-- ===== src/Storage/Metadata/Lookup.antt =====
-- Proofs about what the metadata functions do to the table that the file's text stands for.
use distributed_document_sys.Protocol.{max_permissions_per_file, AccessEntry}
use distributed_document_sys.Storage.Metadata.Printed.{
  read_head-print_file, read_access-print_access, print_files-Starts, IsPrintable,
}
use distributed_document_sys.Storage.Metadata.{
  without, replace, find_entry, read_list, print_files, FileMetadataSs,
}
use distributed_document_sys.Base.{
  ap, leb, arith, length, All, codes, str_eq, Option, List, suc, ◌≤◌, ◌++◌, ◌∷◌, inr, CString, ◌⊎◌,
  some, none, [], if◌then◌else◌, true, inl, refl, ◌≢◌, Bool-cases, ◌≡◌,
}

abbrev pub Entry : Type 0
Entry = CString × List AccessEntry

abbrev pub lookup : CString → List FileMetadataSs → Option Entry
lookup name [] = none
lookup name (m ∷ ms) =
    let rest = lookup name ms in
    if str_eq m.filename name then some (m.owner, m.access_list) else rest

-- Without an entry, "system" is the owner.
abbrev pub or_system : Option Entry → Entry
or_system none = (codes "system", [])
or_system (some e) = e

abbrev pub entry : CString → CString → List AccessEntry → FileMetadataSs
entry name owner access = record { filename = name; owner = owner; access_list = access }

-- The printed table, searched
pub find_entry-print_files :
    (name : CString) (ms : List FileMetadataSs)
    → All IsPrintable ms
    → find_entry name (length ms) (print_files ms) ≡ some (or_system (lookup name ms))
unfolding find_entry print_files read_list
find_entry-print_files name [] h = refl
find_entry-print_files name (m ∷ ms) h =
    let e = read_head-print_file m (print_files ms) h.0 (print_files-Starts ms h.1) in
    let r =
      read_access-print_access m.access_list (print_files ms) h.0.users
        (print_files-Starts ms h.1) in
    let few : leb (length m.access_list) max_permissions_per_file ≡ true =
      ground (arith, h.0.few) in
    elim (Bool-cases (str_eq m.filename name)) [
      | inl same ↦ rw (e, few, r, same, find_entry, read_list) refl
      | inr other ↦
          rw (e, few, r, other, find_entry-print_files name ms h.1, find_entry, read_list) refl
    ]

-- What replacing an entry does, if there is one.
pub record IsReplaced (name : CString) (e : Entry) (ms ms' : List FileMetadataSs) : Type 0 where
  pub found : lookup name ms' ≡ some e
  pub others : (n : CString) → name ≢ n → lookup n ms' ≡ lookup n ms
  pub printable : All IsPrintable ms'
  pub as_many : length ms' ≡ length ms

pub replace-cases :
    (name owner : CString) (access : List AccessEntry) (ms : List FileMetadataSs)
    → IsPrintable (entry name owner access)
    → All IsPrintable ms
    → ((ms' : List FileMetadataSs) × (replace name owner access ms ≡ some ms')
        × IsReplaced name (owner, access) ms ms')
      ⊎ ((replace name owner access ms ≡ none) × (lookup name ms ≡ none))
unfolding replace
replace-cases name owner access [] p h = inr (refl, refl)
replace-cases name owner access (m ∷ ms) p h = elim (Bool-cases (str_eq m.filename name)) [
  | inl same ↦ inl (
    record m { owner = owner; access_list = access } ∷ ms,
    rw (same, replace) refl,
    record {
      found = rw same refl;
      others = λ n ne. ground (arith, same, ne);
      printable = (
        record {
          name = h.0.name;
          owner_fits = p.owner_fits;
          owner_line = p.owner_line;
          users = p.users;
          few = p.few;
        },
        h.1,
      );
      as_many = refl;
    },
  )
  | inr other ↦ elim (replace-cases name owner access ms p h.1) [
    | inl (ms', e, r) ↦ inl (
      m ∷ ms',
      rw (other, e, replace) refl,
      record {
        found = rw other r.found;
        others = λ n ne. ground (arith, r.others n ne);
        printable = (h.0, r.printable);
        as_many = ap suc r.as_many;
      },
    )
    | inr (e, absent) ↦ inr (rw (other, e, replace) refl, rw other absent)
  ]
]

-- A new entry at the end
pub lookup-append :
    (n name : CString) (e : Entry) (ms : List FileMetadataSs)
    → lookup name ms ≡ none
    → lookup n (ms ++ entry name e.0 e.1 ∷ []) ≡ (if str_eq name n then some e else lookup n ms)
lookup-append n name e [] absent = refl
lookup-append n name e (m ∷ ms) absent =
    let later = lookup-append n name e ms (ground (arith, absent)) in ground (arith, absent, later)

-- Without the entries of a name
pub record IsWithout (name : CString) (ms ms' : List FileMetadataSs) : Type 0 where
  pub gone : lookup name ms' ≡ none
  pub kept : (n : CString) → name ≢ n → lookup n ms' ≡ lookup n ms
  pub printable : All IsPrintable ms'
  pub no_more : length ms' ≤ length ms

pub without_lem :
    (name : CString) (ms : List FileMetadataSs)
    → All IsPrintable ms
    → IsWithout name ms (without name ms)
unfolding without
without_lem name [] h = record {
  gone = refl;
  kept = λ n ne. refl;
  printable = h;
  no_more = omega arith;
}
without_lem name (m ∷ ms) h =
    let r = without_lem name ms h.1 in
    elim (Bool-cases (str_eq m.filename name)) [
      | inl same ↦
          rw (same, without)
            (record {
              gone = r.gone;
              kept = λ n ne. ground (arith, same, r.kept n ne, ne);
              printable = r.printable;
              no_more = omega (arith, r.no_more);
            })
      | inr other ↦
          rw (other, without)
            (record {
              gone = rw other r.gone;
              kept = λ n ne. ground (arith, r.kept n ne);
              printable = (h.0, r.printable);
              no_more = omega (arith, r.no_more);
            })
    ]
