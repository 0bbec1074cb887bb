-- ===== src/Storage/Files/Access.antt =====
-- Proofs about `handle_ss_add_access` and `handle_ss_rem_access` of storage/handlers.c.
use distributed_document_sys.NameServer.Catalog.{find_access}
use distributed_document_sys.Storage.Metadata.Printed.{IsUser, IsName}
use distributed_document_sys.Storage.Metadata.Lookup.{Entry, or_system}
use distributed_document_sys.Protocol.{
  max_files_per_ss, PermissionLevel, max_username, AccessEntry, max_permissions_per_file,
}
use distributed_document_sys.Storage.Files.{
  entry_for, Store, handle_ss_rem_access, drop_user, handle_ss_add_access,
}
use distributed_document_sys.Storage.Metadata.{load_file_metadata, MetadataFile, save_file_metadata}
use distributed_document_sys.Storage.Metadata.Map.{
  load_file_metadata_lem, Represents, loaded-IsPrintable, put_entry, save_file_metadata_lem,
}
use distributed_document_sys.Base.{
  ap, ◌∙◌, ◌≢◌, ltb, arith, str_eq, ℕ, All, length, List, Option, ◌∷◌, CString, none, ◌≡◌, ◌+◌,
  false, refl, ◌≤◌, Bool-cases, some, All-append, length-append, true, ◌⊎◌, inr, ◌<◌, inl, [], ◌++◌,
}

-- A name for which an entry can be made: it fits, and it is one line that begins with no space.
abbrev pub NewName : CString → Type 0
NewName f = IsName f × (length f < max_username)

-- After a handler, the metadata file holds these owners and permissions.
abbrev pub Holds : (CString → Option Entry) → ℕ → Option Store → Type 0
Holds owners size o =
    (s : Store) × (size' : ℕ) × (o ≡ some s)
    × Represents owners size' s.metadata
    × (size' ≤ size + 1)

drop_user-cases :
    (user : CString) (es : List AccessEntry)
    → All (λ e. IsUser e.username) es
    → (drop_user user es ≡ none)
      ⊎ ((es' : List AccessEntry) × (drop_user user es ≡ some es')
          × All (λ e. IsUser e.username) es'
          × (length es' ≤ length es))
unfolding drop_user
drop_user-cases user [] h = inl refl
drop_user-cases user (x ∷ es) h = elim (Bool-cases (str_eq x.username user)) [
  | inl same ↦ inr (es, rw (same, drop_user) refl, h.1, omega arith)
  | inr other ↦ elim (drop_user-cases user es h.1) [
    | inl e ↦ inl (rw (other, e, drop_user) refl)
    | inr (es', e, all, le) ↦
        inr (x ∷ es', rw (other, e, drop_user) refl, (h.0, all), omega (arith, le))
  ]
]

module _ (owners : CString → Option Entry) (size : ℕ) (s : Store) (f : CString)
    (r : Represents owners size s.metadata) (room : size < max_files_per_ss) (n : NewName f) where
  abbrev held : Entry
  held = or_system (owners f)

  saved :
      (access : List AccessEntry)
      → All (λ e. IsUser e.username) access
      → length access ≤ max_permissions_per_file
      → (m : MetadataFile) × (size' : ℕ) × (save_file_metadata f held.0 access s.metadata ≡ some m)
        × Represents (put_entry f (some (held.0, access)) owners) size' m
        × (size' ≤ size + 1)
  saved access users few =
      let p = loaded-IsPrintable owners size s.metadata f r n.0 in
      save_file_metadata_lem owners size s.metadata f held.0 access r
        (record {
          name = n.0;
          owner_fits = p.owner_fits;
          owner_line = p.owner_line;
          users = users;
          few = few;
        })
        (inr (room, n.1))

  -- Where the metadata file has room for the name and the file has fewer than 50 permissions, a
  -- permission for a user is appended to the file's list, and nothing else changes.
  pub handle_ss_add_access_lem :
      (user : CString) (perm : PermissionLevel)
      → IsUser user
      → length held.1 < max_permissions_per_file
      → Holds
          (put_entry f (some (held.0, held.1 ++ entry_for user perm ∷ [])) owners)
          size
          (handle_ss_add_access f user perm s)
  unfolding handle_ss_add_access
  handle_ss_add_access_lem user perm u lt =
      let p = loaded-IsPrintable owners size s.metadata f r n.0 in
      let one = entry_for user perm ∷ [] in
      let (m, size', e, q, le) =
        saved (held.1 ++ one) (All-append _ held.1 one p.users (u, tt))
          (omega (arith, length-append held.1 one, lt)) in
      let test : ltb (length held.1) max_permissions_per_file ≡ true = ground (arith, lt) in
      (
        record s { metadata = m },
        size',
        rw (load_file_metadata_lem owners size s.metadata f r, e, test, handle_ss_add_access) refl,
        q,
        le,
      )

  -- With 50 permissions already, nothing changes.
  pub handle_ss_add_access_full :
      (user : CString) (perm : PermissionLevel)
      → max_permissions_per_file ≤ length held.1
      → handle_ss_add_access f user perm s ≡ some s
  unfolding handle_ss_add_access
  handle_ss_add_access_full user perm full_list =
      let test : ltb (length held.1) max_permissions_per_file ≡ false = ground (arith, full_list) in
      rw (load_file_metadata_lem owners size s.metadata f r, test, handle_ss_add_access) refl

  -- The user's first permission goes, if there is one.
  pub handle_ss_rem_access_lem :
      (user : CString)
      → Holds
          (elim (drop_user user held.1) [
            | none ↦ owners
            | some es ↦ put_entry f (some (held.0, es)) owners
          ])
          size
          (handle_ss_rem_access f user s)
  unfolding handle_ss_rem_access
  handle_ss_rem_access_lem user =
      let p = loaded-IsPrintable owners size s.metadata f r n.0 in
      let loaded = load_file_metadata_lem owners size s.metadata f r in
      elim (drop_user-cases user held.1 p.users) [
        | inl e ↦ rw e (s, size, rw (loaded, e, handle_ss_rem_access) refl, r, omega arith)
        | inr (es, e, users, le) ↦
            let (m, size', saved_m, q, few) = saved es users (omega (arith, le, p.few)) in
            rw e (
              record s { metadata = m },
              size',
              rw (loaded, e, saved_m, handle_ss_rem_access) refl,
              q,
              few,
            )
      ]

find_access-append :
    (user : CString) (es more : List AccessEntry)
    → drop_user user es ≢ none
    → find_access user (es ++ more) ≡ find_access user es
unfolding find_access drop_user
find_access-append user [] more h = absurd (h refl)
find_access-append user (e ∷ es) more h = elim (Bool-cases (str_eq e.username user)) [
  | inl same ↦ rw (same, find_access) refl
  | inr other ↦
      let there : drop_user user es ≢ none = λ q. h (rw (other, q, drop_user) refl) in
      rw (other, find_access) (find_access-append user es more there)
]

-- Where the metadata file has room for the name, the file has fewer than 50 permissions and
-- the user has one of them, the level that a load then finds first for the user is still the
-- old one, whatever level was added.
pub find_access-handle_ss_add_access :
    (owners : CString → Option Entry) (size : ℕ) (s : Store) (f : CString)
    → Represents owners size s.metadata
    → size < max_files_per_ss
    → NewName f
    → (user : CString) (perm : PermissionLevel) → IsUser user
    → let access = (or_system (owners f)).1 in
      length access < max_permissions_per_file
      → drop_user user access ≢ none
      → (s' : Store) × (handle_ss_add_access f user perm s ≡ some s')
        × ((owner : CString) × (access' : List AccessEntry) × (load_file_metadata f s'.metadata
              ≡ some (owner, access'))
            × (find_access user access' ≡ find_access user access))
find_access-handle_ss_add_access owners size s f r room n user perm u lt there =
    let held = or_system (owners f) in
    let more = held.1 ++ entry_for user perm ∷ [] in
    let (s', size', e, q, le) = handle_ss_add_access_lem owners size s f r room n user perm u lt in
    let now : put_entry f (some (held.0, more)) owners f ≡ some (held.0, more) = ground arith in
    (
      s',
      e,
      (
        held.0,
        more,
        load_file_metadata_lem _ size' s'.metadata f q ∙ ap (λ o. some (or_system o)) now,
        find_access-append user held.1 (entry_for user perm ∷ []) there,
      ),
    )
