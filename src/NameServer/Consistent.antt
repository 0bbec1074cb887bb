-- ===== src/NameServer/Consistent.antt =====
-- The invariant of the naming server: its index and its catalog describe the same files.
use distributed_document_sys.NameServer.Index.{find_file_slot, Index}
use distributed_document_sys.Protocol.{Sent, max_permissions_per_file, max_files_in_system}
use distributed_document_sys.NameServer.Index.View.{
  find_file_slot-IsValid, find_file_slot-view, view, IsValid,
}
use distributed_document_sys.NameServer.Catalog.{with_slot, set_file, find_slot}
use distributed_document_sys.NameServer.State.{
  then_send, after_relay, done, Handled, undefined, FileMetadata, Server,
}
use distributed_document_sys.Base.{
  List, Option, inr, none, Option-cases, inl, arith, ap, sym, length, CString, ℕ, true, ◌≤◌, ◌<◌,
  ◌≡◌, ◌∙◌, some,
}

pub record IsConsistent (s : Server) : Type 0 where
  -- cache and chains are in order (Index/View)
  pub valid : IsValid s.index
  -- a name that is indexed leads to an active entry of that name
  pub sound :
      (name : CString) (slot : ℕ)
      → view s.index name ≡ some slot
      → (slot < max_files_in_system)
        × ((s.file_catalog slot).active ≡ true)
        × ((s.file_catalog slot).filename ≡ name)
  -- an active entry is found under its name
  pub listed :
      (slot : ℕ)
      → slot < max_files_in_system
      → (s.file_catalog slot).active ≡ true
      → view s.index (s.file_catalog slot).filename ≡ some slot
  -- no access list outgrows its array
  pub bounded : (slot : ℕ) → length (s.file_catalog slot).access_list ≤ max_permissions_per_file

-- In a consistent server no two active catalog entries have one name.
pub names_unique :
    {s : Server} (i j : ℕ)
    → IsConsistent s
    → i < max_files_in_system
    → j < max_files_in_system
    → (s.file_catalog i).active ≡ true
    → (s.file_catalog j).active ≡ true
    → (s.file_catalog i).filename ≡ (s.file_catalog j).filename
    → i ≡ j
names_unique {s} i j c hi hj ai aj e =
    let p : some i ≡ some j = sym (c.listed i hi ai) ∙ ap (view s.index) e ∙ c.listed j hj aj in
    ground arith

-- A lookup answers by the hash table and changes the cache at most.
pub find_slot_lem :
    (s : Server) (name : CString)
    → IsConsistent s
    → (ix : Index) × (find_slot name s ≡ (view s.index name, record s { index = ix }))
      × IsConsistent (record s { index = ix })
      × ((k : CString) → view ix k ≡ view s.index k)
unfolding find_slot
find_slot_lem s name c =
    let ix = (find_file_slot name s.index).1 in
    let (answer, same) = find_file_slot-view s.index name c.valid in
    (
      ix,
      (λ i. (answer i, record s { index = ix })),
      record {
        valid = find_file_slot-IsValid s.index name c.valid;
        sound = λ k slot h. c.sound k slot (sym (same k) ∙ h);
        listed = λ slot h a. same _ ∙ c.listed slot h a;
        bounded = c.bounded;
      },
      same,
    )

-- An entry that keeps its name and its place keeps the invariant.
pub set_file-IsConsistent :
    (s : Server) (slot : ℕ) (meta : FileMetadata)
    → IsConsistent s
    → meta.active ≡ (s.file_catalog slot).active
    → meta.filename ≡ (s.file_catalog slot).filename
    → length meta.access_list ≤ max_permissions_per_file
    → IsConsistent (set_file slot meta s)
set_file-IsConsistent s slot meta c a f b = record {
  valid = c.valid;
  sound = λ k i h. ground (arith, c.sound k i h);
  listed = λ i h act. ground (arith, c.listed i h);
  bounded = λ i. ground (arith, c.bounded i);
}

-- A handler that starts with a lookup: both answers, on a server that differs by its cache.
pub with_slot_cases {ℓ κ} :
    {R : Type ℓ} (P : R → Type κ) (s : Server) (name : CString) (rest : Option ℕ → Server → R)
    → IsConsistent s
    → ((ix : Index)
        → IsConsistent (record s { index = ix })
        → ((k : CString) → view ix k ≡ view s.index k)
        → view ix name ≡ none
        → P (rest none (record s { index = ix })))
    → ((ix : Index) (slot : ℕ)
        → IsConsistent (record s { index = ix })
        → ((k : CString) → view ix k ≡ view s.index k)
        → view ix name ≡ some slot
        → P (rest (some slot) (record s { index = ix })))
    → P (with_slot name s rest)
unfolding with_slot
with_slot_cases P s name rest c miss hit =
    let (ix, e, c', same) = find_slot_lem s name c in
    rw e (elim (Option-cases (view s.index name)) [
      | inl absent ↦ rw absent (miss ix c' same (same name ∙ absent))
      | inr (slot, found) ↦ rw found (hit ix slot c' same (same name ∙ found))
    ])

-- A handler that starts with a lookup of a name that is not indexed; the index needs to be valid only.
pub with_slot_none {ℓ κ} :
    {R : Type ℓ} (P : R → Type κ) (s : Server) (name : CString) (rest : Option ℕ → Server → R)
    → IsValid s.index
    → view s.index name ≡ none
    → ((ix : Index)
        → ((k : CString) → view ix k ≡ view s.index k)
        → P (rest none (record s { index = ix })))
    → P (with_slot name s rest)
unfolding with_slot find_slot
with_slot_none P s name rest v absent miss =
    let (answer, same) = find_file_slot-view s.index name v in
    rw (answer ∙ absent) (miss (find_file_slot name s.index).1 same)

-- What holds of the server after a handler that meets no undefined behaviour.
abbrev pub Ensures {ℓ} : (Server → Type ℓ) → Handled → Type ℓ
Ensures P undefined = Unit
Ensures P (done s out) = P s

pub Ensures-after_relay {ℓ} :
    (P : Server → Type ℓ) (m : Sent) (h : Handled) → Ensures P h → Ensures P (after_relay m h)
Ensures-after_relay P m undefined p = tt
Ensures-after_relay P m (done s out) p = p

pub Ensures-then_send {ℓ} :
    (P : Server → Type ℓ) (m : Sent) (h : Handled) → Ensures P h → Ensures P (then_send m h)
Ensures-then_send P m undefined p = tt
Ensures-then_send P m (done s out) p = p

-- What holds of the server after a handler, which meets no undefined behaviour.
abbrev pub Finishes : (Server → Type 0) → Handled → Type 0
Finishes P undefined = ⊥
Finishes P (done s out) = P s

pub weaken : (P : Server → Type 0) (h : Handled) → Finishes P h → Ensures P h
weaken P undefined p = tt
weaken P (done s out) p = p

-- A handler that ends, in a server for which `P` holds.
abbrev pub Succeeds : (Server → List Sent → Type 0) → Handled → Type 0
Succeeds P undefined = ⊥
Succeeds P (done s out) = P s out
