-- ===== src/NameServer/Index/Runs.antt =====
-- The index of name/hash_cache.c as a finite map, over any sequence of its operations.
use distributed_document_sys.NameServer.Index.{Index, find_file_slot, add_to_hashmap, empty}
use distributed_document_sys.NameServer.Index.View.{
  view, IsValid, forget, find_file_slot-view, find_file_slot-IsValid, add_to_hashmap-view,
  add_to_hashmap-IsValid, forget-view, forget-IsValid, empty-IsValid, view-empty,
}
use distributed_document_sys.Base.{
  arith, str_eq, Option, List, ℕ, CString, some, none, [], ◌∷◌, ◌∙◌, ◌≡◌, refl, if◌then◌else◌,
}

-- What the naming server does with the index: a lookup, a new name in the hash map, and a name taken
-- out of hash map and cache.
pub data Operation : Type 0 where
  look : (name : CString) → Operation
  bind : (name : CString) (slot : ℕ) → Operation
  drop_name : (name : CString) → Operation

-- The answers of the lookups, in order.
unfoldable pub answers : List Operation → Index → List (Option ℕ)
answers [] ix = []
answers (look name ∷ os) ix = (find_file_slot name ix).0 ∷ answers os (find_file_slot name ix).1
answers (bind name slot ∷ os) ix = answers os (add_to_hashmap name slot ix)
answers (drop_name name ∷ os) ix = answers os (forget name ix)

abbrev pub Dict : Type 0
Dict = CString → Option ℕ

abbrev pub with_name : CString → Option ℕ → Dict → Dict
with_name name answer m k = if str_eq name k then answer else m k

-- The same with a map from names to slots, without hashes, chains or a cache.
unfoldable pub dict_answers : List Operation → Dict → List (Option ℕ)
dict_answers [] m = []
dict_answers (look name ∷ os) m = m name ∷ dict_answers os m
dict_answers (bind name slot ∷ os) m = dict_answers os (with_name name (some slot) m)
dict_answers (drop_name name ∷ os) m = dict_answers os (with_name name none m)

-- No name is put in that is there already.
abbrev pub BindsNew : List Operation → Dict → Type 0
BindsNew [] m = Unit
BindsNew (look name ∷ os) m = BindsNew os m
BindsNew (bind name slot ∷ os) m = (m name ≡ none) × BindsNew os (with_name name (some slot) m)
BindsNew (drop_name name ∷ os) m = BindsNew os (with_name name none m)

abbrev Stands : Index → Dict → Type 0
Stands ix m = IsValid ix × ((k : CString) → view ix k ≡ m k)

answers-Stands :
    (os : List Operation) (ix : Index) (m : Dict)
    → Stands ix m
    → BindsNew os m
    → answers os ix ≡ dict_answers os m
unfolding answers dict_answers
answers-Stands [] ix m st new = refl
answers-Stands (look name ∷ os) ix m (v, same) new =
    let (answer, kept) = find_file_slot-view ix name v in
    let rest =
      answers-Stands os (find_file_slot name ix).1 m
        (find_file_slot-IsValid ix name v, λ k. kept k ∙ same k) new in
    rw (answer ∙ same name, rest) refl
answers-Stands (bind name slot ∷ os) ix m (v, same) (fresh, new) =
    answers-Stands os (add_to_hashmap name slot ix) (with_name name (some slot) m)
      (
        add_to_hashmap-IsValid ix name slot v (same name ∙ fresh),
        λ k. add_to_hashmap-view ix name k slot ∙ ground (arith, same k),
      )
      new
answers-Stands (drop_name name ∷ os) ix m (v, same) new =
    answers-Stands os (forget name ix) (with_name name none m)
      (forget-IsValid ix name v, λ k. forget-view ix name k v ∙ ground (arith, same k)) new

-- From the start, any sequence of lookups, new names in the hash map, and removals from hash
-- map and cache, in which no name is put in that is there already, answers every lookup as a
-- map from names to slots does, whatever the hashes are and whatever is cached.
pub answers-dict_answers :
    (os : List Operation) → BindsNew os (λ k. none) → answers os empty ≡ dict_answers os (λ k. none)
answers-dict_answers os new = answers-Stands os empty (λ k. none) (empty-IsValid, view-empty) new
