-- ===== src/Storage/Edits.antt =====
-- storage/document.c: `count_words_in_string` and `apply_session_edits_to_sentence`, by which a
-- write session's edits are made in a document.
pub mod Splice
pub mod Counts
pub mod Inner
use distributed_document_sys.Storage.Document.{sentence, Sentence, is_stop}
use distributed_document_sys.Base.{
  emit, tokens_by, length, consed, ltb, not, Option, Bool, List, ℕ, if◌then◌else◌, false, some, [],
  CString, true, zero, ◌==◌, ◌++◌, ◌||◌, none, ◌∷◌, ◌+◌, suc,
}

-- A sentence of a document in memory; `address` is the pointer to it.
pub record SentenceNode : Type 0 where
  pub address : ℕ
  pub value : Sentence

-- A negative `word_index` is refused by `handle_write_update`, and so is never stored.
pub record EditOperation : Type 0 where
  pub word_index : ℕ
  pub content : CString

-- The separators of `strtok_r(s, " \t\r\n", &ctx)`.
abbrev pub is_separator : ℕ → Bool
is_separator c = c == b' ' || c == 9 || c == 13 || c == 10

-- `strchr(".!?\n", c)`
abbrev pub is_delimiter : ℕ → Bool
is_delimiter c = is_stop c || c == 10

-- What `strtok_r` gives one after the other.
unfoldable pub tokens : CString → List CString
tokens s = tokens_by is_separator [] s

unfoldable pub has_non_delim : CString → Bool
has_non_delim [] = false
has_non_delim (c ∷ cs) = not (is_delimiter c) || has_non_delim cs

-- The loop of `count_words_in_string` over the tokens.
unfoldable pub count_words : List CString → ℕ
count_words [] = 0
count_words (t ∷ ts) = (if has_non_delim t then 1 else 0) + count_words ts

abbrev pub count_words_in_string : CString → ℕ
count_words_in_string s = count_words (tokens s)

-- The words from `insert_at` on move one place up, and the token takes the place.
unfoldable pub insert_word : ℕ → CString → List CString → List CString
insert_word zero t ws = t ∷ ws
insert_word (suc n) t [] = t ∷ []
insert_word (suc n) t (w ∷ ws) = w ∷ insert_word n t ws

-- The `while (tok)` loop.
unfoldable pub insert_tokens : ℕ → List CString → List CString → List CString
insert_tokens insert_at [] ws = ws
insert_tokens insert_at (t ∷ ts) ws = insert_tokens (suc insert_at) ts (insert_word insert_at t ws)

-- The loop over the edits; `none` for the return of -1.
unfoldable pub apply_edits : List EditOperation → List CString → Option (List CString)
apply_edits [] ws = some ws
apply_edits (e ∷ es) ws =
    let rest = apply_edits es (insert_tokens e.word_index (tokens e.content) ws) in
    if ltb (length ws) e.word_index then none else rest

-- `strpbrk(word, ".!?\n")`: what stands before the first delimiter, the delimiter, and the rest.
unfoldable pub strpbrk : CString → Option (CString × ℕ × CString)
strpbrk [] = none
strpbrk (c ∷ cs) = elim (is_delimiter c) [
  | true ↦ some ([], c, cs)
  | false ↦ elim (strpbrk cs) [ none ↦ none | some (before, d, rest) ↦ some (c ∷ before, d, rest) ]
]

-- A delimiter right after a delimiter makes an empty sentence; what follows is not looked at.
unfoldable pub empty_sentences : CString → List Sentence
empty_sentences [] = []
empty_sentences (c ∷ cs) = elim (is_delimiter c) [
  | true ↦ sentence [] c ∷ empty_sentences cs
  | false ↦ []
]

-- The words of the sentence being built; `none` where the outer loop has not begun one.
abbrev pub opened : Option (List CString) → List CString
opened none = []
opened (some ws) = ws

-- The two loops over `words`; `d` is the delimiter of the sentence that is replaced.
unfoldable pub rebuild : ℕ → List CString → Option (List CString) → List Sentence
rebuild d [] none = []
rebuild d [] (some ws) = sentence ws d ∷ []
rebuild d (t ∷ ts) ws = elim (strpbrk t) [
  | none ↦ rebuild d ts (some (opened ws ++ t ∷ []))
  | some (before, c, rest) ↦
      sentence (opened ws ++ emit before []) c ∷ (empty_sentences rest ++ rebuild d ts none)
]

-- New nodes: `fresh n` is the address that the n-th `malloc` of a sentence returns.
unfoldable pub allocate : (ℕ → ℕ) → ℕ → List Sentence → List SentenceNode
allocate fresh n [] = []
allocate fresh n (v ∷ vs) = record { address = fresh n; value = v } ∷ allocate fresh (suc n) vs

-- `prev->next = first_new`, and `last_new->next = target->next` if there is a new sentence.
unfoldable pub relink : List SentenceNode → List SentenceNode → List SentenceNode
relink [] after = []
relink (n ∷ ns) after = (n ∷ ns) ++ after

-- The search for the target, and the change of its place; `none` if it is not in the document.
unfoldable pub splice : ℕ → List SentenceNode → List SentenceNode → Option (List SentenceNode)
splice target new [] = none
splice target new (n ∷ ns) =
    let rest = splice target new ns in
    if n.address == target then some (relink new ns) else consed n rest

unfoldable pub apply_session_edits_to_sentence :
    (ℕ → ℕ) → List SentenceNode → SentenceNode → List EditOperation → Option (List SentenceNode)
apply_session_edits_to_sentence fresh doc target edits =
    elim (apply_edits edits target.value.words) [
      | none ↦ none
      | some ws ↦
          splice target.address (allocate fresh 0 (rebuild target.value.delimiter ws none)) doc
    ]
