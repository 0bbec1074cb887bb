-- ===== src/Storage/Edits/Counts.antt =====
-- The words that a commit adds, counted in the document and announced by the edits. `handle_etirw`
-- refuses a commit where the two differ.
use distributed_document_sys.Storage.Document.{Sentence}
use distributed_document_sys.Storage.Edits.{
  tokens, insert_tokens, apply_edits, insert_word, opened, rebuild, strpbrk, is_delimiter,
  count_words_in_string, empty_sentences, EditOperation, count_words, has_non_delim,
}
use distributed_document_sys.Base.{
  emit, All, subst, zero, suc, Option, length, ℕ, arith, Bool, List, ◌&&◌, [], ◌≡◌, Option-cases,
  inl, if◌then◌else◌, false, CString, ◌∷◌, ◌+◌, ◌++◌, Bool-cases, some, inr, length-append, ◌≢◌,
  none, true, refl,
}

-- The count of words in `handle_etirw`.
unfoldable pub words_in : List Sentence → ℕ
words_in [] = 0
words_in (s ∷ ss) = length s.words + words_in ss

-- `virtual_word_count` after these edits.
unfoldable pub virtual_word_count : List EditOperation → ℕ
virtual_word_count [] = 0
virtual_word_count (e ∷ es) = count_words_in_string e.content + virtual_word_count es

unfoldable pub all_delimiters : CString → Bool
all_delimiters [] = true
all_delimiters (c ∷ cs) = is_delimiter c && all_delimiters cs

-- Delimiters stand at the end of the token only.
unfoldable pub tidy : CString → Bool
tidy [] = true
tidy (c ∷ cs) = let rest = tidy cs in if is_delimiter c then all_delimiters cs else rest

abbrev pub IsTidy : CString → Type 0
IsTidy t = (t ≢ []) × (tidy t ≡ true)

-- A word without a delimiter, as parsing gives them.
abbrev pub IsPlain : CString → Type 0
IsPlain t = (t ≢ []) × (strpbrk t ≡ none)

all_delimiters-has_non_delim : (t : CString) → all_delimiters t ≡ true → has_non_delim t ≡ false
unfolding all_delimiters has_non_delim
all_delimiters-has_non_delim [] h = refl
all_delimiters-has_non_delim (c ∷ cs) h = ground (arith, all_delimiters-has_non_delim cs)

plain-has_non_delim : (t : CString) → IsPlain t → has_non_delim t ≡ true
unfolding has_non_delim strpbrk
plain-has_non_delim [] h = absurd (h.0 refl)
plain-has_non_delim (c ∷ cs) h = elim (Bool-cases (is_delimiter c)) [
  | inl yes_it ↦ absurd (ground (arith, h.1))
  | inr not_it ↦ ground arith
]

-- What stands before the first delimiter of a tidy token is a word exactly if the token counts.
before-count :
    (t before rest : CString) (c : ℕ)
    → tidy t ≡ true
    → strpbrk t ≡ some (before, c, rest)
    → length (emit before []) ≡ (if has_non_delim t then 1 else 0)
unfolding tidy strpbrk has_non_delim
before-count [] before rest c h e = ground arith
before-count (x ∷ xs) before rest c h e = elim (Bool-cases (is_delimiter x)) [
  | inl yes_it ↦ ground (arith, all_delimiters-has_non_delim xs)
  | inr not_it ↦ elim (Option-cases (strpbrk xs)) [
    | inl absent ↦ ground arith
    | inr ((b, d, r), there) ↦ ground arith
  ]
]

words_in-empty_sentences :
    (rest : CString) (ss : List Sentence) → words_in (empty_sentences rest ++ ss) ≡ words_in ss
unfolding words_in empty_sentences
words_in-empty_sentences [] ss = refl
words_in-empty_sentences (c ∷ cs) ss = elim (Bool-cases (is_delimiter c)) [
  | inl yes_it ↦ rw (yes_it, empty_sentences) (omega (arith, words_in-empty_sentences cs ss))
  | inr not_it ↦ rw (not_it, empty_sentences) refl
]

words_in-rebuild :
    (d : ℕ) (ts : List CString) (ws : Option (List CString))
    → All IsTidy ts
    → words_in (rebuild d ts ws) ≡ length (opened ws) + count_words ts
unfolding words_in rebuild count_words
words_in-rebuild d [] none h = refl
words_in-rebuild d [] (some ws) h = omega arith
words_in-rebuild d (t ∷ ts) ws h = elim (Option-cases (strpbrk t)) [
  | inl plain ↦
      rw (plain, rebuild)
        (ground (
          arith,
          words_in-rebuild d ts (some (opened ws ++ t ∷ [])) h.1,
          length-append (opened ws) (t ∷ []),
          plain-has_non_delim t (h.0.0, plain),
        ))
  | inr ((before, c, rest), e) ↦
      rw (e, rebuild)
        (ground (
          arith,
          words_in-empty_sentences rest (rebuild d ts none),
          words_in-rebuild d ts none h.1,
          length-append (opened ws) (emit before []),
          before-count t before rest c h.0.1 e,
        ))
]

count_words-insert_word :
    (n : ℕ) (t : CString) (ws : List CString)
    → count_words (insert_word n t ws) ≡ count_words (t ∷ ws)
unfolding count_words insert_word
count_words-insert_word zero t ws = refl
count_words-insert_word (suc n) t [] = refl
count_words-insert_word (suc n) t (w ∷ ws) = omega (arith, count_words-insert_word n t ws)

count_words-insert_tokens :
    (n : ℕ) (ts ws : List CString)
    → count_words (insert_tokens n ts ws) ≡ count_words ts + count_words ws
unfolding count_words insert_tokens
count_words-insert_tokens n [] ws = omega arith
count_words-insert_tokens n (t ∷ ts) ws = omega (
  arith,
  count_words-insert_tokens (suc n) ts (insert_word n t ws),
  count_words-insert_word n t ws,
)

All-insert_word :
    (n : ℕ) (t : CString) (ws : List CString)
    → IsTidy t
    → All IsTidy ws
    → All IsTidy (insert_word n t ws)
unfolding insert_word
All-insert_word zero t ws h hs = (h, hs)
All-insert_word (suc n) t [] h hs = (h, tt)
All-insert_word (suc n) t (w ∷ ws) h hs = (hs.0, All-insert_word n t ws h hs.1)

All-insert_tokens :
    (n : ℕ) (ts ws : List CString)
    → All IsTidy ts
    → All IsTidy ws
    → All IsTidy (insert_tokens n ts ws)
unfolding insert_tokens
All-insert_tokens n [] ws h hs = hs
All-insert_tokens n (t ∷ ts) ws h hs =
    All-insert_tokens (suc n) ts (insert_word n t ws) h.1 (All-insert_word n t ws h.0 hs)

abbrev pub AreTidy : List EditOperation → Type 0
AreTidy edits = All (λ e. All IsTidy (tokens e.content)) edits

apply_edits-count :
    (edits : List EditOperation) (ws ws' : List CString)
    → AreTidy edits
    → All IsTidy ws
    → apply_edits edits ws ≡ some ws'
    → All IsTidy ws' × (count_words ws' ≡ virtual_word_count edits + count_words ws)
unfolding apply_edits virtual_word_count
apply_edits-count [] ws ws' h hs e =
    subst (λ v. All IsTidy v × (count_words v ≡ 0 + count_words ws)) (ground (arith, e))
      (hs, omega arith)
apply_edits-count (op ∷ ops) ws ws' h hs e =
    let ts = tokens op.content in
    let (tidied, counted) =
      apply_edits-count ops (insert_tokens op.word_index ts ws) ws' h.1
        (All-insert_tokens op.word_index ts ws h.0 hs) (ground (arith, e)) in
    (tidied, omega (arith, counted, count_words-insert_tokens op.word_index ts ws))

plain-tidy : (t : CString) → strpbrk t ≡ none → tidy t ≡ true
unfolding strpbrk tidy
plain-tidy [] h = refl
plain-tidy (c ∷ cs) h = elim (Bool-cases (is_delimiter c)) [
  | inl yes_it ↦ absurd (ground (arith, h))
  | inr not_it ↦ elim (Option-cases (strpbrk cs)) [
    | inl absent ↦ ground (arith, plain-tidy cs absent)
    | inr ((b, d, r), there) ↦ absurd (ground (arith, h))
  ]
]

plain_words : (ws : List CString) → All IsPlain ws → All IsTidy ws × (count_words ws ≡ length ws)
unfolding count_words
plain_words [] h = (tt, refl)
plain_words (w ∷ ws) h =
    let (tidied, counted) = plain_words ws h.1 in
    (((h.0.0, plain-tidy w h.0.1), tidied), ground (arith, counted, plain-has_non_delim w h.0))

-- Where the target's words have no delimiter, and each token of the edits has its delimiters
-- at its end only, the rebuilt sentences have as many words as the target had and the session
-- has announced.
pub words_in-edited :
    (d : ℕ) (edits : List EditOperation) (ws ws' : List CString)
    → All IsPlain ws
    → AreTidy edits
    → apply_edits edits ws ≡ some ws'
    → words_in (rebuild d ws' none) ≡ length ws + virtual_word_count edits
words_in-edited d edits ws ws' plain tidied e =
    let (t, n) = plain_words ws plain in
    let (t', n') = apply_edits-count edits ws ws' tidied t e in
    omega (arith, n, n', words_in-rebuild d ws' none t')
