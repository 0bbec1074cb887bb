-- ===== src/Storage/Tests/Edits.antt =====
-- Edits of a concrete document, and the theorems on edits applied to them.
use distributed_document_sys.Storage.Document.{sentence}
use distributed_document_sys.Storage.Edits.Inner.{rebuild-inner}
use distributed_document_sys.Storage.Edits.Splice.{
  apply_session_edits_to_sentence-local, apply_session_edits_to_sentence-lost,
}
use distributed_document_sys.Storage.Edits.{
  splice, relink, strpbrk, allocate, rebuild, tokens, insert_word, EditOperation, SentenceNode,
  empty_sentences, apply_session_edits_to_sentence, has_non_delim, apply_edits, count_words,
  insert_tokens,
}
use distributed_document_sys.Base.{
  tokens_by, List, codes, ℕ, ◌++◌, ◌+◌, none, ◌≡◌, ◌∷◌, some, refl, [], CString,
}
use distributed_document_sys.Storage.Edits.Counts.{
  tidy, words_in-edited, virtual_word_count, all_delimiters, words_in,
}

program : Unit {0}
unfolding tokens tokens_by has_non_delim count_words insert_word insert_tokens apply_edits strpbrk
    empty_sentences rebuild allocate relink splice apply_session_edits_to_sentence
    virtual_word_count all_delimiters tidy words_in
program = tt

abbrev node : ℕ → List CString → ℕ → SentenceNode
node a ws d = record { address = a; value = sentence ws d }

abbrev first : SentenceNode
first = node 1 (codes "One" ∷ []) b'.'

abbrev second : SentenceNode
second = node 2 (codes "Two" ∷ codes "three" ∷ []) b'.'

abbrev blank : SentenceNode
blank = node 3 [] 10

abbrev last : SentenceNode
last = node 4 (codes "End" ∷ []) b' '

-- "and a half!" after the first word
abbrev edits : List EditOperation
edits = record { word_index = 1; content = codes "and a half!" } ∷ []

-- The sentence is split in two at the new delimiter.
edited_sentence :
    rebuild b'.' (codes "Two" ∷ codes "and" ∷ codes "a" ∷ codes "half!" ∷ codes "three" ∷ []) none
    ≡ sentence (codes "Two" ∷ codes "and" ∷ codes "a" ∷ codes "half" ∷ []) b'!'
      ∷ sentence (codes "three" ∷ []) b'.'
      ∷ []
unfolding program
edited_sentence = refl

apply_session_edits_to_sentence-local_example :
    apply_session_edits_to_sentence (λ n. n + 10) (first ∷ second ∷ last ∷ []) second edits
    ≡ some (
        first
        ∷ (allocate
              (λ n. n + 10)
              0
              (rebuild b'.'
                (codes "Two" ∷ codes "and" ∷ codes "a" ∷ codes "half!" ∷ codes "three" ∷ [])
                none)
            ++ last ∷ []))
unfolding program
apply_session_edits_to_sentence-local_example =
    apply_session_edits_to_sentence-local (λ n. n + 10) (first ∷ []) (last ∷ []) second edits
      (codes "Two") (codes "and" ∷ codes "a" ∷ codes "half!" ∷ codes "three" ∷ []) (refl, tt) refl

-- Committing no edit to an empty line loses what follows it.
apply_session_edits_to_sentence-lost_example :
    apply_session_edits_to_sentence (λ n. n + 10) (first ∷ blank ∷ last ∷ []) blank []
    ≡ some (first ∷ [])
unfolding program
apply_session_edits_to_sentence-lost_example =
    apply_session_edits_to_sentence-lost (λ n. n + 10) (first ∷ []) (last ∷ []) blank [] (refl, tt)
      refl

words_in-edited_example :
    words_in (
      rebuild b'.'
        (codes "Two" ∷ codes "and" ∷ codes "a" ∷ codes "half!" ∷ codes "three" ∷ [])
        none)
    ≡ 2 + virtual_word_count edits
unfolding program
words_in-edited_example =
    words_in-edited b'.' edits (codes "Two" ∷ codes "three" ∷ [])
      (codes "Two" ∷ codes "and" ∷ codes "a" ∷ codes "half!" ∷ codes "three" ∷ [])
      (((λ e. cc), refl), (((λ e. cc), refl), tt))
      ((((λ e. cc), refl), (((λ e. cc), refl), (((λ e. cc), refl), tt))), tt) refl

-- A token that begins with a delimiter is announced as a word, and adds none.
announced_example :
    (virtual_word_count (record { word_index = 0; content = codes ".x" } ∷ []) ≡ 1)
    × (words_in (rebuild b'.' (codes ".x" ∷ []) none) ≡ 0)
unfolding program
announced_example = (refl, refl)

rebuild-inner_example : rebuild b'.' (codes "a.b" ∷ []) none ≡ rebuild b'.' (codes "a." ∷ []) none
rebuild-inner_example = rebuild-inner b'.' (codes "a") [] b'.' b'b' [] none (refl, tt) refl refl
