-- ===== src/Storage/Statistics/Counted.antt =====
-- Proofs about the statistics of storage/metadata.c and the streaming of a file.
use distributed_document_sys.Storage.Document.{isspace}
use distributed_document_sys.Storage.Statistics.{count_file_words}
use distributed_document_sys.Base.{
  subst, arith, emit, All, length, ℕ, List, Bool, refl, CString, [], ◌++◌, true, ◌≡◌, ◌∷◌, inr,
  false, if◌then◌else◌, inl, ◌==◌, ◌+◌, Bool-cases, tokens_by,
}

-- The open token adds a word when it is not empty.
pending : CString → Bool
pending [] = false
pending (c ∷ cs) = true

length-emit :
    (word : CString) (rest : List CString)
    → length (emit word rest) ≡ (if pending word then 1 else 0) + length rest
unfolding pending
length-emit [] rest = omega arith
length-emit (c ∷ cs) rest = omega arith

pending-append : (word : CString) (c : ℕ) → pending (word ++ c ∷ []) ≡ true
unfolding pending
pending-append [] c = refl
pending-append (x ∷ xs) c = refl

count_file_words-tokens_by :
    (word content : List ℕ)
    → All (λ c. (c == 255) ≡ false) content
    → (if pending word then 1 else 0) + count_file_words (pending word) content
      ≡ length (tokens_by isspace word content)
unfolding count_file_words tokens_by pending
count_file_words-tokens_by word [] h = ground (arith, length-emit word [])
count_file_words-tokens_by word (c ∷ cs) h = elim (Bool-cases (isspace c)) [
  | inl blank_it ↦
      rw (h.0, blank_it, count_file_words, tokens_by)
        (ground
          (arith, length-emit word (tokens_by isspace [] cs), count_file_words-tokens_by [] cs h.1))
  | inr letter_it ↦
      let ih =
        subst
          (λ b.
            (if b then 1 else 0) + count_file_words b cs
            ≡ length (tokens_by isspace (word ++ c ∷ []) cs))
          (pending-append word c) (count_file_words-tokens_by (word ++ c ∷ []) cs h.1) in
      rw (h.0, letter_it, count_file_words, tokens_by) (ground (arith, ih))
]

-- In a file without the byte 255, the words counted are the tokens between white space.
pub count_file_words_lem :
    (content : List ℕ)
    → All (λ c. (c == 255) ≡ false) content
    → count_file_words false content ≡ length (tokens_by isspace [] content)
unfolding pending
count_file_words_lem content h = ground (arith, count_file_words-tokens_by [] content h)
