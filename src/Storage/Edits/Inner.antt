-- ===== src/Storage/Edits/Inner.antt =====
-- What becomes of the text after a delimiter inside a token.
use distributed_document_sys.Storage.Document.{sentence}
use distributed_document_sys.Base.{
  emit, All, ap, none, Option, arith, List, ℕ, ◌++◌, some, false, ◌≡◌, refl, [], true, ◌∷◌, CString,
}
use distributed_document_sys.Storage.Edits.{opened, rebuild, strpbrk, empty_sentences, is_delimiter}

strpbrk-append :
    (before rest : CString) (c : ℕ)
    → All (λ x. is_delimiter x ≡ false) before
    → is_delimiter c ≡ true
    → strpbrk (before ++ c ∷ rest) ≡ some (before, c, rest)
unfolding strpbrk
strpbrk-append [] rest c h e = ground (arith, e)
strpbrk-append (x ∷ xs) rest c h e = ground (arith, strpbrk-append xs rest c h.1 e, h.0)

no_sentence :
    (x : ℕ) (rest : CString)
    → is_delimiter x ≡ false
    → empty_sentences (x ∷ rest) ≡ empty_sentences []
unfolding empty_sentences
no_sentence x rest f = rw (f, empty_sentences) refl

-- Where a delimiter in a token is followed by a byte that is none, the sentences are the same
-- as without that byte and what follows it in the token.
pub rebuild-inner :
    (d : ℕ) (before rest : CString) (c x : ℕ) (ts : List CString) (ws : Option (List CString))
    → All (λ y. is_delimiter y ≡ false) before
    → is_delimiter c ≡ true
    → is_delimiter x ≡ false
    → rebuild d ((before ++ c ∷ x ∷ rest) ∷ ts) ws ≡ rebuild d ((before ++ c ∷ []) ∷ ts) ws
unfolding rebuild
rebuild-inner d before rest c x ts ws h e f =
    rw (strpbrk-append before (x ∷ rest) c h e, strpbrk-append before [] c h e, rebuild)
      (ap (λ es. sentence (opened ws ++ emit before []) c ∷ (es ++ rebuild d ts none))
        (no_sentence x rest f))
