-- ===== src/Storage/Edits/Splice.antt =====
-- Where an edit changes the document: the locked sentence, and what becomes of the others.
use distributed_document_sys.Storage.Document.{sentence, Sentence}
use mathlib.Core.List.{append-nil}
use distributed_document_sys.Base.{
  emit, All, arith, ap, List, ℕ, false, some, ◌≡◌, [], CString, ◌==◌, inr, ◌++◌, Option-cases, none,
  ◌∙◌, ◌∷◌, inl, refl,
}
use distributed_document_sys.Storage.Edits.{
  empty_sentences, allocate, strpbrk, relink, rebuild, splice, apply_session_edits_to_sentence,
  apply_edits, EditOperation, SentenceNode,
}

-- The address stands nowhere in these sentences.
abbrev pub IsAbsent : ℕ → List SentenceNode → Type 0
IsAbsent a ns = All (λ n. (n.address == a) ≡ false) ns

splice_at :
    (before after new : List SentenceNode) (target : SentenceNode)
    → IsAbsent target.address before
    → splice target.address new (before ++ target ∷ after) ≡ some (before ++ relink new after)
unfolding splice
splice_at [] after new target h = ground arith
splice_at (n ∷ ns) after new target h = ground (arith, splice_at ns after new target h.1)

rebuild-some :
    (d : ℕ) (ts ws : List CString)
    → (v : Sentence) × (vs : List Sentence) × (rebuild d ts (some ws) ≡ v ∷ vs)
unfolding rebuild
rebuild-some d [] ws = (sentence ws d, [], refl)
rebuild-some d (t ∷ ts) ws = elim (Option-cases (strpbrk t)) [
  | inl plain ↦ let (v, vs, e) = rebuild-some d ts (ws ++ t ∷ []) in (v, vs, rw (plain, rebuild) e)
  | inr ((before, c, rest), e) ↦ (
    sentence (ws ++ emit before []) c,
    empty_sentences rest ++ rebuild d ts none,
    rw (e, rebuild) refl,
  )
]

rebuild-cons :
    (d : ℕ) (t : CString) (ts : List CString)
    → (v : Sentence) × (vs : List Sentence) × (rebuild d (t ∷ ts) none ≡ v ∷ vs)
unfolding rebuild
rebuild-cons d t ts = elim (Option-cases (strpbrk t)) [
  | inl plain ↦ let (v, vs, e) = rebuild-some d ts (t ∷ []) in (v, vs, rw (plain, rebuild) e)
  | inr ((before, c, rest), e) ↦
      (sentence (emit before []) c, empty_sentences rest ++ rebuild d ts none, rw (e, rebuild) refl)
]

-- Where the edits leave a word in the target, and no sentence before it has its address,
-- applying them puts the rebuilt sentences in the place of the target and keeps every sentence
-- before and after it.
pub apply_session_edits_to_sentence-local :
    (fresh : ℕ → ℕ) (before after : List SentenceNode) (target : SentenceNode)
    (edits : List EditOperation) (w : CString) (ws : List CString)
    → IsAbsent target.address before
    → apply_edits edits target.value.words ≡ some (w ∷ ws)
    → apply_session_edits_to_sentence fresh (before ++ target ∷ after) target edits
      ≡ some (before ++ (allocate fresh 0 (rebuild target.value.delimiter (w ∷ ws) none) ++ after))
unfolding apply_session_edits_to_sentence
apply_session_edits_to_sentence-local fresh before after target edits w ws h e =
    let (v, vs, p) = rebuild-cons target.value.delimiter w ws in
    rw (e, apply_session_edits_to_sentence)
      (splice_at before after _ target h
        ∙ ap (λ l. some (before ++ l)) (unfold relink allocate in rw p))

-- Where the edits leave no word in the target, and no sentence before it has its address,
-- applying them loses the target and every sentence after it.
pub apply_session_edits_to_sentence-lost :
    (fresh : ℕ → ℕ) (before after : List SentenceNode) (target : SentenceNode)
    (edits : List EditOperation)
    → IsAbsent target.address before
    → apply_edits edits target.value.words ≡ some []
    → apply_session_edits_to_sentence fresh (before ++ target ∷ after) target edits ≡ some before
unfolding apply_session_edits_to_sentence
apply_session_edits_to_sentence-lost fresh before after target edits h e =
    rw (e, apply_session_edits_to_sentence)
      (splice_at before after _ target h
        ∙ ap some (unfold relink allocate rebuild in append-nil before))
