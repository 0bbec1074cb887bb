-- ===== src/Storage/Sessions/Begin.antt =====
-- Proofs about `handle_client_write` of storage/handlers.c: the lock on the sentence.
use distributed_document_sys.Storage.Edits.{SentenceNode}
use distributed_document_sys.Storage.Locks.{Locks, max_locks, LockResult, find_lock, create_lock}
use distributed_document_sys.Protocol.{res_error_locked, MessageType, res_ok_locked, res_error}
use distributed_document_sys.Storage.Locks.Exclusive.{
  exhausted, create_lock-Outcome, taken, refused, IsExclusive, Outcome,
}
use distributed_document_sys.Storage.Sessions.{
  begin_session, lock_sentence, handle_client_write, find_or_load_active_doc, Storage, sentence_at,
  find_active_doc,
}
use distributed_document_sys.Base.{
  sym, arith, Option, not, subst, ap, ℕ, CString, false, ◌<◌, inr, none, ◌≡◌, some, Option-cases,
  find_first, refl, inl, true, find_first-eq-some, ◌∙◌,
}

module _ (fresh : ℕ → ℕ) (sock : ℕ) (f : CString) (k i : ℕ) (target : SentenceNode) (s : Storage)
    (doc : find_active_doc f s ≡ some i)
    (there : sentence_at k (s.active_documents i).doc_head ≡ some target) where
  loaded : find_or_load_active_doc fresh f s ≡ (some i, s)
  unfolding find_or_load_active_doc
  loaded = rw (doc, find_or_load_active_doc) refl

  handle_client_write_loaded : handle_client_write fresh sock f k s ≡ lock_sentence sock f k i s
  unfolding handle_client_write
  handle_client_write_loaded =
      ap
        (λ (p : Option ℕ × Storage). elim p.0 [
          | none ↦ (res_error, p.1)
          | some n ↦ lock_sentence sock f k n p.1
        ])
        loaded

  -- Where the document is in memory and the sentence is locked, a write request is refused and
  -- changes nothing.
  pub handle_client_write-locked :
      (l : ℕ)
      → find_lock f target.address s.global_locks ≡ some l
      → handle_client_write fresh sock f k s ≡ (res_error_locked, s)
  unfolding lock_sentence
  handle_client_write-locked l locked =
      handle_client_write_loaded ∙ rw (there, locked, lock_sentence) refl

  module _ (unlocked : find_lock f target.address s.global_locks ≡ none) where
    begun : handle_client_write fresh sock f k s ≡ (res_ok_locked, begin_session sock f i target s)
    unfolding lock_sentence
    begun = handle_client_write_loaded ∙ rw (there, unlocked, lock_sentence) refl

    held :
        (j : ℕ) {r : LockResult} {after : Locks}
        → j < max_locks
        → (s.global_locks j).active ≡ false
        → Outcome f target.address sock s.global_locks r after
        → (l : ℕ) × (find_lock f target.address after ≡ some l) × ((after l).sock_fd ≡ sock)
    held j lt free (refused l e found same) = absurd (ground (arith, found, unlocked))
    held j lt free (exhausted e absent all same) = absurd (ground (arith, all j lt))
    held j lt free (taken l e absent found mine others) = (l, found, mine)

    -- Where the document is in memory, the sentence exists and is not locked, the lock table
    -- is exclusive and has a free place, a write request is granted: the sentence's lock is
    -- then the client's, and so is an active session on the sentence.
    pub handle_client_write-granted :
        (j : ℕ)
        → IsExclusive s.global_locks
        → j < max_locks
        → (s.global_locks j).active ≡ false
        → let (reply, s') = handle_client_write fresh sock f k s in
          (reply ≡ res_ok_locked)
          × ((l : ℕ) × (find_lock f target.address s'.global_locks ≡ some l)
              × ((s'.global_locks l).sock_fd ≡ sock))
          × ((s'.write_sessions sock).sentence_ptr ≡ target.address)
          × ((s'.write_sessions sock).active ≡ true)
    unfolding begin_session
    handle_client_write-granted j x lt free =
        subst
          (λ (p : MessageType × Storage).
            (p.0 ≡ res_ok_locked)
            × ((l : ℕ) × (find_lock f target.address p.1.global_locks ≡ some l)
                × ((p.1.global_locks l).sock_fd ≡ sock))
            × ((p.1.write_sessions sock).sentence_ptr ≡ target.address)
            × ((p.1.write_sessions sock).active ≡ true))
          (sym begun)
          (
            refl,
            held j lt free (create_lock-Outcome f target.address sock s.global_locks x),
            ground arith,
            ground arith,
          )

    no_place :
        ((j : ℕ) → j < max_locks → (s.global_locks j).active ≡ true)
        → find_first (λ j. not (s.global_locks j).active) max_locks 0 ≡ none
    no_place used =
        elim (Option-cases (find_first (λ j. not (s.global_locks j).active) max_locks 0)) [
          | inl absent ↦ absent
          | inr (j, e) ↦ absurd (
              ground (
                arith,
                find_first-eq-some (λ j. not (s.global_locks j).active) max_locks 0 j e,
                used j,
              ))
        ]

    -- Where the document is in memory, the sentence exists and is not locked, and every place
    -- of the lock table is taken, a write request is granted all the same, and the sentence is
    -- still not locked.
    pub handle_client_write-unlocked :
        ((j : ℕ) → j < max_locks → (s.global_locks j).active ≡ true)
        → let (reply, s') = handle_client_write fresh sock f k s in
          (reply ≡ res_ok_locked) × (find_lock f target.address s'.global_locks ≡ none)
    unfolding begin_session create_lock
    handle_client_write-unlocked used =
        subst
          (λ (p : MessageType × Storage).
            (p.0 ≡ res_ok_locked) × (find_lock f target.address p.1.global_locks ≡ none))
          (sym begun) (refl, rw (unlocked, no_place used, create_lock) unlocked)
