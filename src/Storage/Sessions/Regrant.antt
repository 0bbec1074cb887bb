-- ===== src/Storage/Sessions/Regrant.antt =====
-- Proofs about storage/handlers.c: a sentence whose writer has gone away is given to the next one.
use distributed_document_sys.Storage.Sessions.Begin.{
  handle_client_write-locked, handle_client_write-granted,
}
use distributed_document_sys.Storage.Edits.{SentenceNode}
use distributed_document_sys.Protocol.{res_ok_locked, res_error_locked, max_files_in_system}
use distributed_document_sys.Storage.Locks.Exclusive.{
  find_lock-eq-some, release_lock_lem, release_lock-IsExclusive, IsExclusive,
}
use distributed_document_sys.Base.{
  sym, subst, str_eq, Bool, ap, arith, ℕ, ◌≤◌, some, ◌≡◌, ◌&&◌, ◌∙◌, CString, refl, find_first,
  false, true,
}
use distributed_document_sys.Storage.Locks.{Locks, release_lock, find_lock}
use mathlib.Core.Path.{fun_ext}
use distributed_document_sys.Storage.Sessions.{
  handle_client_write, Storage, handle_client_disconnect, find_active_doc, sentence_at,
  release_active_doc, end_session,
}

module _ (sock : ℕ) (f : CString) (k i l : ℕ) (target : SentenceNode) (s : Storage)
    (x : IsExclusive s.global_locks) (on_it : (s.write_sessions sock).active ≡ true)
    (its : (s.write_sessions sock).doc_index ≡ i)
    (pointed : (s.write_sessions sock).sentence_ptr ≡ target.address)
    (doc : find_active_doc f s ≡ some i) (named : (s.active_documents i).filename ≡ f)
    (shared : 2 ≤ (s.active_documents i).num_users_editing)
    (there : sentence_at k (s.active_documents i).doc_head ≡ some target)
    (locked : find_lock f target.address s.global_locks ≡ some l) where
  abbrev left : Storage
  left = handle_client_disconnect sock s

  left-docs :
      (j : ℕ)
      → ((left.active_documents j).active ≡ (s.active_documents j).active)
        × ((left.active_documents j).filename ≡ (s.active_documents j).filename)
        × ((left.active_documents j).doc_head ≡ (s.active_documents j).doc_head)
  unfolding handle_client_disconnect end_session release_active_doc
  left-docs j = ground (arith, ap (λ (n : ℕ). (s.active_documents n).num_users_editing) its)

  left-doc : find_active_doc f left ≡ some i
  unfolding find_active_doc
  left-doc =
      ap (λ (p : ℕ → Bool). find_first p max_files_in_system 0)
        (fun_ext (λ j. let (a, n, h) = left-docs j in λ e. (a e && str_eq (n e) f)))
      ∙ doc

  left-locks : left.global_locks ≡ release_lock f target.address s.global_locks
  unfolding handle_client_disconnect end_session release_active_doc
  left-locks = rw (on_it, handle_client_disconnect) (rw its (rw (named, pointed) refl))

  freed : (left.global_locks l).active ≡ false
  unfolding release_lock
  freed = ap (λ (t : Locks). (t l).active) left-locks ∙ rw (locked, release_lock) (ground arith)

  -- With an exclusive lock table, and a client in a session on the locked sentence of a
  -- document that another client edits too: as long as the client is there, any request to
  -- write the sentence is refused and changes nothing; once the client has disconnected, the
  -- next such request is granted, and its client holds the lock and a session on the sentence.
  pub handle_client_write-regranted :
      (fresh : ℕ → ℕ) (newcomer : ℕ)
      → (handle_client_write fresh newcomer f k s ≡ (res_error_locked, s))
        × (let (reply, s') = handle_client_write fresh newcomer f k left in
            (reply ≡ res_ok_locked)
            × ((j : ℕ) × (find_lock f target.address s'.global_locks ≡ some j)
                × ((s'.global_locks j).sock_fd ≡ newcomer))
            × ((s'.write_sessions newcomer).sentence_ptr ≡ target.address)
            × ((s'.write_sessions newcomer).active ≡ true))
  handle_client_write-regranted fresh newcomer = (
    handle_client_write-locked fresh newcomer f k i target s doc there l locked,
    handle_client_write-granted fresh newcomer f k i target left left-doc
        (ap (sentence_at k) (left-docs i).2 ∙ there)
        (ap (find_lock f target.address) left-locks
          ∙ (release_lock_lem f target.address sock s.global_locks x).0)
        l
        (subst IsExclusive (sym left-locks)
          (release_lock-IsExclusive f target.address s.global_locks x))
        (find_lock-eq-some f target.address l s.global_locks locked).0 freed,
  )
