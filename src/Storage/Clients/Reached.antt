-- ===== src/Storage/Clients/Reached.antt =====
-- Proofs about the states that the storage server can be in: locks on sentences.
use distributed_document_sys.Storage.Edits.{apply_session_edits_to_sentence}
use distributed_document_sys.Storage.Edits.Counts.{words_in}
use distributed_document_sys.Storage.Clients.{
  gone, Running, Answer, updated, files, answered, idle, write_update, etirw, ClientRequest,
  client_read, client_stream, handle_client_message_ss, handle_client_read, handle_client_stream,
  client_write,
}
use distributed_document_sys.Storage.Locks.{find_lock}
use distributed_document_sys.Protocol.{MessageType}
use distributed_document_sys.Storage.Locks.Exclusive.{
  init_locks-IsExclusive, create_lock-IsExclusive, release_lock-IsExclusive, IsExclusive,
}
use distributed_document_sys.Base.{
  Option, refl, none, length, List, if_both, ◌==◌, ◌+◌, sym, subst, arith, ℕ, ◌≡◌, inl, some,
  Option-cases, inr, CString,
}
use distributed_document_sys.Storage.Sessions.{
  handle_client_disconnect, values, deref, adjust_first, set_doc, Storage, lock_sentence,
  end_session, handle_write_update, begin_session, handle_etirw, sentence_at, handle_client_write,
  write_back, release_active_doc, find_or_load_active_doc,
}

end_session-IsExclusive :
    (sock : ℕ) (s : Storage)
    → IsExclusive s.global_locks
    → IsExclusive (end_session sock s).global_locks
unfolding end_session release_active_doc
end_session-IsExclusive sock s x = release_lock-IsExclusive _ _ s.global_locks x

find_or_load_active_doc-locks :
    (fresh : ℕ → ℕ) (f : CString) (s : Storage)
    → (find_or_load_active_doc fresh f s).1.global_locks ≡ s.global_locks
unfolding find_or_load_active_doc
find_or_load_active_doc-locks fresh f s = ground arith

lock_sentence-IsExclusive :
    (sock : ℕ) (f : CString) (k i : ℕ) (s : Storage)
    → IsExclusive s.global_locks
    → IsExclusive (lock_sentence sock f k i s).1.global_locks
unfolding lock_sentence begin_session
lock_sentence-IsExclusive sock f k i s x =
    elim (Option-cases (sentence_at k (s.active_documents i).doc_head)) [
      | inl e ↦ rw (e, lock_sentence) x
      | inr (target, e) ↦ elim (Option-cases (find_lock f target.address s.global_locks)) [
        | inl u ↦
            rw (e, u, lock_sentence)
              (create_lock-IsExclusive f target.address sock s.global_locks x)
        | inr (l, u) ↦ rw (e, u, lock_sentence) x
      ]
    ]

handle_client_write-IsExclusive :
    (fresh : ℕ → ℕ) (sock : ℕ) (f : CString) (k : ℕ) (s : Storage)
    → IsExclusive s.global_locks
    → IsExclusive (handle_client_write fresh sock f k s).1.global_locks
unfolding handle_client_write
handle_client_write-IsExclusive fresh sock f k s x =
    let t = (find_or_load_active_doc fresh f s).1 in
    let y : IsExclusive t.global_locks =
      subst IsExclusive (sym (find_or_load_active_doc-locks fresh f s)) x in
    elim (Option-cases (find_or_load_active_doc fresh f s).0) [
      | inl e ↦ rw (e, handle_client_write) y
      | inr (i, e) ↦ rw (e, handle_client_write) (lock_sentence-IsExclusive sock f k i t y)
    ]

handle_write_update-locks :
    (sock word_index : ℕ) (content : CString) (s t : Storage) (reply : MessageType)
    → handle_write_update sock word_index content s ≡ some (reply, t)
    → t.global_locks ≡ s.global_locks
unfolding handle_write_update
handle_write_update-locks sock word_index content s t reply e = ground (arith, e)

handle_etirw-IsExclusive :
    (fresh : ℕ → ℕ) (sock : ℕ) (s : Storage)
    → IsExclusive s.global_locks
    → IsExclusive (handle_etirw fresh sock s).1.global_locks
unfolding handle_etirw write_back
handle_etirw-IsExclusive fresh sock s x =
    let w = s.write_sessions sock in
    let d = s.active_documents w.doc_index in
    elim (Option-cases (deref w.sentence_ptr d.doc_head)) [
      | inl e ↦ rw (e, handle_etirw) x
      | inr (target, e) ↦
          elim (Option-cases
            (adjust_first (length target.value.words) w.original_word_count w.edit_ops)) [
              | inl u ↦ rw (e, u, handle_etirw) (end_session-IsExclusive sock s x)
              | inr (edits, u) ↦
                  elim (Option-cases (
                    apply_session_edits_to_sentence (λ n. fresh (s.allocated + n)) d.doc_head target
                      edits)) [
                        | inl v ↦ rw (e, u, v, handle_etirw) (end_session-IsExclusive sock s x)
                        | inr (doc, v) ↦
                            let s' : Storage =
                              record (set_doc w.doc_index (record d { doc_head = doc }) s) {
                                allocated = s.allocated + length doc;
                              } in
                            rw (e, u, v, handle_etirw)
                              (if_both
                                (λ (p : List MessageType × Storage). IsExclusive p.1.global_locks)
                                (words_in (values doc)
                                  == words_in (values d.doc_head) + w.virtual_word_count)
                                _ _
                                (λ _. end_session-IsExclusive sock (write_back d.filename doc s') x)
                                (λ _. end_session-IsExclusive sock s' x))
                      ]
            ]
    ]

-- A result, if there is one, leaves the lock table exclusive.
abbrev Keeps : Option Answer → Type 0
Keeps none = Unit
Keeps (some a) = IsExclusive a.after.global_locks

updated-Keeps :
    (sock word_index : ℕ) (content : CString) (s : Storage)
    → IsExclusive s.global_locks
    → (o : Option (MessageType × Storage)) → handle_write_update sock word_index content s ≡ o
    → Keeps (updated o)
updated-Keeps sock word_index content s x none e = tt
updated-Keeps sock word_index content s x (some (reply, t)) e =
    subst IsExclusive {x = s.global_locks} {y = t.global_locks}
      (sym (handle_write_update-locks sock word_index content s t reply e)) x

handle_client_message_ss-IsExclusive :
    (fresh : ℕ → ℕ) (sock : ℕ) (q : ClientRequest) (s : Storage)
    → IsExclusive s.global_locks
    → Keeps (handle_client_message_ss fresh sock q s)
unfolding handle_client_message_ss handle_client_read handle_client_stream
handle_client_message_ss-IsExclusive fresh sock (client_read f) s x = x
handle_client_message_ss-IsExclusive fresh sock (client_stream f) s x = x
handle_client_message_ss-IsExclusive fresh sock (client_write f k) s x =
    handle_client_write-IsExclusive fresh sock f k s x
handle_client_message_ss-IsExclusive fresh sock (write_update word_index content) s x =
    if_both Keeps (s.write_sessions sock).active _ _
      (λ _.
        updated-Keeps sock word_index content s x (handle_write_update sock word_index content s)
          refl)
      (λ _. x)
handle_client_message_ss-IsExclusive fresh sock etirw s x =
    if_both Keeps (s.write_sessions sock).active _ _ (λ _. handle_etirw-IsExclusive fresh sock s x)
      (λ _. x)

-- In every state of the storage server that is reached from free locks, by requests of
-- clients, their disconnections and changes of the files, no sentence of a file has two active
-- locks.
pub Running-IsExclusive :
    (fresh : ℕ → ℕ) {s : Storage} → Running fresh s → IsExclusive s.global_locks
unfolding handle_client_disconnect
Running-IsExclusive fresh (idle s) = init_locks-IsExclusive s.global_locks
Running-IsExclusive fresh (answered {s} sock q a r e) =
    subst Keeps {x = handle_client_message_ss fresh sock q s} {y = some a} e
      (handle_client_message_ss-IsExclusive fresh sock q s (Running-IsExclusive fresh r))
Running-IsExclusive fresh (gone {s} sock r) =
    let x = Running-IsExclusive fresh r in
    if_both (λ (t : Storage). IsExclusive t.global_locks) (s.write_sessions sock).active _ _
      (λ _. end_session-IsExclusive sock s x) (λ _. x)
Running-IsExclusive fresh (files d r) = Running-IsExclusive fresh r
