-- ===== src/Storage/Sessions/Commit.antt =====
-- Proofs about `handle_etirw` of storage/handlers.c: what a commit writes and what it leaves.
use distributed_document_sys.Storage.Disk.Paths.{paths-Apart}
use distributed_document_sys.Storage.Disk.{
  write_file, remove, write, Disk, rename, can_write, backup_path,
}
use distributed_document_sys.Storage.Locks.{find_lock}
use distributed_document_sys.Storage.Edits.{
  EditOperation, SentenceNode, apply_session_edits_to_sentence,
}
use distributed_document_sys.Protocol.{res_error, res_error_invalid_sentence, res_ok}
use distributed_document_sys.Storage.Edits.Counts.{words_in}
use distributed_document_sys.Base.{
  true, ◌∙◌, Option, length, ap, List, arith, ℕ, CString, none, ◌==◌, ◌∷◌, ◌≢◌, false, [], refl,
  ◌≡◌, some, ◌<◌, ◌+◌,
}
use distributed_document_sys.Storage.Document.{flush_list_to_file}
use distributed_document_sys.Storage.Sessions.{
  handle_client_disconnect, deref, values, adjust_first, WriteSession, end_session,
  release_active_doc, set_doc, Storage, ActiveDoc, write_back, handle_etirw,
}
use distributed_document_sys.Storage.Locks.Exclusive.{IsExclusive, release_lock_lem}

-- What the end of a session does.
abbrev pub IsEnded : ℕ → Storage → Storage → Type 0
IsEnded sock s s' =
    let w = s.write_sessions sock in
    (find_lock (s.active_documents w.doc_index).filename w.sentence_ptr s'.global_locks ≡ none)
    × ((s'.write_sessions sock).active ≡ false)

end_session_lem :
    (sock : ℕ) (s : Storage)
    → IsExclusive s.global_locks
    → IsEnded sock s (end_session sock s) × ((end_session sock s).disk ≡ s.disk)
unfolding end_session release_active_doc
end_session_lem sock s x =
    let w = s.write_sessions sock in
    let f = (s.active_documents w.doc_index).filename in
    (((release_lock_lem f w.sentence_ptr sock s.global_locks x).0, ground arith), refl)

-- A client that goes away in a session frees its sentence, and its edits are lost.
pub handle_client_disconnect_lem :
    (sock : ℕ) (s : Storage)
    → IsExclusive s.global_locks
    → (s.write_sessions sock).active ≡ true
    → IsEnded sock s (handle_client_disconnect sock s)
      × ((handle_client_disconnect sock s).disk ≡ s.disk)
unfolding handle_client_disconnect
handle_client_disconnect_lem sock s x e =
    rw (e, handle_client_disconnect) (end_session_lem sock s x)

pub write_back_lem :
    (f : CString) (doc : List SentenceNode) (content : List ℕ) (s : Storage)
    → can_write f s.disk ≡ true
    → can_write (backup_path f) s.disk ≡ true
    → s.disk.files f ≡ some content
    → ((write_back f doc s).disk.files f ≡ some (flush_list_to_file (values doc)))
      × ((write_back f doc s).disk.files (backup_path f) ≡ some content)
unfolding write_back write_file rename write remove can_write
write_back_lem f doc content s w b e =
    let ne : f ≢ backup_path f = (paths-Apart f []).file_backup in
    (ground (arith, e, w, b, ne), ground (arith, e, w, b, ne))

pub write_back_others :
    (f : CString) (doc : List SentenceNode) (s : Storage)
    → ((p : CString)
        → f ≢ p
        → backup_path f ≢ p
        → (write_back f doc s).disk.files p ≡ s.disk.files p)
      × ((write_back f doc s).disk.is_dir ≡ s.disk.is_dir)
unfolding write_back write_file rename write remove
write_back_others f doc s = (λ p x y. ground (arith, x, y), ground arith)

module _ (fresh : ℕ → ℕ) (sock : ℕ) (s : Storage) (x : IsExclusive s.global_locks) where
  abbrev w : WriteSession
  w = s.write_sessions sock

  abbrev d : ActiveDoc
  d = s.active_documents w.doc_index

  module _ (target : SentenceNode) (edits : List EditOperation)
      (there : deref w.sentence_ptr d.doc_head ≡ some target)
      (moved : adjust_first (length target.value.words) w.original_word_count w.edit_ops
        ≡ some edits) where
    abbrev applied : Option (List SentenceNode)
    applied = apply_session_edits_to_sentence (λ n. fresh (s.allocated + n)) d.doc_head target edits

    -- With an exclusive lock table, a session's sentence in its document and edits that do not
    -- apply, a commit replies with an error and then with success, frees the sentence, ends
    -- the session and leaves the files.
    pub handle_etirw-failed :
        applied ≡ none
        → (s' : Storage) × (handle_etirw fresh sock s ≡ (res_error ∷ res_ok ∷ [], s'))
          × IsEnded sock s s'
          × (s'.disk ≡ s.disk)
    unfolding handle_etirw
    handle_etirw-failed e =
        let (ended, same) = end_session_lem sock s x in
        (end_session sock s, rw (there, moved, e, handle_etirw) refl, ended, same)

    module _ (doc : List SentenceNode) (e : applied ≡ some doc) where
      abbrev edited : Storage
      edited = record (set_doc w.doc_index (record d { doc_head = doc }) s) {
        allocated = s.allocated + length doc;
      }

      edited_lem : (t : Storage) → IsEnded sock edited t → IsEnded sock s t
      edited_lem t h = (ground (arith, h.0), h.1)

      -- With an exclusive lock table, a session's sentence in its document, edits that apply,
      -- and words in the document as many as before and announced, a commit replies with
      -- success, frees the sentence, ends the session, writes the edited document to the file
      -- and the file's old content to its backup, if both can be written.
      pub handle_etirw-committed :
          (content : List ℕ)
          → words_in (values doc) ≡ words_in (values d.doc_head) + w.virtual_word_count
          → can_write d.filename s.disk ≡ true
          → can_write (backup_path d.filename) s.disk ≡ true
          → s.disk.files d.filename ≡ some content
          → (s' : Storage) × (handle_etirw fresh sock s ≡ (res_ok ∷ [], s'))
            × IsEnded sock s s'
            × (s'.disk.files d.filename ≡ some (flush_list_to_file (values doc)))
            × (s'.disk.files (backup_path d.filename) ≡ some content)
      unfolding handle_etirw
      handle_etirw-committed content counted w_file w_backup old =
          let t = write_back d.filename doc edited in
          let (ended, same) = end_session_lem sock t (unfold write_back in x) in
          let (now, before) = write_back_lem d.filename doc content edited w_file w_backup old in
          let test : (words_in (values doc)
                == (words_in (values d.doc_head) + w.virtual_word_count))
              ≡ true =
            ground (arith, counted) in
          (
            end_session sock t,
            rw (there, moved, e, test, handle_etirw) refl,
            unfold write_back in (ground (arith, ended.0), ended.1),
            ap (λ (k : Disk). k.files d.filename) same ∙ now,
            ap (λ (k : Disk). k.files (backup_path d.filename)) same ∙ before,
          )

      -- With an exclusive lock table, a session's sentence in its document and edits that
      -- apply, but another number of words than announced, a commit replies with an error and
      -- then with success, frees the sentence, ends the session and leaves the files; where
      -- others edit the document too, it keeps the refused edits in memory.
      pub handle_etirw-refused :
          words_in (values doc) ≢ words_in (values d.doc_head) + w.virtual_word_count
          → (s' : Storage) × (handle_etirw fresh sock s
              ≡ (res_error_invalid_sentence ∷ res_ok ∷ [], s'))
            × IsEnded sock s s'
            × (s'.disk ≡ s.disk)
            × (1 < d.num_users_editing → (s'.active_documents w.doc_index).doc_head ≡ doc)
      unfolding handle_etirw
      handle_etirw-refused differ =
          let (ended, same) = end_session_lem sock edited x in
          let test : (words_in (values doc)
                == (words_in (values d.doc_head) + w.virtual_word_count))
              ≡ false =
            ground (arith, differ) in
          (
            end_session sock edited,
            rw (there, moved, e, test, handle_etirw) refl,
            edited_lem (end_session sock edited) ended,
            same,
            λ many. unfold end_session release_active_doc in ground arith,
          )
