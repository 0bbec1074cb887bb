-- ===== src/Storage/Sessions.antt =====
-- storage/handlers.c: `handle_client_write`, `handle_write_update` and `handle_etirw`, the write
-- session of a client; the table of active documents of storage/document.c and
-- storage/storage_server.c.
pub mod Begin
pub mod Commit
pub mod Regrant
use distributed_document_sys.Storage.Disk.{rename, Disk, write_file, open_read, backup_path}
use distributed_document_sys.Storage.Edits.Counts.{words_in}
use distributed_document_sys.Storage.Edits.{
  allocate, count_words_in_string, EditOperation, SentenceNode, apply_session_edits_to_sentence,
}
use distributed_document_sys.Storage.Locks.{Locks, find_lock, create_lock, release_lock}
use distributed_document_sys.Storage.Document.{flush_list_to_file, Sentence, parse_file_to_list}
use distributed_document_sys.Base.{
  is_none, ltb, length, map, update, not, str_eq, Option, List, codes, ℕ, Bool, ◌+◌, suc, [], true,
  ◌&&◌, ◌==◌, if◌then◌else◌, ◌++◌, zero, false, CString, ◌-◌, some, find_first, none, ◌∷◌,
}
use distributed_document_sys.Protocol.{
  res_error, res_error_invalid_sentence, MessageType, res_ok_locked, max_files_in_system,
  res_error_locked, res_ok,
}

-- `original_path` and `backup_path` are those of `filename`.
pub record ActiveDoc : Type 0 where
  pub active : Bool
  pub filename : CString
  pub doc_head : List SentenceNode
  pub num_users_editing : ℕ

pub record WriteSession : Type 0 where
  pub active : Bool
  pub doc_index : ℕ
  pub sentence_ptr : ℕ
  pub original_word_count : ℕ
  pub edit_ops : List EditOperation
  pub virtual_word_count : ℕ

-- The globals of the storage server, the files under `g_storage_path`, and the number from which
-- `fresh` gives addresses that are not in use.
pub record Storage : Type 0 where
  pub active_documents : ℕ → ActiveDoc
  pub write_sessions : ℕ → WriteSession
  pub global_locks : Locks
  pub disk : Disk
  pub allocated : ℕ

unfoldable pub find_active_doc : CString → Storage → Option ℕ
find_active_doc f s =
    find_first (λ i. (s.active_documents i).active && str_eq (s.active_documents i).filename f)
      max_files_in_system 0

unfoldable pub find_empty_active_doc_slot : Storage → Option ℕ
find_empty_active_doc_slot s =
    find_first (λ i. not (s.active_documents i).active) max_files_in_system 0

abbrev pub set_doc : ℕ → ActiveDoc → Storage → Storage
set_doc i d s = record s { active_documents = update s.active_documents i d }

abbrev pub set_session : ℕ → WriteSession → Storage → Storage
set_session sock w s = record s { write_sessions = update s.write_sessions sock w }

abbrev pub values : List SentenceNode → List Sentence
values ns = map (λ n. n.value) ns

-- The walk to the sentence of a number.
unfoldable pub sentence_at : ℕ → List SentenceNode → Option SentenceNode
sentence_at k [] = none
sentence_at zero (n ∷ ns) = some n
sentence_at (suc k) (n ∷ ns) = sentence_at k ns

-- What the pointer leads to, if it is in the document.
unfoldable pub deref : ℕ → List SentenceNode → Option SentenceNode
deref a [] = none
deref a (n ∷ ns) = let rest = deref a ns in if n.address == a then some n else rest

-- `fresh n`, for n from `allocated` on, is an address that `malloc` has not given out.
unfoldable pub find_or_load_active_doc : (ℕ → ℕ) → CString → Storage → Option ℕ × Storage
find_or_load_active_doc fresh f s = elim (find_active_doc f s) [
  | some i ↦ (some i, s)
  | none ↦ elim (find_empty_active_doc_slot s) [
    | none ↦ (none, s)
    | some i ↦ elim (open_read f s.disk) [
      | none ↦ (none, s)
      | some content ↦
          let sentences = parse_file_to_list content in
          (
            some i,
            record (set_doc i
                (record {
                  active = true;
                  filename = f;
                  doc_head = allocate (λ n. fresh (s.allocated + n)) 0 sentences;
                  num_users_editing = 0;
                })
                s) { allocated = s.allocated + length sentences },
          )
    ]
  ]
]

-- The lock's result is not looked at.
unfoldable pub begin_session : ℕ → CString → ℕ → SentenceNode → Storage → Storage
begin_session sock f i target s =
    let d = s.active_documents i in
    set_session sock
      (record {
        active = true;
        doc_index = i;
        sentence_ptr = target.address;
        original_word_count = length target.value.words;
        edit_ops = [];
        virtual_word_count = 0;
      })
      (set_doc i (record d { num_users_editing = d.num_users_editing + 1 })
        (record s { global_locks = (create_lock f target.address sock s.global_locks).1 }))

-- With the document in memory: the reply, and the state after it.
unfoldable pub lock_sentence : ℕ → CString → ℕ → ℕ → Storage → MessageType × Storage
lock_sentence sock f k i s = elim (sentence_at k (s.active_documents i).doc_head) [
  | none ↦ (res_error_invalid_sentence, s)
  | some target ↦ elim (find_lock f target.address s.global_locks) [
    | some _ ↦ (res_error_locked, s)
    | none ↦ (res_ok_locked, begin_session sock f i target s)
  ]
]

-- A negative sentence number is the number 0.
unfoldable pub handle_client_write : (ℕ → ℕ) → ℕ → CString → ℕ → Storage → MessageType × Storage
handle_client_write fresh sock f k s₀ =
    let (doc, s) = find_or_load_active_doc fresh f s₀ in
    elim doc [ none ↦ (res_error, s) | some i ↦ lock_sentence sock f k i s ]

-- Whether `handle_client_write` closes the socket after its reply: a client with a lock goes on.
unfoldable pub write_closes : MessageType → Bool
write_closes res_ok_locked = false
write_closes _ = true

-- `none` where the document has lost the session's sentence: its words are not known then.
unfoldable pub handle_write_update : ℕ → ℕ → CString → Storage → Option (MessageType × Storage)
handle_write_update sock word_index content s =
    let w = s.write_sessions sock in
    elim (deref w.sentence_ptr (s.active_documents w.doc_index).doc_head) [
      | none ↦ none
      | some target ↦
          if ltb (length target.value.words + w.virtual_word_count) word_index
          then some (res_error, s)
          else some (
            res_ok,
            set_session sock
                (record w {
                  edit_ops =
                      w.edit_ops ++ record { word_index = word_index; content = content } ∷ [];
                  virtual_word_count = w.virtual_word_count + count_words_in_string content;
                })
                s,
          )
    ]

-- The first edit's index moved by `current - original`; `none` below zero, which is refused.
unfoldable pub adjust_first : ℕ → ℕ → List EditOperation → Option (List EditOperation)
adjust_first current original [] = some []
adjust_first current original (e ∷ es) =
    let index = e.word_index + current in
    if ltb index original then none else some (record e { word_index = index - original } ∷ es)

-- `num_users_editing` counts up from 0 here, so that it is never below.
unfoldable pub release_active_doc : ℕ → Storage → Storage
release_active_doc i s =
    let d = s.active_documents i in
    let users = d.num_users_editing - 1 in
    set_doc i
      (record d {
        num_users_editing = users;
        active = if users == 0 then false else d.active;
        doc_head = if users == 0 then [] else d.doc_head;
      })
      s

-- After the commit or its refusal: the lock, the session and the document are released.
unfoldable pub end_session : ℕ → Storage → Storage
end_session sock s =
    let w = s.write_sessions sock in
    let d = s.active_documents w.doc_index in
    release_active_doc w.doc_index (
      set_session sock (record w { active = false; edit_ops = [] })
        (record s { global_locks = release_lock d.filename w.sentence_ptr s.global_locks }))

-- The loop closes the socket.
unfoldable pub handle_client_disconnect : ℕ → Storage → Storage
handle_client_disconnect sock s = if (s.write_sessions sock).active then end_session sock s else s

-- The words are as announced: the old file becomes the backup, the document is written.
unfoldable pub write_back : CString → List SentenceNode → Storage → Storage
write_back f doc s = record s {
  disk = write_file f (flush_list_to_file (values doc)) (rename f (backup_path f) s.disk).1;
}

-- The replies, in order; the statistics that are sent to the naming server are left out. A sentence
-- that its document has lost is refused at once, and the session goes on.
unfoldable pub handle_etirw : (ℕ → ℕ) → ℕ → Storage → List MessageType × Storage
handle_etirw fresh sock s =
    let w = s.write_sessions sock in
    let d = s.active_documents w.doc_index in
    elim (deref w.sentence_ptr d.doc_head) [
      | none ↦ (res_error ∷ [], s)
      | some target ↦
          elim (adjust_first (length target.value.words) w.original_word_count w.edit_ops) [
            | none ↦ (res_error ∷ res_ok ∷ [], end_session sock s)
            | some edits ↦
                elim (apply_session_edits_to_sentence (λ n. fresh (s.allocated + n)) d.doc_head
                  target edits) [
                    | none ↦ (res_error ∷ res_ok ∷ [], end_session sock s)
                    | some doc ↦
                        let s' = record (set_doc w.doc_index (record d { doc_head = doc }) s) {
                          allocated = s.allocated + length doc;
                        } in
                        if words_in (values doc)
                          == words_in (values d.doc_head) + w.virtual_word_count
                        then (res_ok ∷ [], end_session sock (write_back d.filename doc s'))
                        else (res_error_invalid_sentence ∷ res_ok ∷ [], end_session sock s')
                  ]
          ]
    ]

-- Whether `handle_etirw` closes the socket: it does not where the sentence is lost.
unfoldable pub etirw_closes : ℕ → Storage → Bool
etirw_closes sock s =
    let w = s.write_sessions sock in
    not (is_none (deref w.sentence_ptr (s.active_documents w.doc_index).doc_head))
