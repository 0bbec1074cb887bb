-- ===== src/Storage/Tests/Sessions.antt =====
-- Write sessions on a concrete document, and the theorems on sessions applied to them.
use distributed_document_sys.Storage.Sessions.Regrant.{handle_client_write-regranted}
use distributed_document_sys.Storage.Clients.Reached.{Running-IsExclusive}
use distributed_document_sys.Storage.Clients.{
  idle, answered, handle_client_message_ss, client_write, gone,
}
use distributed_document_sys.Storage.Disk.{parent_from, can_write, open_read, backup_path}
use distributed_document_sys.Storage.Edits.Counts.{words_in}
use distributed_document_sys.Protocol.{
  res_error_locked, res_ok_locked, res_ok, res_error_invalid_sentence,
}
use distributed_document_sys.Storage.Document.{sentence, flush_list_to_file}
use distributed_document_sys.Storage.Locks.{Locks, create_lock, init_locks, find_lock}
use distributed_document_sys.Storage.Sessions.Begin.{
  handle_client_write-granted, handle_client_write-unlocked,
}
use distributed_document_sys.Storage.Locks.Exclusive.{
  create_lock-IsExclusive, IsExclusive, init_locks-IsExclusive,
}
use distributed_document_sys.Storage.Sessions.Commit.{
  handle_etirw-committed, IsEnded, handle_etirw-refused,
}
use distributed_document_sys.Storage.Sessions.{
  handle_client_disconnect, values, deref, Storage, ActiveDoc, handle_client_write, find_active_doc,
  sentence_at, handle_etirw, WriteSession, adjust_first,
}
use distributed_document_sys.Base.{
  str_eq, tokens_by, arith, strcmp, List, ℕ, codes, if◌then◌else◌, CString, ◌∷◌, find_first, true,
  ◌<◌, false, ◌==◌, ◌+◌, some, ◌≡◌, none, [], refl,
}
use distributed_document_sys.Storage.Edits.{
  splice, relink, allocate, rebuild, strpbrk, tokens, count_words, EditOperation, has_non_delim,
  SentenceNode, apply_session_edits_to_sentence, insert_tokens, apply_edits, empty_sentences,
  insert_word,
}

program : Unit {0}
unfolding can_write parent_from open_read find_active_doc find_first sentence_at deref adjust_first
    strcmp init_locks find_lock create_lock words_in tokens tokens_by has_non_delim count_words
    insert_word insert_tokens apply_edits strpbrk empty_sentences rebuild allocate relink splice
    apply_session_edits_to_sentence
program = tt

abbrev f : CString
f = codes "notes.txt"

abbrev node : ℕ → List CString → ℕ → SentenceNode
node a ws d = record { address = a; value = sentence ws d }

abbrev first : SentenceNode
first = node 1 (codes "One" ∷ []) b'.'

abbrev second : SentenceNode
second = node 2 (codes "Two" ∷ []) b' '

abbrev fresh : ℕ → ℕ
fresh n = n + 10

abbrev doc : ActiveDoc
doc = record { active = true; filename = f; doc_head = first ∷ second ∷ []; num_users_editing = 2 }

abbrev free_table : Locks
free_table =
    init_locks (λ i. record { active = true; filename = []; sentence_ptr = 0; sock_fd = 0 })

-- Every place is taken, for sentences of another file.
abbrev full_table : Locks
full_table i = record { active = true; filename = []; sentence_ptr = i; sock_fd = 3 }

abbrev session : List EditOperation → ℕ → WriteSession
session edits announced = record {
  active = true;
  doc_index = 0;
  sentence_ptr = 2;
  original_word_count = 1;
  edit_ops = edits;
  virtual_word_count = announced;
}

-- A session on socket 4, in which `edits` were announced as so many words.
abbrev store : Locks → List EditOperation → ℕ → Storage
store locks edits announced = record {
  active_documents = λ i. if i == 0 then doc else record doc { active = false };
  write_sessions = λ i. session edits announced;
  global_locks = locks;
  disk = record { files = λ p. some (codes "One. Two"); is_dir = λ p. str_eq p [] };
  allocated = 0;
}

abbrev insert : ℕ → CString → List EditOperation
insert place content = record { word_index = place; content = content } ∷ []

free_table-IsExclusive : IsExclusive free_table
free_table-IsExclusive = init_locks-IsExclusive _

handle_client_write-granted_example :
    let (reply, s') = handle_client_write fresh 4 f 1 (store free_table [] 0) in
    (reply ≡ res_ok_locked)
    × ((l : ℕ) × (find_lock f 2 s'.global_locks ≡ some l) × ((s'.global_locks l).sock_fd ≡ 4))
    × ((s'.write_sessions 4).sentence_ptr ≡ 2)
    × ((s'.write_sessions 4).active ≡ true)
unfolding program
handle_client_write-granted_example =
    handle_client_write-granted fresh 4 f 1 0 second (store free_table [] 0) refl refl refl 0
      free_table-IsExclusive (omega arith) refl

abbrev locked_table : Locks
locked_table = (create_lock f 2 4 free_table).1

handle_client_write-unlocked_example :
    let (reply, s') = handle_client_write fresh 5 f 1 (store full_table [] 0) in
    (reply ≡ res_ok_locked) × (find_lock f 2 s'.global_locks ≡ none)
unfolding program
handle_client_write-unlocked_example =
    handle_client_write-unlocked fresh 5 f 1 0 second (store full_table [] 0) refl refl refl
      (λ j lt. refl)

handle_etirw-committed_example :
    let s = store free_table (insert 1 (codes "and three")) 2 in
    let new = first ∷ node 10 (codes "Two" ∷ codes "and" ∷ codes "three" ∷ []) b' ' ∷ [] in
    (s' : Storage) × (handle_etirw fresh 4 s ≡ (res_ok ∷ [], s'))
    × IsEnded 4 s s'
    × (s'.disk.files f ≡ some (flush_list_to_file (values new)))
    × (s'.disk.files (backup_path f) ≡ some (codes "One. Two"))
unfolding program
handle_etirw-committed_example =
    handle_etirw-committed fresh 4 (store free_table (insert 1 (codes "and three")) 2)
      free_table-IsExclusive second (insert 1 (codes "and three")) refl refl
      (first ∷ node 10 (codes "Two" ∷ codes "and" ∷ codes "three" ∷ []) b' ' ∷ []) refl
      (codes "One. Two") refl refl refl refl

-- The token ".x" is announced as a word, and adds none.
handle_etirw-refused_example :
    let s = store free_table (insert 1 (codes ".x")) 1 in
    (s' : Storage) × (handle_etirw fresh 4 s ≡ (res_error_invalid_sentence ∷ res_ok ∷ [], s'))
    × IsEnded 4 s s'
    × (s'.disk ≡ s.disk)
    × (1 < 2 → (s'.active_documents 0).doc_head ≡ first ∷ node 10 (codes "Two" ∷ []) b'.' ∷ [])
unfolding program
handle_etirw-refused_example =
    handle_etirw-refused fresh 4 (store free_table (insert 1 (codes ".x")) 1) free_table-IsExclusive
      second (insert 1 (codes ".x")) refl refl (first ∷ node 10 (codes "Two" ∷ []) b'.' ∷ []) refl
      (λ e. omega (arith, e))

abbrev at_rest : Storage
at_rest = store free_table [] 0

-- A client gets a lock, and goes away.
Running-IsExclusive_example :
    IsExclusive
      (handle_client_disconnect 4 (handle_client_write fresh 4 f 1 at_rest).1).global_locks
unfolding program handle_client_message_ss
Running-IsExclusive_example =
    Running-IsExclusive fresh (gone 4 (answered 4 (client_write f 1) _ (idle at_rest) refl))

handle_client_write-regranted_example :
    let s = store locked_table [] 0 in
    (handle_client_write fresh 5 f 1 s ≡ (res_error_locked, s))
    × (let (reply, s') = handle_client_write fresh 5 f 1 (handle_client_disconnect 4 s) in
        (reply ≡ res_ok_locked)
        × ((j : ℕ) × (find_lock f 2 s'.global_locks ≡ some j) × ((s'.global_locks j).sock_fd ≡ 5))
        × ((s'.write_sessions 5).sentence_ptr ≡ 2)
        × ((s'.write_sessions 5).active ≡ true))
unfolding program
handle_client_write-regranted_example =
    handle_client_write-regranted 4 f 1 0 0 second (store locked_table [] 0)
      (create_lock-IsExclusive f 2 4 free_table free_table-IsExclusive) refl refl refl refl refl
      (omega arith) refl refl fresh 5
