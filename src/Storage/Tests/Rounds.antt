-- ===== src/Storage/Tests/Rounds.antt =====
-- Rounds of the storage server's loop on concrete states, and the theorem on them applied.
use distributed_document_sys.Storage.Locks.Exclusive.{IsExclusive}
use distributed_document_sys.Storage.Loop.{
  Round, Loop, main_start, visit_from, visit, receive, watch, close_socket,
}
use distributed_document_sys.Storage.Loop.Looping.{
  Looping, booted, turned, IsWatched, Looping-IsExclusive,
}
use distributed_document_sys.Storage.Clients.{
  client_read, handle_client_read, handle_client_message_ss,
}
use distributed_document_sys.Storage.Sessions.{Storage}
use distributed_document_sys.Storage.Start.{initialise}
use distributed_document_sys.Storage.Metadata.{MetadataFile}
use distributed_document_sys.Storage.Statistics.{handle_send_file}
use distributed_document_sys.Base.{
  update, str_eq, codes, ℕ, List, CString, none, some, false, true, ◌==◌, ◌+◌, ◌∷◌, [], refl,
}

abbrev fresh : ℕ → ℕ
fresh n = n + 10

abbrev stamp : CString → ℕ × ℕ
stamp p = (0, 0)

abbrev listing : CString → List CString
listing p = []

abbrev off : Storage
off = record {
  active_documents =
      λ i. record { active = false; filename = []; doc_head = []; num_users_editing = 0 };
  write_sessions = λ i. record {
    active = false;
    doc_index = 0;
    sentence_ptr = 0;
    original_word_count = 0;
    edit_ops = [];
    virtual_word_count = 0;
  };
  global_locks = λ i. record { active = false; filename = []; sentence_ptr = 0; sock_fd = 0 };
  disk = record { files = λ p. some (codes "One. Two"); is_dir = λ p. str_eq p [] };
  allocated = 0;
}

-- The naming server's socket is 3, the listener 4; a client connects, and reads a file.
abbrev connecting : Round
connecting = record {
  readable = λ k. k == 4;
  accepted = some 5;
  asked = none;
  received = λ _. none;
}

abbrev table : MetadataFile
table = record { content = none; writable = true }

abbrev connected : Loop
connected = record {
  storage = initialise off;
  metadata = table;
  master_set = update (update (λ k. k == 3) 4 true) 5 true;
  fdmax = 5;
  open_sockets = update (update (λ k. k == 3) 4 true) 5 true;
}

abbrev reading : Round
reading = record {
  readable = λ k. k == 5;
  accepted = none;
  asked = none;
  received = λ _. some (client_read (codes "notes.txt"));
}

-- The client has been sent the file, and its socket is closed.
abbrev read : Loop
read = record connected {
  master_set = update connected.master_set 5 false;
  open_sockets = update connected.open_sockets 5 false;
}

read-Looping : Looping fresh stamp listing 3 4 8 read
unfolding main_start visit_from visit receive watch close_socket handle_client_message_ss
    handle_client_read initialise
read-Looping =
    turned reading ((5, handle_send_file (codes "notes.txt") off.disk) ∷ [])
      (turned connecting [] (booted off table) refl) refl

Looping-IsExclusive_example : IsExclusive read.storage.global_locks × IsWatched 3 4 read
Looping-IsExclusive_example = Looping-IsExclusive fresh stamp listing 3 4 8 read-Looping
