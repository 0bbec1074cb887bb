-- ===== src/Storage/Clients.antt =====
-- The storage server at work for its clients: `handle_client_message_ss`, `handle_client_read` and
-- `handle_client_stream` of storage/handlers.c, and the states that they lead to.
pub mod Reached
use distributed_document_sys.Storage.Disk.{Disk}
use distributed_document_sys.Storage.Locks.{init_locks}
use distributed_document_sys.Protocol.{MessageType}
use distributed_document_sys.Base.{
  false, true, Bool, map, List, Option, ℕ, [], none, ◌≡◌, some, ◌∷◌, if◌then◌else◌, CString,
}
use distributed_document_sys.Storage.Sessions.{
  Storage, handle_client_disconnect, handle_write_update, handle_client_write, handle_etirw,
  write_closes, etirw_closes,
}
use distributed_document_sys.Storage.Statistics.{
  Output, header, handle_stream_file, handle_send_file,
}

-- The requests of clients, with their messages.
pub data ClientRequest : Type 0 where
  client_read client_stream : (filename : CString) → ClientRequest
  client_write : (filename : CString) (sentence_num : ℕ) → ClientRequest
  write_update : (word_index : ℕ) (content : CString) → ClientRequest
  etirw : ClientRequest

-- What a handler leaves: what is sent to the client, whether its socket is closed and cleared in the
-- set, and the storage.
pub record Answer : Type 0 where
  pub sent : List Output
  pub closes : Bool
  pub after : Storage

abbrev pub one_reply : Bool → MessageType × Storage → Answer
one_reply closes (reply, s) = record { sent = header reply ∷ []; closes = closes; after = s }

unfoldable pub handle_client_read : CString → Storage → Answer
handle_client_read f s = record { sent = handle_send_file f s.disk; closes = true; after = s }

unfoldable pub handle_client_stream : CString → Storage → Answer
handle_client_stream f s = record { sent = handle_stream_file f s.disk; closes = true; after = s }

-- A session goes on after an update, refused or not.
abbrev pub updated : Option (MessageType × Storage) → Option Answer
updated none = none
updated (some r) = some (one_reply false r)

-- Without a session there is no answer.
abbrev pub ignored : Storage → Answer
ignored s = record { sent = []; closes = false; after = s }

-- `none` as for `handle_write_update`. `fresh` gives the addresses of `malloc`.
unfoldable pub handle_client_message_ss : (ℕ → ℕ) → ℕ → ClientRequest → Storage → Option Answer
handle_client_message_ss fresh sock (client_read f) s = some (handle_client_read f s)
handle_client_message_ss fresh sock (client_stream f) s = some (handle_client_stream f s)
handle_client_message_ss fresh sock (client_write f k) s =
    let r = handle_client_write fresh sock f k s in some (one_reply (write_closes r.0) r)
handle_client_message_ss fresh sock (write_update word_index content) s =
    if (s.write_sessions sock).active
    then updated (handle_write_update sock word_index content s)
    else some (ignored s)
handle_client_message_ss fresh sock etirw s =
    if (s.write_sessions sock).active
    then some (record {
      sent = map header (handle_etirw fresh sock s).0;
      closes = etirw_closes sock s;
      after = (handle_etirw fresh sock s).1;
    })
    else some (ignored s)

-- The states that a run can be in, from free locks: by requests of clients, by their
-- disconnections, and by what the naming server has done to the files.
pub data Running (fresh : ℕ → ℕ) : Storage → Type 0 where
  idle : (s : Storage) → Running fresh (record s { global_locks = init_locks s.global_locks })
  answered :
      {s : Storage} (sock : ℕ) (q : ClientRequest) (a : Answer)
      → Running fresh s
      → handle_client_message_ss fresh sock q s ≡ some a
      → Running fresh a.after
  gone :
      {s : Storage} (sock : ℕ) → Running fresh s → Running fresh (handle_client_disconnect sock s)
  files : {s : Storage} (d : Disk) → Running fresh s → Running fresh (record s { disk = d })
