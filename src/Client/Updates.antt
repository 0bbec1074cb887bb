-- ===== src/Client/Updates.antt =====
-- client/handlers.c: the steps of `handle_write_to_ss` that read nothing of what is typed. A `recv`
-- that fails is one whose peer has closed the connection.
use distributed_document_sys.Protocol.{
  enumerator, res_error_invalid_word, write_update_request, res_error, res_error_not_found,
  res_error_invalid_sentence, res_error_locked, max_word_content, res_ok, MessageType, req_etirw,
  req_write_update, res_error_access_denied,
}
use distributed_document_sys.Client.Transfer.{print_signed}
use distributed_document_sys.Storage.Stdio.{print_int}
use distributed_document_sys.Base.{Option, ℤ, ℕ, codes, none, CString, [], some, ◌∷◌}
use distributed_document_sys.Client.Wire.{
  M, pure, fault, ◌>>=◌, ◌>>◌, say, printf, send, send_simple_header, recv_over, strncpy,
}
use distributed_document_sys.Client.Input.{atoi}
use distributed_document_sys.Client.Files.{say_of}

saved : MessageType → M (Unit {0})
saved res_ok = say "Write successful!\n"
saved res_error = say "Error: Write failed to commit. Check word indices are valid.\n"
saved t = printf (
    codes "Error: Write failed to commit (response " ∷ print_int (enumerator t) ∷ codes ").\n" ∷ [])

-- `type` is what `header` holds from the last answer.
unfoldable pub save_session : ℕ → MessageType → M (Unit {0})
unfolding saved
save_session sock type = do send_simple_header sock req_etirw; t ← recv_over type sock; saved t

recorded : ℤ → MessageType → M (Unit {0})
recorded word_index res_error = printf (
    codes "Error: Word index "
    ∷ print_signed word_index
    ∷ codes " is out of bounds. Please try again.\n"
    ∷ [])
recorded word_index res_error_invalid_word = say "Error: Word index out of range.\n"
recorded word_index res_ok = say "Update recorded.\n"
recorded word_index t =
    printf (codes "Error: Update failed (response " ∷ print_int (enumerator t) ∷ codes ").\n" ∷ [])

-- The type in the header after the update.
update_sent : ℕ → CString → Option ℤ → M MessageType
unfolding recorded
update_sent sock content none = fault
update_sent sock content (some word_index) = do
  send sock req_write_update (write_update_request word_index (strncpy max_word_content content))
  t ← recv_over req_write_update sock
  recorded word_index t
  pure t

-- One line that is not empty and not ETIRW.
unfoldable pub update_line : ℕ → MessageType → CString → Option CString → M MessageType
unfolding update_sent
update_line sock type command none = do say "Usage: <word_index> <content>\n"; pure type
update_line sock type command (some content) = update_sent sock content (atoi command)

unfoldable pub session_opened : CString → ℤ → M (Unit {0})
session_opened filename sentence_num = do
  printf (
      codes "Lock acquired for '"
      ∷ filename
      ∷ codes "' (sent "
      ∷ print_signed sentence_num
      ∷ codes "). Enter <word_index> <content>.\n"
      ∷ [])
  say "Type 'ETIRW' to save and exit.\n"

unfoldable pub not_locked : Option MessageType → M (Unit {0})
not_locked none = say "Error: SS disconnected while waiting for lock.\n"
not_locked (some res_error_locked) = say "Error: Sentence is locked by another user.\n"
not_locked (some res_error_invalid_sentence) = say "Error: Sentence index out of range.\n"
not_locked (some t) = printf (
    codes "Error: Failed to acquire lock (unknown response "
    ∷ print_int (enumerator t)
    ∷ codes ").\n"
    ∷ [])

unfoldable pub not_located : CString → MessageType → M (Unit {0})
not_located filename res_error_not_found = say_of "Error: File '" filename "' not found.\n"
not_located filename res_error_access_denied = say "Error: Access denied.\n"
not_located filename _ = say "Error: Could not write to file (NM error).\n"
