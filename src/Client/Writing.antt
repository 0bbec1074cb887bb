-- ===== src/Client/Writing.antt =====
-- The write session of a client: `handle_write` of client/client.c and `handle_write_to_ss` of
-- client/handlers.c, whose loop has fuel for each byte that is typed.
pub mod Lost
use distributed_document_sys.Client.Transfer.{send_filename_request, connect_to_storage_server}
use distributed_document_sys.Client.Updates.{
  not_locked, update_line, not_located, save_session, session_opened,
}
use distributed_document_sys.Protocol.{
  read_response, max_filename, client_write_request, Payload, MessageType, req_client_write,
  req_write, res_read_location, res_ok_locked,
}
use distributed_document_sys.Base.{
  length, codes, Option, str_eq, ℤ, ℕ, false, true, zero, some, CString, none, suc,
}
use distributed_document_sys.Client.Fueled.{T, out_of_fuel, lift, finish, ◌>>=◌, ◌>>◌}
use distributed_document_sys.Client.Wire.{
  fault, say, send, recv_header, recv_type, recv_body, close, strncpy,
}
use distributed_document_sys.Client.Input.{read_line, strtok, is_gap, is_newline, atoi}

-- The loop over the lines that are typed; the result is what is left of them.
unfoldable pub write_loop : ℕ → ℕ → MessageType → CString → T CString
write_loop zero sock type typed = out_of_fuel
write_loop (suc fuel) sock type typed = do
  lift (say "(writing)> ")
  elim (read_line 1024 typed) [
    | none ↦ finish typed
    | some (line, rest) ↦ elim (strtok is_gap line).0 [
      | none ↦ write_loop fuel sock type rest
      | some command ↦ elim (str_eq command (codes "ETIRW")) [
        | true ↦ do lift (save_session sock type); finish rest
        | false ↦ do
          t ← lift (update_line sock type command (strtok is_newline (strtok is_gap line).1).0)
          write_loop fuel sock t rest
      ]
    ]
  ]

-- What follows the answer to the request for the lock.
unfoldable pub locked : ℕ → CString → ℤ → CString → Option MessageType → T CString
locked sock filename sentence_num typed (some res_ok_locked) = do
  lift (session_opened filename sentence_num)
  write_loop (suc (length typed)) sock res_ok_locked typed
locked sock filename sentence_num typed t = do lift (not_locked t); finish typed

unfoldable pub handle_write_to_ss : CString → ℤ → CString → CString → ℕ → T CString
handle_write_to_ss filename sentence_num typed ss_ip ss_port = do
  sock ← lift (connect_to_storage_server ss_ip ss_port)
  lift (
      send sock req_client_write
        (client_write_request (strncpy max_filename filename) sentence_num))
  t ← lift (recv_header sock)
  rest ← locked sock filename sentence_num typed t
  lift (close sock)
  finish rest

-- What is finish with the address in an `RES_READ_LOCATION`.
unfoldable pub write_located : CString → ℤ → CString → Payload → T CString
write_located filename sentence_num typed (read_response ss_ip ss_port) =
    handle_write_to_ss filename sentence_num typed ss_ip ss_port
write_located filename sentence_num typed _ = lift fault

unfoldable pub write_answered : ℕ → CString → ℤ → CString → MessageType → T CString
write_answered sock filename sentence_num typed res_read_location = do
  p ← lift (recv_body sock)
  write_located filename sentence_num typed p
write_answered sock filename sentence_num typed t = do lift (not_located filename t); finish typed

unfoldable pub write_requested : ℕ → CString → CString → Option ℤ → T CString
write_requested sock typed filename none = lift fault
write_requested sock typed filename (some sentence_num) = do
  lift (send_filename_request sock req_write filename)
  t ← lift (recv_type sock)
  write_answered sock filename sentence_num typed t

-- Nothing is asked of the naming server before both words are there.
unfoldable pub handle_write : ℕ → CString → CString → T CString
handle_write sock args typed =
    let usage = (lift (say "Usage: WRITE <filename> <sentence_number>\n") >> finish typed) in
    elim (strtok is_gap args).0 [
      | none ↦ usage
      | some filename ↦ elim (strtok is_gap (strtok is_gap args).1).0 [
        | none ↦ usage
        | some sentence_str ↦ write_requested sock typed filename (atoi sentence_str)
      ]
    ]
