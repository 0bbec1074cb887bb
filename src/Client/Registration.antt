-- ===== src/Client/Registration.antt =====
-- `register_with_name_server` of client/handlers.c.
use distributed_document_sys.Base.{codes, ℕ, CString, ◌∷◌, []}
use distributed_document_sys.Protocol.{
  MessageType, max_username, res_ok, req_client_register, client_register_request,
}
use distributed_document_sys.Client.Wire.{
  M, pure, error_exit, ◌>>=◌, ◌>>◌, printf, send, recv_over, connect, strncpy,
}

abbrev pub nm_port : ℕ
nm_port = 8080

-- What `register_with_name_server` does with the answer.
welcomed : ℕ → MessageType → M ℕ
welcomed sock res_ok = pure sock
welcomed sock _ = error_exit

unfoldable pub register_with_name_server : CString → CString → M ℕ
unfolding welcomed
register_with_name_server nm_ip username = do
  sock ← connect nm_ip nm_port
  printf (codes "Connected to Name Server at " ∷ nm_ip ∷ codes "...\n" ∷ [])
  send sock req_client_register (client_register_request (strncpy max_username username))
  t ← recv_over req_client_register sock
  welcomed sock t
