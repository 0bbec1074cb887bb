-- ===== src/Client/Transfer.antt =====
-- client/handlers.c: requests with a file name, the tables of metadata, and the reading of a file from
-- its storage server. `format_time` is `strftime` of `localtime`. The terminal shows the bytes of
-- `printf` and `write` in their order.
pub mod Shown
use distributed_document_sys.NameServer.Files.Locate.{at}
use distributed_document_sys.Storage.Sessions.{Storage}
use Prim.Native.String.{String}
use distributed_document_sys.Protocol.{
  enumerator, MessageType, filename_request, max_filename, res_ss_file_ok, res_error_not_found,
  req_client_stream, req_client_read, file_content,
}
use distributed_document_sys.Base.{
  Option, codes, List, ℤ, ℕ, negsuc, pos, ◌++◌, ◌∷◌, zero, some, suc, [], none, CString,
}
use distributed_document_sys.Client.Wire.{
  join, M, ◌>>=◌, ◌>>◌, printf, say, send, Frame, heading, body, recv_header, connect, close,
  strncpy, returned, undefined, advance,
}
use distributed_document_sys.Storage.Stdio.{print_int}

-- `send_filename_request`
unfoldable pub send_filename_request : ℕ → MessageType → CString → M (Unit {0})
send_filename_request sock type filename =
    send sock type (filename_request (strncpy max_filename filename))

-- "%-20s" and the like: blanks up to the width.
unfoldable pub padded : ℕ → CString → CString
padded zero s = s
padded (suc n) [] = b' ' ∷ padded n []
padded (suc n) (c ∷ cs) = c ∷ padded n cs

-- "%d" of an `int` with its sign.
unfoldable pub print_signed : ℤ → CString
print_signed (pos n) = print_int n
print_signed (negsuc n) = b'-' ∷ print_int (suc n)

-- The columns that both tables start with.
unfoldable pub metadata_row :
    (filename owner : CString) (file_size word_count char_count : ℕ) → CString
metadata_row filename owner file_size word_count char_count = join (
    codes "| "
    ∷ padded 20 filename
    ∷ codes " | "
    ∷ padded 12 owner
    ∷ codes " | "
    ∷ padded 6 (print_int file_size)
    ∷ codes " | "
    ∷ padded 6 (print_int word_count)
    ∷ codes " | "
    ∷ padded 6 (print_int char_count)
    ∷ codes " | "
    ∷ [])

unfoldable pub print_metadata_view :
    (ℕ → CString)
    → (filename owner : CString) (file_size word_count char_count last_accessed : ℕ) → M (Unit {0})
print_metadata_view format_time filename owner file_size word_count char_count last_accessed =
    printf (
      metadata_row filename owner file_size word_count char_count
      ∷ format_time last_accessed
      ∷ codes " |\n"
      ∷ [])

abbrev pub rule_view : String
rule_view =
    "-------------------------------------------------------------------------------------------\n"

unfoldable pub print_metadata_header_view : M (Unit {0})
print_metadata_header_view = do
  say rule_view
  say "| Filename             | Owner        | Size   | Words  | Chars  | Last Accessed       |\n"
  say rule_view

unfoldable pub print_metadata_info :
    (ℕ → CString)
    → (filename owner : CString) (file_size word_count char_count last_modified last_accessed : ℕ)
    → M (Unit {0})
print_metadata_info format_time filename owner file_size word_count char_count last_modified
      last_accessed =
    printf (
      metadata_row filename owner file_size word_count char_count
      ∷ format_time last_modified
      ∷ codes " | "
      ∷ format_time last_accessed
      ∷ codes " |\n"
      ∷ [])

abbrev pub rule_info : String
rule_info =
    "----------------------------------------------------------------------------------------------------------------------\n"

unfoldable pub print_metadata_header_info : M (Unit {0})
print_metadata_header_info = do
  say rule_info
  say
      "| Filename             | Owner        | Size   | Words  | Chars  | Last Modified       | Last Accessed       |\n"
  say rule_info

unfoldable pub print_metadata_footer : M (Unit {0})
print_metadata_footer = say rule_info

unfoldable pub connect_to_storage_server : CString → ℕ → M ℕ
connect_to_storage_server ss_ip ss_port = do
  printf (
      codes "  -> Connecting directly to Storage Server at "
      ∷ ss_ip
      ∷ codes ":"
      ∷ print_int ss_port
      ∷ codes "...\n"
      ∷ [])
  connect ss_ip ss_port

-- The bytes that come until the peer closes; none where they are those of another message.
unfoldable pub content_of : List Frame → Option (List ℕ)
content_of [] = some []
content_of (heading t ∷ rest) = none
content_of (body p ∷ rest) = elim p [
  | file_content sent_bytes ↦ elim (content_of rest) [
    | none ↦ none
    | some more ↦ some (sent_bytes ++ more)
  ]
  | _ ↦ none
]

abbrev pub shown : ℕ → Option (List ℕ) → M (Unit {0})
shown sock none w = undefined
shown sock (some received) w =
    returned tt (record (advance sock [] w) { printed = w.printed ++ received })

-- `while ((bytes_recvd = recv(ss_sock, buffer, FILE_BUFFER_SIZE, 0)) > 0) write(...)`
unfoldable pub copy_to_terminal : ℕ → M (Unit {0})
copy_to_terminal sock w = shown sock (content_of (w.incoming sock)) w

-- What both transfers do with the storage server's answer; `what` is "file" or "stream".
unfoldable pub transferred : String → CString → ℕ → Option MessageType → M (Unit {0})
transferred what filename sock none = say "Error: Storage Server disconnected unexpectedly.\n"
transferred what filename sock (some res_ss_file_ok) = do
  printf (codes "--- Start of " ∷ codes what ∷ codes " '" ∷ filename ∷ codes "' ---\n" ∷ [])
  copy_to_terminal sock
  printf (codes "\n--- End of " ∷ codes what ∷ codes " '" ∷ filename ∷ codes "' ---\n" ∷ [])
transferred what filename sock (some res_error_not_found) =
    printf (codes "Error: File '" ∷ filename ∷ codes "' not found on the Storage Server.\n" ∷ [])
transferred what filename sock (some t) = printf (
    codes "Error: Unknown response "
    ∷ print_int (enumerator t)
    ∷ codes " from Storage Server.\n"
    ∷ [])

abbrev pub transfer : String → MessageType → CString → CString → ℕ → M (Unit {0})
transfer what type filename ss_ip ss_port = do
  sock ← connect_to_storage_server ss_ip ss_port
  send_filename_request sock type filename
  t ← recv_header sock
  transferred what filename sock t
  close sock

unfoldable pub handle_read_from_ss : CString → CString → ℕ → M (Unit {0})
handle_read_from_ss = transfer "file" req_client_read

unfoldable pub handle_stream_from_ss : CString → CString → ℕ → M (Unit {0})
handle_stream_from_ss = transfer "stream" req_client_stream
