-- ===== src/Client/Access.antt =====
-- client/client.c: the commands that grant, take away and ask for access.
use Prim.Native.String.{String}
use distributed_document_sys.Base.{
  codes, ℕ, str_eq, Option, [], ◌∷◌, if◌then◌else◌, CString, none, some,
}
use distributed_document_sys.Protocol.{
  PermissionLevel, requested_access, access_request, max_filename, req_add_access, res_ok,
  read_write, read_only, req_rem_access, max_username, MessageType, res_error_access_denied,
  res_error_not_found, req_request_access,
}
use distributed_document_sys.Client.Wire.{M, ◌>>=◌, ◌>>◌, say, send, recv_over, strncpy}
use distributed_document_sys.Client.Files.{with_word, say_of, with_words}
use distributed_document_sys.Client.Input.{strtok, is_gap, is_newline, skip_spaces, cut_spaces}

-- The rest of the line as a user's name, without the spaces around it; none where nothing is left.
unfoldable pub user_name : Option CString → Option CString
user_name none = none
user_name (some user) = elim (cut_spaces (skip_spaces user)) [ [] ↦ none | c ∷ cs ↦ some (c ∷ cs) ]

-- "-W" is write, all else is read.
abbrev pub permission_of : CString → PermissionLevel
permission_of flag = if str_eq flag (codes "-W") then read_write else read_only

unfoldable pub access_added : MessageType → M (Unit {0})
access_added res_ok = say "Access granted.\n"
access_added res_error_access_denied = say "Error: Access denied (you are not the owner).\n"
access_added _ = say "Error: Could not add access.\n"

abbrev pub add_access_usage : String
add_access_usage = "Usage: ADDACCESS -R|-W <filename> <username>\n"

unfoldable pub add_access_to : ℕ → CString → CString → Option CString → M (Unit {0})
add_access_to sock flag filename none = say add_access_usage
add_access_to sock flag filename (some user) = do
  send sock req_add_access (
      access_request (strncpy max_filename filename) (strncpy max_username user)
        (permission_of flag))
  t ← recv_over req_add_access sock
  access_added t

unfoldable pub handle_add_access : ℕ → CString → M (Unit {0})
handle_add_access sock args = with_words args add_access_usage λ flag filename.
    let rest = (strtok is_gap (strtok is_gap args).1).1 in
    add_access_to sock flag filename (user_name (strtok is_newline rest).0)

unfoldable pub access_removed : MessageType → M (Unit {0})
access_removed res_ok = say "Access removed.\n"
access_removed res_error_access_denied = say "Error: Access denied (you are not the owner).\n"
access_removed _ = say "Error: Could not remove access.\n"

abbrev pub rem_access_usage : String
rem_access_usage = "Usage: REMACCESS <filename> <username>\n"

-- The level in the request is not written: `unwritten` is what the memory holds there.
unfoldable pub rem_access_to : PermissionLevel → ℕ → CString → Option CString → M (Unit {0})
rem_access_to unwritten sock filename none = say rem_access_usage
rem_access_to unwritten sock filename (some user) = do
  send sock req_rem_access
      (access_request (strncpy max_filename filename) (strncpy max_username user) unwritten)
  t ← recv_over req_rem_access sock
  access_removed t

unfoldable pub handle_rem_access : PermissionLevel → ℕ → CString → M (Unit {0})
handle_rem_access unwritten sock args = with_word args rem_access_usage λ filename.
    rem_access_to unwritten sock filename (user_name (strtok is_newline (strtok is_gap args).1).0)

unfoldable pub access_requested : CString → MessageType → M (Unit {0})
access_requested filename res_ok = say_of "Access request sent to the owner of '" filename "'.\n"
access_requested filename res_error_not_found = say_of "Error: File '" filename "' not found.\n"
access_requested filename _ = say "Error: Could not send access request.\n"

unfoldable pub handle_req_access : ℕ → CString → CString → M (Unit {0})
handle_req_access sock username args =
    with_words args "Usage: REQACCESS -R|-W <filename>\n" λ flag filename. do
      send sock req_request_access (
          requested_access (strncpy max_filename filename) (strncpy max_username username)
            (permission_of flag))
      t ← recv_over req_request_access sock
      access_requested filename t
