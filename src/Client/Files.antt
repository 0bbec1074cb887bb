-- ===== src/Client/Files.antt =====
-- client/client.c: the commands on files, and the lists of users and files. `args` is what `strtok`
-- goes on with.
use distributed_document_sys.Protocol.{
  level, read_only, res_view_item_long, res_info, req_undo, req_info, view_item_short,
  res_error_not_found, full_metadata, req_read, res_error_access_denied, res_read_location,
  view_hdr, res_error_file_exists, view_request, req_list, Payload, read_response, res_ok,
  req_create, AccessEntry, req_delete, res_list_hdr, MessageType, req_view, req_stream,
  res_view_item_short, user_list,
}
use distributed_document_sys.Base.{
  strstr, List, ℕ, codes, suc, ◌==◌, [], ◌∷◌, if◌then◌else◌, some, ◌-◌, CString, zero, none,
}
use distributed_document_sys.Client.Wire.{
  M, pure, fault, ◌>>=◌, ◌>>◌, printf, say, send, send_simple_header, recv_type, recv_over,
  recv_body,
}
use distributed_document_sys.Client.Transfer.{
  send_filename_request, print_metadata_view, print_metadata_header_view, print_metadata_info,
  print_metadata_header_info, print_metadata_footer, handle_read_from_ss, handle_stream_from_ss,
}
use distributed_document_sys.Client.Input.{strtok, is_gap}
use distributed_document_sys.Storage.Stdio.{print_int}
use Prim.Native.String.{String}

-- A command with one word; `usage` is what is printed where it is missing.
abbrev pub with_word : CString → String → (CString → M (Unit {0})) → M (Unit {0})
with_word args usage run = elim (strtok is_gap args).0 [
  | none ↦ say usage
  | some filename ↦ run filename
]

-- A command with two words.
abbrev pub with_words : CString → String → (CString → CString → M (Unit {0})) → M (Unit {0})
with_words args usage run = elim (strtok is_gap args).0 [
  | none ↦ say usage
  | some first ↦ elim (strtok is_gap (strtok is_gap args).1).0 [
    | none ↦ say usage
    | some second ↦ run first second
  ]
]

-- "<before>'<name>'<after>"
abbrev pub say_of : String → CString → String → M (Unit {0})
say_of before name after = printf (codes before ∷ name ∷ codes after ∷ [])

created : CString → MessageType → M (Unit {0})
created filename res_ok = say_of "File '" filename "' created successfully!\n"
created filename res_error_file_exists = say_of "Error: File '" filename "' already exists.\n"
created filename _ = say "Error: Could not create file.\n"

unfoldable pub handle_create : ℕ → CString → M (Unit {0})
unfolding created
handle_create sock args = with_word args "Usage: CREATE <filename>\n" λ filename. do
  send_filename_request sock req_create filename
  t ← recv_type sock
  created filename t

-- What is done with the address in an `RES_READ_LOCATION`.
abbrev pub located_at : (CString → ℕ → M (Unit {0})) → Payload → M (Unit {0})
located_at go p = elim p [ read_response ss_ip ss_port ↦ go ss_ip ss_port | _ ↦ fault ]

unfoldable pub read_answered : ℕ → CString → MessageType → M (Unit {0})
read_answered sock filename res_read_location = do
  p ← recv_body sock
  located_at (handle_read_from_ss filename) p
read_answered sock filename res_error_not_found = say_of "Error: File '" filename "' not found.\n"
read_answered sock filename res_error_access_denied = say "Error: Access denied.\n"
read_answered sock filename _ = say "Error: Could not read file.\n"

unfoldable pub handle_read : ℕ → CString → M (Unit {0})
unfolding read_answered
handle_read sock args = with_word args "Usage: READ <filename>\n" λ filename. do
  send_filename_request sock req_read filename
  t ← recv_type sock
  read_answered sock filename t

users_listed : ℕ → List CString → M (Unit {0})
users_listed count [] = if count == 0 then pure tt else fault
users_listed count (user ∷ users) =
    let rest = users_listed (count - 1) users in
    if count == 0 then fault else (printf (codes "  - " ∷ user ∷ codes "\n" ∷ []) >> rest)

list_answered : ℕ → MessageType → M (Unit {0})
unfolding users_listed
list_answered sock res_list_hdr = do
  p ← recv_body sock
  elim p [
    | user_list user_count items ↦ do
      printf (codes "--- Registered Users (" ∷ print_int user_count ∷ codes ") ---\n" ∷ [])
      users_listed user_count items
    | _ ↦ fault
  ]
list_answered sock _ = pure tt

unfoldable pub handle_list : ℕ → M (Unit {0})
unfolding list_answered
handle_list sock = do send_simple_header sock req_list; t ← recv_type sock; list_answered sock t

deleted : CString → MessageType → M (Unit {0})
deleted filename res_ok = say_of "File '" filename "' deleted successfully.\n"
deleted filename res_error_not_found = say "Error: File not found.\n"
deleted filename res_error_access_denied = say "Error: Access denied (you are not the owner).\n"
deleted filename _ = say "Error: Could not delete file.\n"

unfoldable pub handle_delete : ℕ → CString → M (Unit {0})
unfolding deleted
handle_delete sock args = with_word args "Usage: DELETE <filename>\n" λ filename. do
  send_filename_request sock req_delete filename
  t ← recv_type sock
  deleted filename t

undone : CString → MessageType → M (Unit {0})
undone filename res_ok = say_of "Undo successful for '" filename "'.\n"
undone filename res_error_not_found = say "Error: File not found.\n"
undone filename res_error_access_denied = say "Error: Access denied.\n"
undone filename _ = say "Error: Could not undo file.\n"

unfoldable pub handle_undo : ℕ → CString → M (Unit {0})
unfolding undone
handle_undo sock args = with_word args "Usage: UNDO <filename>\n" λ filename. do
  send_filename_request sock req_undo filename
  t ← recv_type sock
  undone filename t

unfoldable pub stream_answered : ℕ → CString → MessageType → M (Unit {0})
stream_answered sock filename res_read_location = do
  p ← recv_body sock
  located_at (handle_stream_from_ss filename) p
stream_answered sock filename res_error_not_found = say_of "Error: File '" filename "' not found.\n"
stream_answered sock filename _ = say "Error: Could not stream file.\n"

unfoldable pub handle_stream : ℕ → CString → M (Unit {0})
unfolding stream_answered
handle_stream sock args = with_word args "Usage: STREAM <filename>\n" λ filename. do
  send_filename_request sock req_stream filename
  t ← recv_type sock
  stream_answered sock filename t

module _ (format_time : ℕ → CString) where
  -- The body of an item, by the type in the header; another type has none that is read.
  unfoldable pub view_item_read : ℕ → MessageType → M (Unit {0})
  view_item_read sock res_view_item_short = do
    p ← recv_body sock
    elim p [
      | view_item_short filename ↦ printf (codes "  " ∷ filename ∷ codes "\n" ∷ [])
      | _ ↦ fault
    ]
  view_item_read sock res_view_item_long = do
    p ← recv_body sock
    elim p [
      | full_metadata filename owner file_size word_count char_count last_modified last_accessed
            access_list ↦
          print_metadata_view format_time filename owner file_size word_count char_count
            last_accessed
      | _ ↦ fault
    ]
  view_item_read sock _ = pure tt

  -- `type` is the header's before the read.
  unfoldable pub view_items_read : ℕ → ℕ → MessageType → M (Unit {0})
  unfolding view_item_read
  view_items_read sock zero type = pure tt
  view_items_read sock (suc n) type = do
    t ← recv_over type sock
    view_item_read sock t
    view_items_read sock n t

  unfoldable pub handle_view : ℕ → CString → M (Unit {0})
  unfolding view_items_read
  handle_view sock args =
      let flag : CString = elim (strtok is_gap args).0 [ none ↦ [] | some word ↦ word ] in
      let flag_a = strstr flag (codes "a") in
      let flag_l = strstr flag (codes "l") in
      do
        send sock req_view (view_request flag_a flag_l)
        t ← recv_over req_view sock
        p ← recv_body sock
        elim p [
          | view_hdr file_count ↦ do
            if flag_l
                then print_metadata_header_view
                else printf (codes "--- Files (" ∷ print_int file_count ∷ codes ") ---\n" ∷ [])
            view_items_read sock file_count t
            if flag_l then print_metadata_footer else pure tt
          | _ ↦ fault
        ]

  access_shown : List AccessEntry → M (Unit {0})
  access_shown [] = pure tt
  access_shown (e ∷ es) = do
    printf (
        codes "  - "
        ∷ e.username
        ∷ codes " ("
        ∷ (if level e.permission == level read_only then codes "Read" else codes "Read/Write")
        ∷ codes ")\n"
        ∷ [])
    access_shown es

  access_list_shown : List AccessEntry → M (Unit {0})
  unfolding access_shown
  access_list_shown [] = say "Access List: (empty)\n"
  access_list_shown (e ∷ es) = say "Access List:\n" >> access_shown (e ∷ es)

  info_answered : ℕ → MessageType → M (Unit {0})
  unfolding access_list_shown
  info_answered sock res_info = do
    p ← recv_body sock
    elim p [
      | full_metadata filename owner file_size word_count char_count last_modified last_accessed
            access_list ↦
          do
            print_metadata_header_info
            print_metadata_info format_time filename owner file_size word_count char_count
                last_modified last_accessed
            print_metadata_footer
            access_list_shown access_list
      | _ ↦ fault
    ]
  info_answered sock res_error_not_found = say "Error: File not found.\n"
  info_answered sock res_error_access_denied = say "Error: Access denied.\n"
  info_answered sock _ = pure tt

  unfoldable pub handle_info : ℕ → CString → M (Unit {0})
  unfolding info_answered
  handle_info sock args = with_word args "Usage: INFO <filename>\n" λ filename. do
    send_filename_request sock req_info filename
    t ← recv_type sock
    info_answered sock t
