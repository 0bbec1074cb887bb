-- ===== src/NameServer/Relays.antt =====
-- name/handlers.c: `handle_req_list`, `handle_req_check_requests`, `handle_req_createfolder`,
-- `handle_req_viewfolder`, and the four checkpoint handlers, which relay to the storage server.
pub mod Guarded
pub mod Listed
use distributed_document_sys.NameServer.State.{
  AccessRequest, Server, done, max_access_requests, Handled, FileMetadata,
}
use distributed_document_sys.Base.{
  str_eq, length, not, List, Bool, Option, ℕ, ◌++◌, ◌==◌, is_none, ◌&&◌, suc, none, ◌∷◌, count_from,
  false, zero, CString, true, [], if◌then◌else◌, some,
}
use distributed_document_sys.NameServer.Views.{send_items}
use distributed_document_sys.NameServer.Catalog.{
  user_of, is_owner, find_available_ss, find_slot, has_write_access, with_slot, has_read_access,
}
use distributed_document_sys.Protocol.{
  is_ok, sent, Sent, listcheckpoints_request, res_error, checkpoint_request, simple_header,
  folder_request, res_checkpoint_list, request_list, res_view_hdr, res_ss_file_ok,
  req_ss_viewcheckpoint, req_ss_listcheckpoints, res_view_item_short, req_ss_revert, res_ok,
  Payload, view_hdr, file_content, max_files_in_system, MessageType, res_list_hdr, view_item_short,
  req_ss_checkfolder, req_ss_checkpoint, user_list, checkpoint_list, res_request_list,
  req_ss_createfolder, RequestItem, max_connections,
}

-- The socket numbers that pass a test, from i on.
unfoldable pub collect {ℓ} : {A : Type ℓ} → (ℕ → Bool) → (ℕ → A) → ℕ → ℕ → List A
collect p f zero i = []
collect p f (suc n) i = let rest = collect p f n (suc i) in if p i then f i ∷ rest else rest

unfoldable pub handle_req_list : ℕ → Server → Handled
handle_req_list sock s =
    let p = λ (i : ℕ). (s.client_state i).active in
    done s (
      sent sock res_list_hdr (
        user_list (count_from p max_connections 0)
          (collect p (λ i. (s.client_state i).username) max_connections 0))
      ∷ [])

-- `reply` is the storage server's answer.
unfoldable pub handle_req_createfolder : ℕ → CString → MessageType → Server → Handled
handle_req_createfolder sock folder reply s = elim (find_available_ss s) [
  | none ↦ done s (simple_header sock res_error ∷ [])
  | some ss ↦ done s (
      sent ss req_ss_createfolder (folder_request folder)
      ∷ simple_header sock (if is_ok reply then res_ok else res_error)
      ∷ [])
]

-- The servers are asked one after the other until one has the folder; `has_folder` is what they
-- answer.
unfoldable pub ask_servers : (ℕ → Bool) → CString → Server → ℕ → ℕ → Bool × List Sent
ask_servers has_folder folder s zero i = (false, [])
ask_servers has_folder folder s (suc n) i =
    let (found, out) = ask_servers has_folder folder s n (suc i) in
    let ask = sent i req_ss_checkfolder (folder_request folder) in
    if (s.ss_state i).active
    then if has_folder i then (true, ask ∷ []) else (found, ask ∷ out)
    else (found, out)

-- What follows the prefix, if the name has it.
unfoldable pub strip_prefix : CString → CString → Option CString
strip_prefix [] name = some name
strip_prefix (c ∷ cs) [] = none
strip_prefix (c ∷ cs) (d ∷ ds) = let rest = strip_prefix cs ds in if c == d then rest else none

abbrev pub folder_prefix : CString → CString
folder_prefix folder = folder ++ b'/' ∷ []

unfoldable pub in_folder : ℕ → CString → Server → ℕ → Bool
in_folder sock folder s i =
    let meta = s.file_catalog i in
    meta.active
    && (not (is_none (strip_prefix (folder_prefix folder) meta.filename))
        && has_read_access meta (user_of s sock))

unfoldable pub folder_item : ℕ → CString → FileMetadata → Sent
folder_item sock folder meta = sent sock res_view_item_short (
    view_item_short
      (elim (strip_prefix (folder_prefix folder) meta.filename) [ none ↦ [] | some name ↦ name ]))

unfoldable pub handle_req_viewfolder : ℕ → CString → (ℕ → Bool) → Server → Handled
handle_req_viewfolder sock folder has_folder s =
    let (found, asked) = ask_servers has_folder folder s max_connections 0 in
    let p = in_folder sock folder s in
    done s (
      asked
      ++ (if found
          then sent sock res_view_hdr (view_hdr (count_from p max_files_in_system 0))
            ∷ send_items p (λ i. folder_item sock folder (s.file_catalog i)) max_files_in_system 0
          else simple_header sock res_error ∷ []))

-- The request goes to the file's server, and its answer to the client, if the client may.
unfoldable pub relay :
    (FileMetadata → CString → Bool) → ℕ → CString → MessageType → Payload → Sent → Server → Handled
relay may sock name type payload answer s₀ = with_slot name s₀ λ found s. elim found [
  | none ↦ done s (simple_header sock res_error ∷ [])
  | some slot ↦
      let meta = s.file_catalog slot in
      if may meta (user_of s sock)
      then done s (sent meta.ss_sock_fd type payload ∷ answer ∷ [])
      else done s (simple_header sock res_error ∷ [])
]

unfoldable pub handle_req_checkpoint : ℕ → CString → CString → MessageType → Server → Handled
handle_req_checkpoint sock name tag reply =
    relay has_write_access sock name req_ss_checkpoint (checkpoint_request name tag)
      (simple_header sock reply)

unfoldable pub handle_req_revert : ℕ → CString → CString → MessageType → Server → Handled
handle_req_revert sock name tag reply =
    relay has_write_access sock name req_ss_revert (checkpoint_request name tag)
      (simple_header sock reply)

-- `content` is what the storage server sends after `RES_SS_FILE_OK`.
abbrev pub content_answer : ℕ → Option (List ℕ) → MessageType → Sent
content_answer sock (some content) reply = sent sock res_ss_file_ok (file_content content)
content_answer sock none reply = simple_header sock reply

unfoldable pub handle_req_viewcheckpoint :
    ℕ → CString → CString → Option (List ℕ) → MessageType → Server → Handled
handle_req_viewcheckpoint sock name tag content reply =
    relay has_read_access sock name req_ss_viewcheckpoint (checkpoint_request name tag)
      (content_answer sock content reply)

-- `items` is what the storage server sends after `RES_CHECKPOINT_LIST`, with their number.
abbrev pub items_answer : ℕ → Option (List (CString × ℕ)) → MessageType → Sent
items_answer sock (some items) reply =
    sent sock res_checkpoint_list (checkpoint_list (length items) items)
items_answer sock none reply = simple_header sock reply

unfoldable pub handle_req_listcheckpoints :
    ℕ → CString → Option (List (CString × ℕ)) → MessageType → Server → Handled
handle_req_listcheckpoints sock name items reply =
    relay has_read_access sock name req_ss_listcheckpoints (listcheckpoints_request name)
      (items_answer sock items reply)

-- `slot != -1 && strcmp(file_catalog[slot].owner, client_state[sock_fd].username) == 0`
abbrev pub is_owned : CString → (ℕ → FileMetadata) → Option ℕ → Bool
is_owned user catalog none = false
is_owned user catalog (some slot) = str_eq (catalog slot).owner user

abbrev pub request_item : AccessRequest → RequestItem
request_item r = record {
  request_id = r.request_id;
  filename = r.filename;
  requesting_user = r.requesting_user;
  requested_perm = r.requested_perm;
  timestamp = r.timestamp;
}

-- A lookup for each active request; those of the client's files are taken. The lookups may fill the
-- cache.
unfoldable pub owned_requests : ℕ → ℕ → ℕ → Server → List RequestItem × Server
owned_requests sock zero i s = ([], s)
owned_requests sock (suc n) i s =
    let r = s.access_requests i in
    let (found, looked_up) = find_slot r.filename s in
    let s' = if r.active then looked_up else s in
    let (rest, t) = owned_requests sock n (suc i) s' in
    (
      if r.active && is_owned (user_of s' sock) s'.file_catalog found
          then request_item r ∷ rest
          else rest,
      t,
    )

-- One loop counts, and another one sends.
unfoldable pub handle_req_check_requests : ℕ → Server → Handled
handle_req_check_requests sock s =
    let (counted, s') = owned_requests sock max_access_requests 0 s in
    let (items, s'') = owned_requests sock max_access_requests 0 s' in
    done s'' (sent sock res_request_list (request_list (length counted) items) ∷ [])
