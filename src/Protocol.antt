-- ===== src/Protocol.antt =====
-- protocol/protocol.h: the constants, permission levels and messages that the servers share.
-- A field of n bytes holds a string of at most n - 1 bytes, so a copy by `strncpy` between buffers
-- of one size is not written out.
use distributed_document_sys.Base.{ℕ, ℤ, Bool, true, false, List, CString}

abbrev pub max_username : ℕ
max_username = 50

abbrev pub max_filename : ℕ
max_filename = 100

abbrev pub max_word_content : ℕ
max_word_content = 100

abbrev pub max_checkpoint_tag : ℕ
max_checkpoint_tag = 64

abbrev pub max_files_per_ss : ℕ
max_files_per_ss = 100

abbrev pub max_files_in_system : ℕ
max_files_in_system = 1024

abbrev pub max_permissions_per_file : ℕ
max_permissions_per_file = 50

-- `FD_SETSIZE`
abbrev pub max_connections : ℕ
max_connections = 1024

pub data PermissionLevel : Type 0 where
  no_perm read_only read_write : PermissionLevel

-- The numbers of the enumerators, by which the code compares levels.
abbrev pub level : PermissionLevel → ℕ
level no_perm = 0
level read_only = 1
level read_write = 2

pub record AccessEntry : Type 0 where
  pub username : CString
  pub permission : PermissionLevel

pub data MessageType : Type 0 where
  req_client_register req_ss_register req_ss_file_item res_ok res_error : MessageType
  req_create req_ss_create res_error_file_exists : MessageType
  req_read res_read_location req_client_read res_error_not_found res_ss_file_ok : MessageType
  req_write req_client_write res_ok_locked res_error_locked req_write_update req_etirw : MessageType
  res_error_invalid_sentence res_error_invalid_word : MessageType
  req_list res_list_hdr res_list_item : MessageType
  req_delete req_ss_delete req_undo req_ss_undo req_stream req_client_stream : MessageType
  res_error_access_denied : MessageType
  req_update_metadata req_view res_view_hdr res_view_item_short res_view_item_long : MessageType
  req_info res_info req_add_access req_rem_access req_ss_add_access req_ss_rem_access : MessageType
  req_exec res_exec_output res_exec_done : MessageType
  req_createfolder req_ss_createfolder req_move req_ss_move req_viewfolder : MessageType
  req_ss_checkfolder : MessageType
  req_checkpoint req_ss_checkpoint req_viewcheckpoint req_ss_viewcheckpoint : MessageType
  req_revert req_ss_revert req_listcheckpoints req_ss_listcheckpoints : MessageType
  res_checkpoint_list : MessageType
  req_request_access req_check_requests res_request_list : MessageType
  req_approve_request req_deny_request : MessageType
  req_replicate_file req_ss_heartbeat res_ss_heartbeat req_sync_from_backup : MessageType
  req_get_file_content : MessageType

-- The numbers of the enumerators, as "%d" prints a type.
unfoldable pub enumerator : MessageType → ℕ
enumerator req_client_register = 0
enumerator req_ss_register = 1
enumerator req_ss_file_item = 2
enumerator res_ok = 3
enumerator res_error = 4
enumerator req_create = 5
enumerator req_ss_create = 6
enumerator res_error_file_exists = 7
enumerator req_read = 8
enumerator res_read_location = 9
enumerator req_client_read = 10
enumerator res_error_not_found = 11
enumerator res_ss_file_ok = 12
enumerator req_write = 13
enumerator req_client_write = 14
enumerator res_ok_locked = 15
enumerator res_error_locked = 16
enumerator req_write_update = 17
enumerator req_etirw = 18
enumerator res_error_invalid_sentence = 19
enumerator res_error_invalid_word = 20
enumerator req_list = 21
enumerator res_list_hdr = 22
enumerator res_list_item = 23
enumerator req_delete = 24
enumerator req_ss_delete = 25
enumerator req_undo = 26
enumerator req_ss_undo = 27
enumerator req_stream = 28
enumerator req_client_stream = 29
enumerator res_error_access_denied = 30
enumerator req_update_metadata = 31
enumerator req_view = 32
enumerator res_view_hdr = 33
enumerator res_view_item_short = 34
enumerator res_view_item_long = 35
enumerator req_info = 36
enumerator res_info = 37
enumerator req_add_access = 38
enumerator req_rem_access = 39
enumerator req_ss_add_access = 40
enumerator req_ss_rem_access = 41
enumerator req_exec = 42
enumerator res_exec_output = 43
enumerator res_exec_done = 44
enumerator req_createfolder = 45
enumerator req_ss_createfolder = 46
enumerator req_move = 47
enumerator req_ss_move = 48
enumerator req_viewfolder = 49
enumerator req_ss_checkfolder = 50
enumerator req_checkpoint = 51
enumerator req_ss_checkpoint = 52
enumerator req_viewcheckpoint = 53
enumerator req_ss_viewcheckpoint = 54
enumerator req_revert = 55
enumerator req_ss_revert = 56
enumerator req_listcheckpoints = 57
enumerator req_ss_listcheckpoints = 58
enumerator res_checkpoint_list = 59
enumerator req_request_access = 60
enumerator req_check_requests = 61
enumerator res_request_list = 62
enumerator req_approve_request = 63
enumerator req_deny_request = 64
enumerator req_replicate_file = 65
enumerator req_ss_heartbeat = 66
enumerator res_ss_heartbeat = 67
enumerator req_sync_from_backup = 68
enumerator req_get_file_content = 69

-- `header.type == RES_OK`
unfoldable pub is_ok : MessageType → Bool
is_ok res_ok = true
is_ok _ = false

-- `header.type == REQ_WRITE`
unfoldable pub is_write : MessageType → Bool
is_write req_write = true
is_write _ = false

pub record UpdateMetadata : Type 0 where
  pub filename : CString
  pub file_size : ℕ
  pub word_count : ℕ
  pub char_count : ℕ
  pub last_modified : ℕ
  pub last_accessed : ℕ

-- `Msg_Request_Item`
pub record RequestItem : Type 0 where
  pub request_id : ℕ
  pub filename : CString
  pub requesting_user : CString
  pub requested_perm : PermissionLevel
  pub timestamp : ℕ

-- What follows a header, by the struct that is sent. The items of a list of users, requests or
-- checkpoints have no headers, and stand with their number.
pub data Payload : Type 0 where
  no_payload : Payload
  filename_request : CString → Payload
  ss_create_request : (filename owner : CString) → Payload
  read_response : (ss_ip : CString) (ss_port : ℕ) → Payload
  user_list : (user_count : ℕ) (items : List CString) → Payload
  view_hdr : (file_count : ℕ) → Payload
  view_item_short : (filename : CString) → Payload
  full_metadata :
      (filename owner : CString) (file_size word_count char_count last_modified last_accessed : ℕ)
      (access_list : List AccessEntry)
      → Payload
  access_request : (filename username : CString) (perm : PermissionLevel) → Payload
  folder_request : (foldername : CString) → Payload
  move_request : (filename foldername : CString) → Payload
  checkpoint_request : (filename tag : CString) → Payload
  listcheckpoints_request : (filename : CString) → Payload
  request_list : (request_count : ℕ) (items : List RequestItem) → Payload
  checkpoint_list : (checkpoint_count : ℕ) (items : List (CString × ℕ)) → Payload
  file_content : List ℕ → Payload
  exec_output : (line : List ℕ) → Payload
  synced_file : (filename : CString) (file_size : ℕ) (content : List ℕ) → Payload
  replicate_file :
      (filename owner : CString) (access_list : List AccessEntry) (file_size : ℕ) → Payload
  sync_file : (filename : CString) → Payload
  client_register_request : (username : CString) → Payload
  view_request : (flag_a flag_l : Bool) → Payload
  requested_access :
      (filename requesting_user : CString) (requested_perm : PermissionLevel) → Payload
  request_response : (request_id : ℕ) → Payload
  client_write_request : (filename : CString) (sentence_num : ℤ) → Payload
  write_update_request : (word_index : ℤ) (content : CString) → Payload

-- A header and its payload, sent to a socket.
pub record Sent : Type 0 where
  pub to : ℕ
  pub type : MessageType
  pub payload : Payload

abbrev pub sent : ℕ → MessageType → Payload → Sent
sent sock type payload = record { to = sock; type = type; payload = payload }

-- `send_simple_header`
abbrev pub simple_header : ℕ → MessageType → Sent
simple_header sock type = sent sock type no_payload
