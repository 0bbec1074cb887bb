-- ===== src/NameServer/State.antt =====
-- name/name_globals.h: the global arrays of the naming server, as one record.
use distributed_document_sys.Protocol.{PermissionLevel, AccessEntry, Sent}
use distributed_document_sys.NameServer.Index.{Index}
use distributed_document_sys.Base.{[], ◌∷◌, ◌++◌, Option, CString, List, ℕ, Bool}

pub record ClientInfo : Type 0 where
  pub active : Bool
  pub username : CString
  pub ip_addr : CString

-- `ss_id` is only logged, and is left out.
pub record SsInfo : Type 0 where
  pub active : Bool
  pub ip : CString
  pub client_port : ℕ
  pub ip_addr : CString
  pub last_heartbeat : ℕ
  pub missed_heartbeats : ℕ

-- `access_list` holds the first `access_count` entries of the array; no backup is `none` for -1.
pub record FileMetadata : Type 0 where
  pub active : Bool
  pub filename : CString
  pub ss_sock_fd : ℕ
  pub owner : CString
  pub access_list : List AccessEntry
  pub file_size : ℕ
  pub word_count : ℕ
  pub char_count : ℕ
  pub last_modified : ℕ
  pub last_accessed : ℕ
  pub backup_ss_sock : Option ℕ

abbrev pub max_access_requests : ℕ
max_access_requests = 1000

pub record AccessRequest : Type 0 where
  pub active : Bool
  pub request_id : ℕ
  pub filename : CString
  pub requesting_user : CString
  pub requested_perm : PermissionLevel
  pub timestamp : ℕ

-- The arrays are functions of the index; loops over them run to the bounds of the source.
pub record Server : Type 0 where
  pub index : Index
  pub client_state : ℕ → ClientInfo
  pub ss_state : ℕ → SsInfo
  pub file_catalog : ℕ → FileMetadata
  pub access_requests : ℕ → AccessRequest
  pub next_request_id : ℕ

-- What a handler does: the server after it and what it has sent, in order, or undefined behaviour.
pub data Handled : Type 0 where
  done : Server → List Sent → Handled
  undefined : Handled

-- The last message of a handler.
abbrev pub then_send : Sent → Handled → Handled
then_send m (done s out) = done s (out ++ m ∷ [])
then_send m undefined = undefined

-- The message of the relay comes first.
abbrev pub after_relay : Sent → Handled → Handled
after_relay m (done s out) = done s (m ∷ out)
after_relay m undefined = undefined
