-- ===== src/NameServer/Tests.antt =====
-- Concrete servers on which the handlers run.
pub mod Files
pub mod Requests
pub mod Rounds
pub mod Lookups
pub mod Relays
use distributed_document_sys.NameServer.Registration.{
  handle_ss_register, has_backup, catalog_ss_files, register_ss,
}
use distributed_document_sys.NameServer.Index.View.{view}
use distributed_document_sys.NameServer.Run.{handle_nm_message}
use distributed_document_sys.NameServer.Requests.Queue.{
  handle_req_request_access-IsOrdered, IsOrdered,
}
use distributed_document_sys.NameServer.Requests.Keeps.{
  unseen, handle_req_request_access-IsConsistent,
}
use distributed_document_sys.NameServer.Catalog.{
  find_access, count_active_ss, find_slot, get_permission, choose_backup, find_empty_file_slot,
  find_available_ss, with_slot, find_backup_ss,
}
use distributed_document_sys.NameServer.State.{SsInfo, Server, ClientInfo, done, Handled, undefined}
use distributed_document_sys.NameServer.Files.Keeps.{add_entry-IsConsistent}
use distributed_document_sys.NameServer.Files.{
  serving, create_confirmed, add_entry, handle_req_create, moved_path, handle_req_read_write_stream,
  base_filename,
}
use distributed_document_sys.Protocol.{is_ok, no_perm, read_only, is_write}
use distributed_document_sys.NameServer.Servers.Start.{init_server_state-IsConsistent}
use distributed_document_sys.NameServer.Consistent.{IsConsistent}
use distributed_document_sys.NameServer.Servers.{
  set_ss, set_client, init_server_state, handle_client_register,
}
use distributed_document_sys.NameServer.Index.{
  empty, hash_func, cache_find, add_to_hashmap, find_file_slot, chain_find, add_to_cache,
}
use distributed_document_sys.NameServer.Access.{
  grant, handle_req_rem_access, set_existing, handle_req_add_access,
}
use distributed_document_sys.NameServer.Requests.{
  pending_request, handle_req_request_access, free_request,
}
use distributed_document_sys.Base.{
  strcmp, arith, codes, none, ◌≡◌, refl, true, count_from, [], CString, false, find_first, some,
}

abbrev pub alice : CString
alice = codes "alice"

abbrev pub bob : CString
bob = codes "bob"

abbrev pub notes : CString
notes = codes "notes.txt"

abbrev pub todo : CString
todo = codes "todo.txt"

abbrev pub zeroed : Server
zeroed = record {
  index = empty;
  client_state = λ i. record { active = false; username = []; ip_addr = [] };
  ss_state = λ i. record {
    active = false;
    ip = [];
    client_port = 0;
    ip_addr = [];
    last_heartbeat = 0;
    missed_heartbeats = 0;
  };
  file_catalog = λ i. record {
    active = false;
    filename = [];
    ss_sock_fd = 0;
    owner = [];
    access_list = [];
    file_size = 0;
    word_count = 0;
    char_count = 0;
    last_modified = 0;
    last_accessed = 0;
    backup_ss_sock = none;
  };
  access_requests = λ i. record {
    active = false;
    request_id = 0;
    filename = [];
    requesting_user = [];
    requested_perm = no_perm;
    timestamp = 0;
  };
  next_request_id = 1;
}

abbrev pub storage_server : SsInfo
storage_server = record {
  active = true;
  ip = codes "10.0.0.5";
  client_port = 9001;
  ip_addr = codes "10.0.0.5";
  last_heartbeat = 0;
  missed_heartbeats = 2;
}

abbrev pub client : CString → ClientInfo
client name = record { active = true; username = name; ip_addr = codes "10.0.0.7" }

-- A storage server on socket 5, alice on 7, bob on 8.
abbrev pub ready : Server
ready =
    set_ss 5 storage_server
      (set_client 8 (client bob) (set_client 7 (client alice) (init_server_state zeroed)))

pub ready-IsConsistent : IsConsistent ready
ready-IsConsistent =
    unseen (init_server_state zeroed) ready refl refl (init_server_state-IsConsistent zeroed)

abbrev pub server_of : Handled → Server
server_of (done s out) = s
server_of undefined = ready

-- alice's file at slot 0
abbrev pub one_file : Server
one_file = server_of (add_entry 0 notes 5 alice [] ready)

unfoldable pub program : Unit {0}
unfolding init_server_state hash_func chain_find cache_find add_to_hashmap empty add_entry strcmp
    find_slot with_slot find_file_slot find_available_ss find_empty_file_slot find_first is_ok
    is_write moved_path base_filename pending_request free_request handle_req_request_access
    handle_req_add_access handle_req_rem_access handle_req_read_write_stream handle_nm_message
    handle_req_create create_confirmed count_from count_active_ss choose_backup find_backup_ss
    handle_client_register set_existing grant add_to_cache get_permission find_access serving
    handle_ss_register register_ss catalog_ss_files has_backup
program = tt

pub one_file-IsConsistent : IsConsistent one_file
unfolding program
one_file-IsConsistent =
    add_entry-IsConsistent 0 notes 5 alice [] ready ready-IsConsistent (omega arith) refl refl
      (omega arith)

pub one_file-view : view one_file.index notes ≡ some 0
unfolding program
one_file-view = refl

-- bob's request 1 for alice's file
abbrev pub asked : Server
asked = server_of (handle_req_request_access 8 notes bob read_only 100 one_file)

pub asked-IsConsistent : IsConsistent asked
unfolding program
asked-IsConsistent =
    handle_req_request_access-IsConsistent 8 notes bob read_only 100 one_file one_file-IsConsistent

one_file-IsOrdered : IsOrdered one_file
unfolding program
one_file-IsOrdered = record {
  issued = λ i a. absurd (ground arith);
  distinct = λ i j a b e. absurd (ground arith);
}

pub asked-IsOrdered : IsOrdered asked
unfolding program
asked-IsOrdered =
    handle_req_request_access-IsOrdered 8 notes bob read_only 100 one_file one_file-IsConsistent
      one_file-IsOrdered
