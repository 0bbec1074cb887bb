-- ===== src/NameServer/Run.antt =====
-- The naming server at work: the dispatch of `handle_nm_message` in name/handlers.c, and the servers
-- that its messages lead to.
use distributed_document_sys.NameServer.Catalog.{has_read_access, has_write_access}
use distributed_document_sys.NameServer.Relays.Listed.{handle_req_check_requests-IsConsistent}
use distributed_document_sys.NameServer.Registration.{FileItem, handle_ss_register}
use distributed_document_sys.NameServer.Execution.{handle_req_exec, handle_req_exec-IsConsistent}
use distributed_document_sys.NameServer.Registration.Keeps.{
  FreshItems, NotRecovering, handle_ss_register-IsConsistent,
}
use distributed_document_sys.NameServer.Relays.Guarded.{
  relay-IsConsistent, handle_req_createfolder-IsConsistent,
}
use distributed_document_sys.NameServer.Relays.{
  handle_req_listcheckpoints, handle_req_list, handle_req_createfolder, handle_req_checkpoint,
  handle_req_revert, handle_req_viewcheckpoint, handle_req_check_requests, handle_req_viewfolder,
}
use distributed_document_sys.NameServer.Views.{handle_req_info, handle_req_view}
use distributed_document_sys.NameServer.Views.Shown.{handle_req_info-IsConsistent}
use distributed_document_sys.NameServer.Index.View.{view}
use distributed_document_sys.NameServer.Servers.Start.{
  handle_disconnect-IsConsistent, init_server_state-IsConsistent,
}
use distributed_document_sys.NameServer.Files.Keeps.{
  handle_req_move-IsConsistent, handle_req_delete-IsConsistent, handle_req_create-IsConsistent,
  handle_req_read_write_stream-IsConsistent, handle_req_undo-IsConsistent,
  handle_req_update_metadata-IsConsistent,
}
use distributed_document_sys.NameServer.Requests.Keeps.{
  unseen, handle_req_request_access-IsConsistent, handle_req_approve_request-IsConsistent,
  handle_req_deny_request-IsConsistent,
}
use distributed_document_sys.NameServer.Access.Handlers.{
  handle_req_add_access-IsConsistent, handle_req_rem_access-IsConsistent,
}
use distributed_document_sys.NameServer.State.{Server, done, Handled}
use distributed_document_sys.NameServer.Requests.{
  handle_req_request_access, handle_req_approve_request, handle_req_deny_request,
}
use distributed_document_sys.Base.{
  Option, Bool, subst, List, ℕ, if_both, refl, none, ◌≡◌, CString, ◌⊎◌, [],
}
use distributed_document_sys.Protocol.{
  req_ss_revert, req_ss_listcheckpoints, req_ss_checkpoint, req_ss_viewcheckpoint, Sent,
  MessageType, UpdateMetadata, PermissionLevel,
}
use distributed_document_sys.NameServer.Files.{
  handle_req_delete, handle_req_read_write_stream, handle_req_update_metadata, handle_req_undo,
  handle_req_move, moved_path, handle_req_create,
}
use distributed_document_sys.NameServer.Servers.{
  handle_res_ss_heartbeat, init_server_state, handle_disconnect, handle_client_register,
}
use distributed_document_sys.NameServer.Access.{handle_req_rem_access, handle_req_add_access}
use distributed_document_sys.NameServer.Consistent.{weaken, Ensures, IsConsistent}

-- A message with the fields that its handler reads; `reply` is the storage server's answer, `now`
-- the time.
pub data Event : Type 0 where
  client_register : (peer_ip username : CString) → Event
  create : (name : CString) (reply : MessageType) → Event
  locate : (type : MessageType) (name : CString) → Event
  delete : (name : CString) → Event
  undo : (name : CString) → Event
  view_files : (flag_a flag_l : Bool) → Event
  info : (name : CString) → Event
  update_metadata : (msg : UpdateMetadata) → Event
  add_access : (name user : CString) (perm : PermissionLevel) → Event
  rem_access : (name user : CString) (perm : PermissionLevel) → Event
  move : (name folder : CString) (reply : MessageType) → Event
  request_access : (name user : CString) (perm : PermissionLevel) (now : ℕ) → Event
  approve : (id : ℕ) → Event
  deny : (id : ℕ) → Event
  ss_heartbeat : (now : ℕ) → Event
  disconnect : Event
  list_users check_requests : Event
  createfolder : (folder : CString) (reply : MessageType) → Event
  viewfolder : (folder : CString) (has_folder : ℕ → Bool) → Event
  checkpoint revert : (name tag : CString) (reply : MessageType) → Event
  viewcheckpoint : (name tag : CString) (content : Option (List ℕ)) (reply : MessageType) → Event
  listcheckpoints :
      (name : CString) (items : Option (List (CString × ℕ))) (reply : MessageType) → Event
  exec :
      (shell : CString → Option (List (List ℕ))) (name : CString) (incoming : Option (List ℕ))
      → Event
  ss_register :
      (content : ℕ → CString → List ℕ) (peer_ip ip : CString) (port : ℕ) (items : List FileItem)
      (now : ℕ)
      → Event

unfoldable pub handle_nm_message : ℕ → Event → Server → Handled
handle_nm_message sock (client_register peer_ip username) s =
    handle_client_register sock peer_ip username s
handle_nm_message sock (create name reply) s = handle_req_create sock name reply s
handle_nm_message sock (locate type name) s = handle_req_read_write_stream sock type name s
handle_nm_message sock (delete name) s = handle_req_delete sock name s
handle_nm_message sock (undo name) s = handle_req_undo sock name s
handle_nm_message sock (view_files flag_a flag_l) s = handle_req_view sock flag_a flag_l s
handle_nm_message sock (info name) s = handle_req_info sock name s
handle_nm_message sock (update_metadata msg) s = handle_req_update_metadata msg s
handle_nm_message sock (add_access name user perm) s = handle_req_add_access sock name user perm s
handle_nm_message sock (rem_access name user perm) s = handle_req_rem_access sock name user perm s
handle_nm_message sock (move name folder reply) s = handle_req_move sock name folder reply s
handle_nm_message sock (request_access name user perm now) s =
    handle_req_request_access sock name user perm now s
handle_nm_message sock (approve id) s = handle_req_approve_request sock id s
handle_nm_message sock (deny id) s = handle_req_deny_request sock id s
handle_nm_message sock (ss_heartbeat now) s = done (handle_res_ss_heartbeat sock now s) []
handle_nm_message sock disconnect s = done (handle_disconnect sock s) []
handle_nm_message sock list_users s = handle_req_list sock s
handle_nm_message sock check_requests s = handle_req_check_requests sock s
handle_nm_message sock (createfolder folder reply) s = handle_req_createfolder sock folder reply s
handle_nm_message sock (viewfolder folder has_folder) s =
    handle_req_viewfolder sock folder has_folder s
handle_nm_message sock (checkpoint name tag reply) s = handle_req_checkpoint sock name tag reply s
handle_nm_message sock (revert name tag reply) s = handle_req_revert sock name tag reply s
handle_nm_message sock (viewcheckpoint name tag content reply) s =
    handle_req_viewcheckpoint sock name tag content reply s
handle_nm_message sock (listcheckpoints name items reply) s =
    handle_req_listcheckpoints sock name items reply s
handle_nm_message sock (exec shell name incoming) s = handle_req_exec shell sock name incoming s
handle_nm_message sock (ss_register content peer_ip ip port items now) s =
    handle_ss_register content sock peer_ip ip port items now s

-- A move to a path that another file has is not a step here, and neither is the registration of a
-- storage server that recovers, or brings a name twice, one that is indexed, or an access list that
-- the array has no room for.
abbrev pub Allowed : ℕ → Event → Server → Type 0
Allowed sock (ss_register content peer_ip ip port items now) s =
    FreshItems s.index items × NotRecovering sock items s
Allowed sock (move name folder reply) s =
    (view s.index (moved_path folder name) ≡ none)
    ⊎ (view s.index (moved_path folder name) ≡ view s.index name)
Allowed sock _ s = Unit

-- The servers that a run of the program can be in.
pub data Reachable (s₀ : Server) : Server → Type 0 where
  start : Reachable s₀ (init_server_state s₀)
  next :
      {s s' : Server} (sock : ℕ) (e : Event) (out : List Sent)
      → Reachable s₀ s
      → Allowed sock e s
      → handle_nm_message sock e s ≡ done s' out
      → Reachable s₀ s'

handle_nm_message-IsConsistent :
    (sock : ℕ) (e : Event) (s : Server)
    → Allowed sock e s
    → IsConsistent s
    → Ensures IsConsistent (handle_nm_message sock e s)
unfolding handle_nm_message handle_client_register handle_res_ss_heartbeat handle_req_view
    handle_req_list handle_req_viewfolder handle_req_checkpoint handle_req_revert
    handle_req_viewcheckpoint handle_req_listcheckpoints
handle_nm_message-IsConsistent sock (client_register peer_ip username) s a c =
    unseen s _ refl refl c
handle_nm_message-IsConsistent sock (create name reply) s a c =
    handle_req_create-IsConsistent sock name reply s c
handle_nm_message-IsConsistent sock (locate type name) s a c =
    weaken IsConsistent (handle_req_read_write_stream sock type name s)
      (handle_req_read_write_stream-IsConsistent sock type name s c)
handle_nm_message-IsConsistent sock (delete name) s a c =
    weaken IsConsistent (handle_req_delete sock name s)
      (handle_req_delete-IsConsistent sock name s c)
handle_nm_message-IsConsistent sock (undo name) s a c =
    weaken IsConsistent (handle_req_undo sock name s) (handle_req_undo-IsConsistent sock name s c)
handle_nm_message-IsConsistent sock (view_files flag_a flag_l) s a c = c
handle_nm_message-IsConsistent sock (info name) s a c =
    weaken IsConsistent (handle_req_info sock name s) (handle_req_info-IsConsistent sock name s c)
handle_nm_message-IsConsistent sock (update_metadata msg) s a c =
    weaken IsConsistent (handle_req_update_metadata msg s)
      (handle_req_update_metadata-IsConsistent msg s c)
handle_nm_message-IsConsistent sock (add_access name user perm) s a c =
    weaken IsConsistent (handle_req_add_access sock name user perm s)
      (handle_req_add_access-IsConsistent sock name user perm s c)
handle_nm_message-IsConsistent sock (rem_access name user perm) s a c =
    weaken IsConsistent (handle_req_rem_access sock name user perm s)
      (handle_req_rem_access-IsConsistent sock name user perm s c)
handle_nm_message-IsConsistent sock (move name folder reply) s a c =
    handle_req_move-IsConsistent sock name folder reply s c a
handle_nm_message-IsConsistent sock (request_access name user perm now) s a c =
    weaken IsConsistent (handle_req_request_access sock name user perm now s)
      (handle_req_request_access-IsConsistent sock name user perm now s c)
handle_nm_message-IsConsistent sock (approve id) s a c =
    weaken IsConsistent (handle_req_approve_request sock id s)
      (handle_req_approve_request-IsConsistent sock id s c)
handle_nm_message-IsConsistent sock (deny id) s a c =
    weaken IsConsistent (handle_req_deny_request sock id s)
      (handle_req_deny_request-IsConsistent sock id s c)
handle_nm_message-IsConsistent sock (ss_heartbeat now) s a c =
    if_both IsConsistent (s.ss_state sock).active _ _ (λ _. unseen s _ refl refl c) (λ _. c)
handle_nm_message-IsConsistent sock disconnect s a c = handle_disconnect-IsConsistent sock s c
handle_nm_message-IsConsistent sock list_users s a c = c
handle_nm_message-IsConsistent sock check_requests s a c =
    weaken IsConsistent (handle_req_check_requests sock s)
      (handle_req_check_requests-IsConsistent sock s c)
handle_nm_message-IsConsistent sock (createfolder folder reply) s a c =
    weaken IsConsistent (handle_req_createfolder sock folder reply s)
      (handle_req_createfolder-IsConsistent sock folder reply s c)
handle_nm_message-IsConsistent sock (viewfolder folder has_folder) s a c = c
handle_nm_message-IsConsistent sock (checkpoint name tag reply) s a c =
    weaken IsConsistent (handle_req_checkpoint sock name tag reply s)
      (relay-IsConsistent has_write_access sock name req_ss_checkpoint _ _ s c)
handle_nm_message-IsConsistent sock (revert name tag reply) s a c =
    weaken IsConsistent (handle_req_revert sock name tag reply s)
      (relay-IsConsistent has_write_access sock name req_ss_revert _ _ s c)
handle_nm_message-IsConsistent sock (viewcheckpoint name tag content reply) s a c =
    weaken IsConsistent (handle_req_viewcheckpoint sock name tag content reply s)
      (relay-IsConsistent has_read_access sock name req_ss_viewcheckpoint _ _ s c)
handle_nm_message-IsConsistent sock (listcheckpoints name items reply) s a c =
    weaken IsConsistent (handle_req_listcheckpoints sock name items reply s)
      (relay-IsConsistent has_read_access sock name req_ss_listcheckpoints _ _ s c)
handle_nm_message-IsConsistent sock (exec shell name incoming) s a c =
    weaken IsConsistent (handle_req_exec shell sock name incoming s)
      (handle_req_exec-IsConsistent shell sock name incoming s c)
handle_nm_message-IsConsistent sock (ss_register content peer_ip ip port items now) s a c =
    weaken IsConsistent (handle_ss_register content sock peer_ip ip port items now s)
      (handle_ss_register-IsConsistent content sock peer_ip ip port items now s a.0 a.1 c)

-- In every server that is reached from `init_server_state` by the messages and disconnections
-- of `Event` (left out are a move to a path that another file has, the failed heartbeats, and
-- the registration of a storage server that recovers, or brings a name twice, one that is
-- indexed, or an access list that the array has no room for), index and catalog are
-- consistent: cache and chains are in order, each indexed name leads to an active entry of
-- that name, each active entry is found under its name, and no access list outgrows its array.
pub Reachable-IsConsistent : {s₀ s : Server} → Reachable s₀ s → IsConsistent s
Reachable-IsConsistent {s₀} start = init_server_state-IsConsistent s₀
Reachable-IsConsistent (next {s} sock e out r a h) =
    subst (Ensures IsConsistent) h
      (handle_nm_message-IsConsistent sock e s a (Reachable-IsConsistent r))
