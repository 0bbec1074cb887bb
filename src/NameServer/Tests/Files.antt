-- ===== src/NameServer/Tests/Files.antt =====
-- The theorems on files and servers, applied.
use distributed_document_sys.NameServer.Requests.Keeps.{unseen}
use distributed_document_sys.NameServer.Catalog.{find_available_ss, find_empty_file_slot, user_of}
use distributed_document_sys.NameServer.State.{Server}
use distributed_document_sys.NameServer.Registration.Keeps.{no_item}
use distributed_document_sys.NameServer.Index.View.{view}
use distributed_document_sys.NameServer.Files.{
  handle_req_delete, handle_req_create, handle_req_read_write_stream,
}
use distributed_document_sys.NameServer.Files.Locate.{Answer, handle_req_read_write_stream_lem}
use distributed_document_sys.NameServer.Consistent.{IsConsistent, Succeeds}
use distributed_document_sys.Protocol.{
  res_ok, max_files_in_system, res_error_access_denied, req_read, simple_header,
}
use distributed_document_sys.NameServer.Run.{
  ss_register, create, handle_nm_message, start, client_register, Reachable-IsConsistent, next,
}
use distributed_document_sys.NameServer.Files.Effects.{
  IsCreated, IsDeleted, handle_req_delete-denied, handle_req_create_lem, handle_req_delete_lem,
}
use distributed_document_sys.NameServer.Servers.Failure.{
  heartbeat_failure, heartbeat-stale, heartbeat-ss_state,
}
use distributed_document_sys.NameServer.Tests.{
  zeroed, bob, ready, notes, todo, alice, program, one_file, one_file-IsConsistent,
  ready-IsConsistent, server_of, one_file-view,
}
use distributed_document_sys.Base.{
  update, find_first, true, inr, ltb, arith, ℕ, codes, ◌≢◌, ◌≡◌, ◌∷◌, refl, ◌≤◌, ◌+◌, [], CString,
  false, ◌<◌, some,
}
use distributed_document_sys.NameServer.Servers.{heartbeat, init_server_state}

-- A storage server registers, then alice, and alice creates a file.
abbrev with_storage : Server
with_storage = server_of (
    handle_nm_message 5
      (ss_register (λ source name. []) (codes "10.0.0.5") (codes "10.0.0.5") 9001 [] 0)
      (init_server_state zeroed))

abbrev with_client : Server
with_client =
    server_of (handle_nm_message 7 (client_register (codes "10.0.0.7") alice) with_storage)

Reachable-IsConsistent_example :
    IsConsistent (server_of (handle_nm_message 7 (create notes res_ok) with_client))
unfolding program
Reachable-IsConsistent_example = Reachable-IsConsistent {s₀ = zeroed} (
    next 7 (create notes res_ok) _
      (next 7 (client_register (codes "10.0.0.7") alice) _
        (next 5 (ss_register (λ source name. []) (codes "10.0.0.5") (codes "10.0.0.5") 9001 [] 0) _
          start (no_item, inr refl) refl)
        tt refl)
      tt refl)

handle_req_read_write_stream_lem_example :
    Succeeds
      (λ s' out.
        (s'.file_catalog ≡ one_file.file_catalog)
        × (s'.ss_state ≡ one_file.ss_state)
        × Answer one_file 7 req_read notes out)
      (handle_req_read_write_stream 7 req_read notes one_file)
handle_req_read_write_stream_lem_example =
    handle_req_read_write_stream_lem 7 req_read notes one_file one_file-IsConsistent

handle_req_create_lem_example :
    Succeeds (λ s' out. IsCreated ready notes alice 0 5 s') (handle_req_create 7 notes res_ok ready)
unfolding program
handle_req_create_lem_example =
    handle_req_create_lem 7 notes res_ok ready 5 0 ready-IsConsistent refl refl refl refl

handle_req_delete_lem_example :
    Succeeds (λ s' out. IsDeleted one_file notes 0 s') (handle_req_delete 7 notes one_file)
unfolding program
handle_req_delete_lem_example =
    handle_req_delete_lem 7 notes one_file 0 one_file-IsConsistent one_file-view refl refl

bob_is_not_alice : alice ≢ bob
bob_is_not_alice e = ground (arith, e)

handle_req_delete-denied_example :
    Succeeds
      (λ s' out.
        (s'.file_catalog ≡ one_file.file_catalog)
        × ((k : CString) → view s'.index k ≡ view one_file.index k)
        × (out ≡ simple_header 8 res_error_access_denied ∷ []))
      (handle_req_delete 8 notes one_file)
unfolding program
handle_req_delete-denied_example =
    handle_req_delete-denied 8 notes one_file 0 one_file-IsConsistent one_file-view bob_is_not_alice

heartbeat_failure_example :
    let t = heartbeat (λ i. false) 5 one_file in
    ((t.ss_state 5).missed_heartbeats ≡ (one_file.ss_state 5).missed_heartbeats + 1)
    × ((t.ss_state 5).active ≡ ltb ((one_file.ss_state 5).missed_heartbeats + 1) 3)
    × (2 ≤ (one_file.ss_state 5).missed_heartbeats
        → (j : ℕ) → j < max_files_in_system
        → (one_file.file_catalog j).ss_sock_fd ≡ 5
        → (t.file_catalog j).active ≡ false)
unfolding program
heartbeat_failure_example = heartbeat_failure (λ i. false) 5 one_file refl refl

-- The storage server of alice's file has missed two heartbeats, and another one is there.
abbrev failing : Server
failing = record one_file {
  ss_state =
      update (update one_file.ss_state 5 (record (one_file.ss_state 5) { missed_heartbeats = 2 })) 6
        (one_file.ss_state 5);
}

abbrev failed : Server
failed = heartbeat (λ i. false) 5 failing

failing-IsConsistent : IsConsistent failing
failing-IsConsistent = unseen one_file failing refl refl one_file-IsConsistent

six_is_left : find_available_ss failed ≡ some 6
unfolding program
six_is_left = rw (heartbeat-ss_state (λ i. false) 5 failing refl (omega arith) refl) refl

first_is_free : find_empty_file_slot failed ≡ some 0
unfolding find_empty_file_slot find_first program
first_is_free =
    let off =
      (heartbeat_failure (λ i. false) 5 failing refl refl).2 (omega arith) 0 (omega arith) refl in
    rw off refl

-- bob's new file is found under the name of alice's.
heartbeat-stale_example :
    ((failed.file_catalog 0).active ≡ false)
    × (view failed.index notes ≡ some 0)
    × Succeeds
        (λ t out.
          (view t.index notes ≡ some 0)
          × ((t.file_catalog 0).active ≡ true)
          × ((t.file_catalog 0).filename ≡ todo)
          × ((t.file_catalog 0).owner ≡ user_of failing 8))
        (handle_req_create 8 todo res_ok failed)
unfolding program
heartbeat-stale_example =
    heartbeat-stale (λ i. false) failing notes todo 8 0 5 6 res_ok failing-IsConsistent
      one_file-view refl refl (omega arith) refl refl six_is_left first_is_free refl
