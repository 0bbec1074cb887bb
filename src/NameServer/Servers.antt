-- ===== src/NameServer/Servers.antt =====
-- name/name_server.c, `handle_disconnect` of name/catalog.c, name/fault_tolerance.c and
-- `handle_res_ss_heartbeat` of name/handlers.c: clients and storage servers come and go.
pub mod Failure
pub mod Start
use distributed_document_sys.NameServer.Index.{empty}
use distributed_document_sys.NameServer.Files.{delist}
use distributed_document_sys.NameServer.Catalog.{set_file}
use distributed_document_sys.NameServer.State.{SsInfo, Server, done, ClientInfo, Handled}
use distributed_document_sys.Protocol.{simple_header, res_ok, max_files_in_system, max_connections}
use distributed_document_sys.Base.{
  leb, update, Bool, ℕ, [], ◌==◌, ◌&&◌, ◌∷◌, ◌+◌, zero, if◌then◌else◌, CString, false, true, suc,
}

-- The arrays as `init_server_state` leaves them; sockets and slots out of range are not used.
unfoldable pub init_server_state : Server → Server
init_server_state s = record s {
  index = empty;
  client_state = λ i. record (s.client_state i) { active = false };
  ss_state = λ i. record (s.ss_state i) { active = false };
  file_catalog = λ i. record (s.file_catalog i) { active = false; access_list = [] };
}

-- `for (i = first; i < first + n; i++) s = body(i, s);`
unfoldable pub for_range : ℕ → ℕ → (ℕ → Server → Server) → Server → Server
for_range zero first body s = s
for_range (suc n) first body s = for_range n (suc first) body (body first s)

abbrev pub set_client : ℕ → ClientInfo → Server → Server
set_client sock c s = record s { client_state = update s.client_state sock c }

abbrev pub set_ss : ℕ → SsInfo → Server → Server
set_ss sock i s = record s { ss_state = update s.ss_state sock i }

unfoldable pub handle_client_register : ℕ → CString → CString → Server → Handled
handle_client_register sock peer_ip username s =
    done
      (set_ss sock (record (s.ss_state sock) { active = false })
        (set_client sock (record { active = true; username = username; ip_addr = peer_ip }) s))
      (simple_header sock res_ok ∷ [])

-- The body of the loop in `handle_disconnect` over the files of a storage server.
unfoldable pub delist_if_on : ℕ → ℕ → Server → Server
delist_if_on sock i s =
    let meta = s.file_catalog i in if meta.active && meta.ss_sock_fd == sock then delist i s else s

unfoldable pub handle_disconnect : ℕ → Server → Server
handle_disconnect sock s =
    if (s.client_state sock).active
    then set_client sock (record (s.client_state sock) { active = false }) s
    else if (s.ss_state sock).active
    then for_range max_files_in_system 0 (delist_if_on sock)
        (set_ss sock (record (s.ss_state sock) { active = false }) s)
    else s

unfoldable pub handle_res_ss_heartbeat : ℕ → ℕ → Server → Server
handle_res_ss_heartbeat sock now s =
    let ss = s.ss_state sock in
    if ss.active
    then set_ss sock (record ss { last_heartbeat = now; missed_heartbeats = 0 }) s
    else s

-- The loop that takes the files of a failed server out of service.
unfoldable pub mark_inactive : ℕ → ℕ → Server → Server
mark_inactive ss j s =
    let meta = s.file_catalog j in
    if meta.active && meta.ss_sock_fd == ss
    then set_file j (record meta { active = false }) s
    else s

-- The server is marked offline, and its files out of service.
unfoldable pub fail_server : ℕ → Server → Server
fail_server i s =
    for_range max_files_in_system 0 (mark_inactive i)
      (set_ss i (record (s.ss_state i) { active = false }) s)

-- One round of the loop: `delivered` is whether the heartbeat could be sent.
unfoldable pub heartbeat : (ℕ → Bool) → ℕ → Server → Server
heartbeat delivered i s =
    let ss = s.ss_state i in
    let s' =
      if delivered i
      then s
      else set_ss i (record ss { missed_heartbeats = ss.missed_heartbeats + 1 }) s in
    if ss.active
    then if leb 3 (s'.ss_state i).missed_heartbeats then fail_server i s' else s'
    else s

unfoldable pub process_ss_heartbeats : (ℕ → Bool) → Server → Server
process_ss_heartbeats delivered = for_range max_connections 0 (heartbeat delivered)
