-- ===== src/NameServer/Servers/Start.antt =====
-- Proofs about name/name_server.c and `handle_disconnect`: the invariant of Consistent.
use distributed_document_sys.NameServer.State.{Server}
use distributed_document_sys.NameServer.Files.Keeps.{delist-IsConsistent}
use distributed_document_sys.NameServer.Index.View.{view-empty, empty-IsValid}
use distributed_document_sys.Protocol.{max_files_in_system}
use distributed_document_sys.NameServer.Consistent.{IsConsistent}
use distributed_document_sys.NameServer.Servers.{
  handle_disconnect, for_range, delist_if_on, init_server_state,
}
use distributed_document_sys.Base.{arith, ℕ, ◌<◌, ◌≤◌, suc, zero, ◌&&◌, ◌==◌, ◌+◌, if_both}

pub init_server_state-IsConsistent : (s : Server) → IsConsistent (init_server_state s)
unfolding init_server_state
init_server_state-IsConsistent s = record {
  valid = empty-IsValid;
  sound = λ name slot h. absurd (ground (arith, view-empty name));
  listed = λ slot lt a. absurd (ground arith);
  bounded = λ slot. omega arith;
}

delist_if_on-IsConsistent :
    (sock i : ℕ) (s : Server)
    → i < max_files_in_system
    → IsConsistent s
    → IsConsistent (delist_if_on sock i s)
unfolding delist_if_on
delist_if_on-IsConsistent sock i s lt c =
    if_both IsConsistent ((s.file_catalog i).active && (s.file_catalog i).ss_sock_fd == sock) _ _
      (λ on. delist-IsConsistent i (s.file_catalog i).filename s c (c.listed i lt (ground arith)))
      (λ _. c)

for_range-IsConsistent :
    (sock n first : ℕ) (s : Server)
    → first + n ≤ max_files_in_system
    → IsConsistent s
    → IsConsistent (for_range n first (delist_if_on sock) s)
unfolding for_range
for_range-IsConsistent sock zero first s le c = c
for_range-IsConsistent sock (suc n) first s le c =
    for_range-IsConsistent sock n (suc first) (delist_if_on sock first s) (omega arith)
      (delist_if_on-IsConsistent sock first s (omega arith) c)

-- A disconnection keeps the server consistent, also that of a storage server with its files.
pub handle_disconnect-IsConsistent :
    (sock : ℕ) (s : Server) → IsConsistent s → IsConsistent (handle_disconnect sock s)
unfolding handle_disconnect
handle_disconnect-IsConsistent sock s c =
    if_both IsConsistent (s.client_state sock).active _ _
      (λ _. record { valid = c.valid; sound = c.sound; listed = c.listed; bounded = c.bounded })
      (λ _.
        if_both IsConsistent (s.ss_state sock).active _ _
          (λ _.
            for_range-IsConsistent sock max_files_in_system 0 _ (omega arith)
              (record { valid = c.valid; sound = c.sound; listed = c.listed; bounded = c.bounded }))
          (λ _. c))
