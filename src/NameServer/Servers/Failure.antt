-- ===== src/NameServer/Servers/Failure.antt =====
-- Proofs about the heartbeats of name/name_server.c: a storage server that misses them.
use mathlib.Core.Path.{fun_ext}
use distributed_document_sys.NameServer.Catalog.{find_available_ss, user_of, find_empty_file_slot}
use distributed_document_sys.NameServer.State.{SsInfo, ClientInfo, Server}
use distributed_document_sys.NameServer.Index.View.{IsValid, view, add_to_hashmap-view}
use distributed_document_sys.NameServer.Files.{create_confirmed, handle_req_create, add_entry}
use distributed_document_sys.NameServer.Servers.{
  set_ss, fail_server, heartbeat, mark_inactive, for_range,
}
use distributed_document_sys.NameServer.Consistent.{with_slot_none, Succeeds, IsConsistent}
use distributed_document_sys.Protocol.{is_ok, MessageType, max_files_in_system}
use distributed_document_sys.Base.{
  sym, subst, none, ap, update, ltb, Bool, arith, ℕ, ◌<◌, true, ◌∙◌, zero, CString, ◌≤◌, inr, ◌≡◌,
  false, refl, Bool-cases, some, suc, inl, ◌+◌,
}

for_range-inactive :
    (ss n first i : ℕ) (s : Server)
    → (s.file_catalog i).active ≡ false
    → ((for_range n first (mark_inactive ss) s).file_catalog i).active ≡ false
unfolding for_range mark_inactive
for_range-inactive ss zero first i s off = off
for_range-inactive ss (suc n) first i s off =
    for_range-inactive ss n (suc first) i (mark_inactive ss first s) (ground arith)

-- The loop takes each file of the failed server out of service.
for_range-mark_inactive :
    (ss n first i : ℕ) (s : Server)
    → first ≤ i
    → i < first + n
    → (s.file_catalog i).ss_sock_fd ≡ ss
    → ((for_range n first (mark_inactive ss) s).file_catalog i).active ≡ false
unfolding for_range mark_inactive
for_range-mark_inactive ss zero first i s lo hi on = absurd (omega arith)
for_range-mark_inactive ss (suc n) first i s lo hi on = elim (Bool-cases (ltb first i)) [
  | inl later ↦
      for_range-mark_inactive ss n (suc first) i (mark_inactive ss first s) (ground arith)
        (omega arith) (ground arith)
  | inr here ↦ for_range-inactive ss n (suc first) i (mark_inactive ss first s) (ground arith)
]

for_range-ss_state :
    (ss n first : ℕ) (s : Server) → (for_range n first (mark_inactive ss) s).ss_state ≡ s.ss_state
unfolding for_range mark_inactive
for_range-ss_state ss zero first s = refl
for_range-ss_state ss (suc n) first s =
    for_range-ss_state ss n (suc first) (mark_inactive ss first s) ∙ (ground arith)

fail_server_lem :
    (i : ℕ) (s : Server)
    → ((fail_server i s).ss_state ≡ update s.ss_state i (record (s.ss_state i) { active = false }))
      × ((j : ℕ)
          → j < max_files_in_system
          → (s.file_catalog j).ss_sock_fd ≡ i
          → ((fail_server i s).file_catalog j).active ≡ false)
unfolding fail_server
fail_server_lem i s = (
  for_range-ss_state i max_files_in_system 0 _,
  λ j lt held. for_range-mark_inactive i max_files_in_system 0 j _ (omega arith) lt held,
)

-- An active storage server to which the heartbeat cannot be sent is one further in its count
-- of misses, stays active exactly below three misses, and at the third miss every catalog
-- entry that it holds is inactive.
pub heartbeat_failure :
    (delivered : ℕ → Bool) (i : ℕ) (s : Server)
    → (s.ss_state i).active ≡ true
    → delivered i ≡ false
    → let t = heartbeat delivered i s in
      ((t.ss_state i).missed_heartbeats ≡ (s.ss_state i).missed_heartbeats + 1)
      × ((t.ss_state i).active ≡ ltb ((s.ss_state i).missed_heartbeats + 1) 3)
      × (2 ≤ (s.ss_state i).missed_heartbeats
          → (j : ℕ) → j < max_files_in_system
          → (s.file_catalog j).ss_sock_fd ≡ i
          → (t.file_catalog j).active ≡ false)
unfolding heartbeat
heartbeat_failure delivered i s on lost =
    let s' =
      set_ss i (record (s.ss_state i) { missed_heartbeats = (s.ss_state i).missed_heartbeats + 1 })
        s in
    let failed = fail_server_lem i s' in
    (
      ground (arith, ap (λ (a : ℕ → SsInfo). (a i).missed_heartbeats) failed.0),
      ground (arith, ap (λ (a : ℕ → SsInfo). (a i).active) failed.0),
      λ many j lt held. ground (arith, failed.1 j lt),
    )

for_range-same :
    (ss n first : ℕ) (s : Server)
    → ((for_range n first (mark_inactive ss) s).index ≡ s.index)
      × ((for_range n first (mark_inactive ss) s).client_state ≡ s.client_state)
unfolding for_range mark_inactive
for_range-same ss zero first s = (refl, refl)
for_range-same ss (suc n) first s =
    let (ix, clients) = for_range-same ss n (suc first) (mark_inactive ss first s) in
    (ix ∙ (ground arith), clients ∙ (ground arith))

fail_server-same :
    (i : ℕ) (s : Server)
    → ((fail_server i s).index ≡ s.index) × ((fail_server i s).client_state ≡ s.client_state)
unfolding fail_server
fail_server-same i s = for_range-same i max_files_in_system 0 _

-- A heartbeat leaves the index and the clients as they were.
heartbeat-same :
    (delivered : ℕ → Bool) (i : ℕ) (s : Server)
    → ((heartbeat delivered i s).index ≡ s.index)
      × ((heartbeat delivered i s).client_state ≡ s.client_state)
unfolding heartbeat
heartbeat-same delivered i s =
    let missed =
      set_ss i (record (s.ss_state i) { missed_heartbeats = (s.ss_state i).missed_heartbeats + 1 })
        s in
    (
      ground (arith, (fail_server-same i s).0, (fail_server-same i missed).0),
      ground (arith, (fail_server-same i s).1, (fail_server-same i missed).1),
    )

-- The third miss changes the state of no other storage server.
pub heartbeat-ss_state :
    (delivered : ℕ → Bool) (i : ℕ) (s : Server)
    → (s.ss_state i).active ≡ true
    → 2 ≤ (s.ss_state i).missed_heartbeats
    → delivered i ≡ false
    → (heartbeat delivered i s).ss_state
      ≡ update s.ss_state i (record (s.ss_state i) {
        active = false;
        missed_heartbeats = (s.ss_state i).missed_heartbeats + 1;
      })
unfolding heartbeat
heartbeat-ss_state delivered i s up many lost =
    let missed =
      set_ss i (record (s.ss_state i) { missed_heartbeats = (s.ss_state i).missed_heartbeats + 1 })
        s in
    let whole : heartbeat delivered i s ≡ fail_server i missed = ground arith in
    ap (λ (t : Server). t.ss_state) whole
    ∙ (fail_server_lem i missed).0
    ∙ fun_ext (λ k. ground arith)

-- In a consistent server, where a file's active storage server has missed two heartbeats and
-- now cannot be sent one, the file's entry becomes inactive and its name stays indexed. Where
-- then a storage server is left, the file's slot is the first empty one, and a client creates
-- a file of a name that is not indexed and the storage server confirms, the old name leads to
-- the new file, which that client owns.
pub heartbeat-stale :
    (delivered : ℕ → Bool) (s : Server) (name other : CString) (sock i ss ss' : ℕ)
    (reply : MessageType)
    → IsConsistent s
    → view s.index name ≡ some i
    → (s.file_catalog i).ss_sock_fd ≡ ss
    → (s.ss_state ss).active ≡ true
    → 2 ≤ (s.ss_state ss).missed_heartbeats
    → delivered ss ≡ false
    → view s.index other ≡ none
    → find_available_ss (heartbeat delivered ss s) ≡ some ss'
    → find_empty_file_slot (heartbeat delivered ss s) ≡ some i
    → is_ok reply ≡ true
    → let failed = heartbeat delivered ss s in
      ((failed.file_catalog i).active ≡ false)
      × (view failed.index name ≡ some i)
      × Succeeds
          (λ t out.
            (view t.index name ≡ some i)
            × ((t.file_catalog i).active ≡ true)
            × ((t.file_catalog i).filename ≡ other)
            × ((t.file_catalog i).owner ≡ user_of s sock))
          (handle_req_create sock other reply failed)
unfolding handle_req_create create_confirmed find_available_ss find_empty_file_slot add_entry
heartbeat-stale delivered s name other sock i ss ss' reply c found on up many lost fresh server
      empty confirmed =
    let failed = heartbeat delivered ss s in
    let (ix, clients) = heartbeat-same delivered ss s in
    let stays : (k : CString) → view failed.index k ≡ view s.index k = λ k. ap (λ x. view x k) ix in
    (
      (heartbeat_failure delivered ss s up lost).2 many i (c.sound name i found).0 on,
      stays name ∙ found,
      with_slot_none
          (Succeeds (λ t out.
            (view t.index name ≡ some i)
            × ((t.file_catalog i).active ≡ true)
            × ((t.file_catalog i).filename ≡ other)
            × ((t.file_catalog i).owner ≡ user_of s sock)))
          failed other _ (subst IsValid (sym ix) c.valid) (stays other ∙ fresh)
          (λ ix' same.
            rw (server, confirmed, empty, create_confirmed)
              (ground (
                arith,
                add_to_hashmap-view ix' other name i,
                same name,
                stays name,
                fresh,
                found,
                ap (λ (x : ℕ → ClientInfo). (x sock).username) clients,
              ))),
    )
