-- ===== src/Storage/Loop/Looping.antt =====
-- Proofs about the loop in storage/storage_server.c: what holds in every round.
use distributed_document_sys.Storage.Start.{initialise}
use distributed_document_sys.Storage.Metadata.{MetadataFile}
use distributed_document_sys.Storage.Statistics.{Output}
use distributed_document_sys.Storage.Sessions.{Storage}
use distributed_document_sys.Storage.Locks.Exclusive.{IsExclusive}
use distributed_document_sys.Storage.Files.{handle_nm_message_ss, SsRequest}
use distributed_document_sys.Storage.Clients.{
  Running, idle, answered, gone, files, handle_client_message_ss, ClientRequest,
}
use distributed_document_sys.Storage.Clients.Reached.{Running-IsExclusive}
use distributed_document_sys.Storage.Loop.{
  Round, Loop, Served, served, stopped, broken, watch, unwatch, close_socket, receive, receive_nm,
  visit, visit_from, after, and_then, main_start,
}
use distributed_document_sys.Base.{
  leb, if_both, subst, arith, Bool-cases, Option-cases, Option, List, ℕ, zero, suc, none, ◌==◌,
  true, false, CString, ◌&&◌, some, inl, inr, refl, ◌≡◌, ◌≤◌,
}

-- The naming server and the listener are watched, no watched socket is above `fdmax`, and the watched
-- sockets are those that are open.
abbrev pub IsWatched : (nm_sock listener : ℕ) → Loop → Type 0
IsWatched nm_sock listener l =
    (l.master_set nm_sock ≡ true)
    × (l.master_set listener ≡ true)
    × ((k : ℕ) → l.master_set k ≡ true → k ≤ l.fdmax)
    × ((k : ℕ) → l.master_set k ≡ l.open_sockets k)

abbrev pub EnsuresLoop : (Loop → Type 0) → Served → Type 0
EnsuresLoop P (served l out) = P l
EnsuresLoop P stopped = Unit
EnsuresLoop P broken = Unit

module _ (fresh : ℕ → ℕ) (stamp : CString → ℕ × ℕ) (listing : CString → List CString)
    (nm_sock listener : ℕ) where
  abbrev pub Runs : Loop → Type 0
  Runs l = Running fresh l.storage × IsWatched nm_sock listener l

  watch-Runs : (new_sock : Option ℕ) (l : Loop) → Runs l → Runs (watch new_sock l)
  unfolding watch
  watch-Runs none l p = p
  watch-Runs (some new_sock) l (running, (nm, listens, within, same)) = (
    running,
    (
      ground arith,
      ground arith,
      λ k h. elim (Bool-cases (new_sock == k)) [
        | inl same ↦ ground arith
        | inr other ↦
            let was : l.master_set k ≡ true = ground arith in let le = within k was in ground arith
      ],
      λ k. ground (arith, same k),
    ),
  )

  close_socket-Runs :
      (sock : ℕ) (l : Loop)
      → (sock == nm_sock) ≡ false
      → (sock == listener) ≡ false
      → Runs l
      → Runs (close_socket sock l)
  unfolding close_socket
  close_socket-Runs sock l no_server no_listener (running, (nm, listens, within, same)) = (
    running,
    (
      ground arith,
      ground arith,
      λ k h. let was : l.master_set k ≡ true = ground arith in within k was,
      λ k. ground (arith, same k),
    ),
  )

  receive-Runs :
      (sock : ℕ) (q : Option ClientRequest) (l : Loop)
      → (sock == nm_sock) ≡ false
      → (sock == listener) ≡ false
      → Runs l
      → EnsuresLoop Runs (receive fresh stamp listing nm_sock listener sock q l)
  unfolding receive unwatch
  receive-Runs sock none l no_server no_listener (running, w) =
      close_socket-Runs sock _ no_server no_listener (gone sock running, w)
  receive-Runs sock (some q) l no_server no_listener (running, w) =
      elim (Option-cases (handle_client_message_ss fresh sock q l.storage)) [
        | inl e ↦ rw (e, receive) tt
        | inr (a, e) ↦
            let p : Runs (record l { storage = a.after }) = (answered sock q a running e, w) in
            rw (e, receive)
              (if_both Runs a.closes _ _ (λ _. close_socket-Runs sock _ no_server no_listener p)
                (λ _. p))
      ]

  receive_nm-Runs :
      (q : Option SsRequest) (l : Loop)
      → Runs l
      → EnsuresLoop Runs (receive_nm fresh stamp listing nm_sock listener q l)
  unfolding receive_nm
  receive_nm-Runs none l p = tt
  receive_nm-Runs (some q) l (running, w) =
      elim (Option-cases (
        handle_nm_message_ss stamp listing q
          (record { disk = l.storage.disk; metadata = l.metadata }))) [
            | inl e ↦ rw (e, receive_nm) tt
            | inr ((out, s), e) ↦ rw (e, receive_nm) (files s.disk running, w)
          ]

  visit-Runs :
      (r : Round) (sock : ℕ) (l : Loop)
      → Runs l
      → EnsuresLoop Runs (visit fresh stamp listing nm_sock listener r sock l)
  unfolding visit
  visit-Runs r sock l p =
      if_both (EnsuresLoop Runs) (leb sock l.fdmax && r.readable sock) _ _
        (λ _.
          if_both (EnsuresLoop Runs) (sock == nm_sock) _ _ (λ _. receive_nm-Runs r.asked l p)
            (λ no_server.
              if_both (EnsuresLoop Runs) (sock == listener) _ _ (λ _. watch-Runs r.accepted l p)
                (λ no_listener. receive-Runs sock (r.received sock) l no_server no_listener p)))
        (λ _. p)

  visit_from-Runs :
      (r : Round) (n sock : ℕ) (l : Loop)
      → Runs l
      → EnsuresLoop Runs (visit_from fresh stamp listing nm_sock listener r n sock l)
  unfolding visit_from
  visit_from-Runs r zero sock l p = p
  visit_from-Runs r (suc n) sock l p =
      both (λ l' p'. visit_from-Runs r n (suc sock) l' p')
        (visit fresh stamp listing nm_sock listener r sock l) (visit-Runs r sock l p)
    where
      last :
          (out : List (ℕ × List Output)) (x : Served)
          → EnsuresLoop Runs x
          → EnsuresLoop Runs (after out x)
      last out (served l' more) p' = p'
      last out stopped p' = tt
      last out broken p' = tt

      both :
          ((l' : Loop)
            → Runs l'
            → EnsuresLoop Runs (visit_from fresh stamp listing nm_sock listener r n (suc sock) l'))
          → (x : Served) → EnsuresLoop Runs x
          → EnsuresLoop Runs
              (and_then x (λ l'. visit_from fresh stamp listing nm_sock listener r n (suc sock) l'))
      both later (served l' out) p' =
          last out (visit_from fresh stamp listing nm_sock listener r n (suc sock) l') (later l' p')
      both later stopped p' = tt
      both later broken p' = tt

  -- The loops that `main` can be in; `fd_setsize` bounds the descriptors of an `fd_set`.
  pub data Looping (fd_setsize : ℕ) : Loop → Type 0 where
    booted :
        (s : Storage) (table : MetadataFile)
        → Looping fd_setsize (main_start nm_sock listener s table)
    turned :
        {l l' : Loop} (r : Round) (out : List (ℕ × List Output))
        → Looping fd_setsize l
        → visit_from fresh stamp listing nm_sock listener r fd_setsize 0 l ≡ served l' out
        → Looping fd_setsize l'

  Looping-Runs : (fd_setsize : ℕ) {l : Loop} → Looping fd_setsize l → Runs l
  unfolding main_start initialise
  Looping-Runs fd_setsize (booted s table) =
      let s₁ : Storage = record (initialise s) { global_locks = s.global_locks } in
      (
        idle s₁,
        (
          ground arith,
          ground arith,
          λ k h. elim (Bool-cases (listener == k)) [
            | inl same ↦ ground arith
            | inr other ↦ let was : (k == nm_sock) ≡ true = ground arith in ground arith
          ],
          λ k. refl,
        ),
      )
  Looping-Runs fd_setsize (turned {l} r out before e) =
      subst (EnsuresLoop Runs) e (visit_from-Runs r fd_setsize 0 l (Looping-Runs fd_setsize before))

  -- In every round of the storage server's loop no sentence of a file has two active locks,
  -- the sockets of the naming server and of the listener are watched, no watched socket is
  -- above `fdmax`, and the watched sockets are those that have been opened and not closed.
  pub Looping-IsExclusive :
      (fd_setsize : ℕ) {l : Loop}
      → Looping fd_setsize l
      → IsExclusive l.storage.global_locks × IsWatched nm_sock listener l
  Looping-IsExclusive fd_setsize looping =
      let (running, w) = Looping-Runs fd_setsize looping in (Running-IsExclusive fresh running, w)
