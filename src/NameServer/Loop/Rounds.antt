-- ===== src/NameServer/Loop/Rounds.antt =====
-- Proofs about the rounds of the loop in name/name_server.c.
use distributed_document_sys.Protocol.{Sent}
use distributed_document_sys.NameServer.Run.{Event, disconnect, handle_nm_message}
use distributed_document_sys.NameServer.State.{Server, Handled, undefined, done}
use distributed_document_sys.Base.{
  ap, ◌∙◌, leb, arith, if_both, false, inr, Bool-cases, refl, inl, not, ℕ, Option, List, zero, ◌≤◌,
  ◌&&◌, some, suc, true, none, ◌≡◌, if◌then◌else◌, ◌==◌, ◌++◌, ◌∷◌, [],
}
use distributed_document_sys.NameServer.Loop.{
  main_round, visit_from, with_server, and_then, unwatch, receive, watch, visit, Round, Loop,
  Served, broken, served,
}

-- A handler's result after what has been sent before.
abbrev pub after_sent : List Sent → Handled → Handled
after_sent out undefined = undefined
after_sent out (done s more) = done s (out ++ more)

-- The handlers of some messages, one after the other.
unfoldable pub handle_all : List (ℕ × Event) → Server → Handled
handle_all [] s = done s []
handle_all ((sock, e) ∷ es) s = elim (handle_nm_message sock e s) [
  | undefined ↦ undefined
  | done s' out ↦ after_sent out (handle_all es s')
]

-- A socket without a message is one that has gone.
abbrev pub event_of : Option Event → Event
event_of none = disconnect
event_of (some e) = e

-- The readable sockets from `sock` on, in ascending order, with their messages.
unfoldable pub events_from : (listener : ℕ) → Round → ℕ → ℕ → List (ℕ × Event)
events_from listener r zero sock = []
events_from listener r (suc n) sock =
    let rest = events_from listener r n (suc sock) in
    if r.readable sock && not (sock == listener)
    then (sock, event_of (r.received sock)) ∷ rest
    else rest

-- The server's part.
abbrev pub handled : Served → Handled
handled (served l out) = done l.server out
handled broken = undefined

-- Every socket that is watched is looked at: none is above `fdmax`.
abbrev pub IsWatched : (listener : ℕ) → Loop → Type 0
IsWatched listener l =
    (l.master_set listener ≡ true) × ((k : ℕ) → l.master_set k ≡ true → k ≤ l.fdmax)

abbrev pub EnsuresLoop : (Loop → Type 0) → Served → Type 0
EnsuresLoop P broken = Unit
EnsuresLoop P (served l out) = P l

handled-and_then :
    (l : Loop) (out : List Sent) (go_on : Loop → Served)
    → handled (and_then (served l out) go_on) ≡ after_sent out (handled (go_on l))
handled-and_then l out go_on = both (go_on l)
  where
    both :
        (x : Served)
        → handled (elim x [ served l' more ↦ served l' (out ++ more) | broken ↦ broken ])
          ≡ after_sent out (handled x)
    both (served l' more) = refl
    both broken = refl

after_sent-nil : (h : Handled) → after_sent [] h ≡ h
after_sent-nil (done s out) = refl
after_sent-nil undefined = refl

watch_server : (new_sock : Option ℕ) (l : Loop) → (watch new_sock l).server ≡ l.server
unfolding watch
watch_server none l = refl
watch_server (some new_sock) l = refl

watch_fdmax : (new_sock : Option ℕ) (l : Loop) → l.fdmax ≤ (watch new_sock l).fdmax
unfolding watch
watch_fdmax none l = omega arith
watch_fdmax (some new_sock) l = ground arith

module _ (listener : ℕ) (r : Round) where
  Kept : Loop → Loop → Type 0
  Kept l l' = IsWatched listener l' × (l.fdmax ≤ l'.fdmax)

  watch-Kept : (new_sock : Option ℕ) (l : Loop) → IsWatched listener l → Kept l (watch new_sock l)
  unfolding Kept watch
  watch-Kept none l w = (w, omega arith)
  watch-Kept (some new_sock) l (listens, within) = (
    (
      ground arith,
      λ k h. elim (Bool-cases (new_sock == k)) [
        | inl same ↦ ground arith
        | inr other ↦
            let was : l.master_set k ≡ true = ground arith in let le = within k was in ground arith
      ],
    ),
    ground arith,
  )

  unwatch-Kept :
      (sock : ℕ) (l : Loop)
      → (sock == listener) ≡ false
      → IsWatched listener l
      → Kept l (unwatch sock l)
  unfolding Kept unwatch
  unwatch-Kept sock l other (listens, within) = (
    (ground arith, λ k h. let was : l.master_set k ≡ true = ground arith in within k was),
    omega arith,
  )

  receive-Kept :
      (sock : ℕ) (e : Option Event) (l : Loop)
      → (sock == listener) ≡ false
      → IsWatched listener l
      → EnsuresLoop (Kept l) (receive sock e l)
  unfolding receive Kept
  receive-Kept sock none l other w = unwatch-Kept sock l other w
  receive-Kept sock (some e) l other w = unasked (handle_nm_message sock e l.server)
    where
      unasked : (h : Handled) → EnsuresLoop (Kept l) (with_server l h)
      unasked (done s out) = (w, omega arith)
      unasked undefined = tt

  visit-Kept :
      (sock : ℕ) (l : Loop) → IsWatched listener l → EnsuresLoop (Kept l) (visit listener r sock l)
  unfolding visit Kept
  visit-Kept sock l w =
      if_both (EnsuresLoop (Kept l)) (leb sock l.fdmax && r.readable sock) _ _
        (λ _.
          if_both (EnsuresLoop (Kept l)) (sock == listener) _ _ (λ _. watch-Kept r.accepted l w)
            (λ other. receive-Kept sock (r.received sock) l other w))
        (λ _. (w, omega arith))

  -- What comes after a message is handled where it has left the loop.
  handled-receive :
      (sock : ℕ) (e : Option Event) (l : Loop) (rest : List (ℕ × Event)) (go_on : Loop → Served)
      → ((l' : Loop) → l.fdmax ≤ l'.fdmax → handled (go_on l') ≡ handle_all rest l'.server)
      → handled (and_then (receive sock e l) go_on)
        ≡ handle_all ((sock, event_of e) ∷ rest) l.server
  unfolding receive unwatch handle_all handle_nm_message
  handled-receive sock none l rest go_on k =
      handled-and_then (unwatch sock l) [] go_on
      ∙ ap (after_sent []) (k (unwatch sock l) (omega arith))
  handled-receive sock (some e) l rest go_on k = by_result (handle_nm_message sock e l.server)
    where
      by_result :
          (h : Handled)
          → handled (and_then (with_server l h) go_on)
            ≡ elim h [ undefined ↦ undefined | done s' out ↦ after_sent out (handle_all rest s') ]
      by_result (done s' out) =
          handled-and_then (record l { server = s' }) out go_on
          ∙ ap (after_sent out) (k (record l { server = s' }) (omega arith))
      by_result undefined = refl

  handled-visit :
      (sock : ℕ) (l : Loop) (rest : List (ℕ × Event)) (go_on : Loop → Served)
      → (r.readable sock ≡ true → sock ≤ l.fdmax)
      → ((l' : Loop) → l.fdmax ≤ l'.fdmax → handled (go_on l') ≡ handle_all rest l'.server)
      → handled (and_then (visit listener r sock l) go_on)
        ≡ handle_all
            (if r.readable sock && not (sock == listener)
              then (sock, event_of (r.received sock)) ∷ rest
              else rest)
            l.server
  unfolding visit watch
  handled-visit sock l rest go_on below k =
      let idle : (l' : Loop)
          → l.fdmax ≤ l'.fdmax
          → handled (and_then (served l' []) go_on) ≡ handle_all rest l'.server =
        λ l' up.
          handled-and_then l' [] go_on
          ∙ ap (after_sent []) (k l' up)
          ∙ after_sent-nil (handle_all rest l'.server) in
      elim (Bool-cases (r.readable sock)) [
        | inr unread ↦
            let skipped : visit listener r sock l ≡ served l [] = ground arith in
            rw (skipped, unread) (idle l (omega arith))
        | inl read ↦
            let le : leb sock l.fdmax ≡ true = let at_most = below read in ground arith in
            elim (Bool-cases (sock == listener)) [
              | inl listening ↦
                  rw (visit, le, read, listening)
                    (idle (watch r.accepted l) (watch_fdmax r.accepted l)
                      ∙ ap (handle_all rest) (watch_server r.accepted l))
              | inr other ↦
                  rw (visit, le, read, other)
                    (handled-receive sock (r.received sock) l rest go_on k)
            ]
      ]

  handled-visit_from :
      (n sock : ℕ) (l : Loop)
      → ((k : ℕ) → r.readable k ≡ true → k ≤ l.fdmax)
      → handled (visit_from listener r n sock l)
        ≡ handle_all (events_from listener r n sock) l.server
  unfolding visit_from events_from handle_all
  handled-visit_from zero sock l below = refl
  handled-visit_from (suc n) sock l below =
      handled-visit sock l (events_from listener r n (suc sock))
        (λ l'. visit_from listener r n (suc sock) l') (below sock)
        (λ l' up.
          handled-visit_from n (suc sock) l' (λ k read. let at_most = below k read in omega arith))

  visit_from-IsWatched :
      (n sock : ℕ) (l : Loop)
      → IsWatched listener l
      → EnsuresLoop (IsWatched listener) (visit_from listener r n sock l)
  unfolding visit_from Kept
  visit_from-IsWatched zero sock l w = w
  visit_from-IsWatched (suc n) sock l w =
      both (λ l' w'. visit_from-IsWatched n (suc sock) l' w') (visit listener r sock l)
        (visit-Kept sock l w)
    where
      last :
          (out : List Sent) (x : Served)
          → EnsuresLoop (IsWatched listener) x
          → EnsuresLoop
              (IsWatched listener)
              (elim x [ served l' more ↦ served l' (out ++ more) | broken ↦ broken ])
      last out (served l' more) w = w
      last out broken w = tt

      both :
          ((l' : Loop)
            → IsWatched listener l'
            → EnsuresLoop (IsWatched listener) (visit_from listener r n (suc sock) l'))
          → (x : Served) → EnsuresLoop (Kept l) x
          → EnsuresLoop
              (IsWatched listener)
              (and_then x (λ l'. visit_from listener r n (suc sock) l'))
      both later (served l' out) (w', up) =
          last out (visit_from listener r n (suc sock) l') (later l' w')
      both later broken w' = tt

-- Where no watched socket is above `fdmax`, and `select` reports watched ones only, a round
-- does what the handlers of the messages on the readable sockets but the listener do, each
-- once and in ascending order, a socket without a message being disconnected; and in the loop
-- after it the listener is watched and no watched socket is above `fdmax`, also one that was
-- accepted.
pub main_round-handle_all :
    (fd_setsize listener : ℕ) (r : Round) (l : Loop)
    → IsWatched listener l
    → ((k : ℕ) → r.readable k ≡ true → l.master_set k ≡ true)
    → (handled (main_round fd_setsize listener (inr r) l)
        ≡ handle_all (events_from listener r fd_setsize 0) l.server)
      × EnsuresLoop (IsWatched listener) (main_round fd_setsize listener (inr r) l)
unfolding main_round
main_round-handle_all fd_setsize listener r l w reported = (
  handled-visit_from listener r fd_setsize 0 l (λ k read. w.1 k (reported k read)),
  visit_from-IsWatched listener r fd_setsize 0 l w,
)
