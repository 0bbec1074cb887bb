-- ===== src/NameServer/Loop/Looping.antt =====
-- Proofs about the loop in name/name_server.c: what holds in every round.
use distributed_document_sys.Protocol.{Sent}
use distributed_document_sys.NameServer.Servers.{init_server_state}
use distributed_document_sys.NameServer.Loop.{Round, Loop, main_round, main_start, served}
use distributed_document_sys.NameServer.State.{Server, done, Handled, undefined}
use distributed_document_sys.NameServer.Loop.Rounds.{
  handled, events_from, after_sent, main_round-handle_all, handle_all, IsWatched, EnsuresLoop,
}
use distributed_document_sys.NameServer.Consistent.{Ensures, IsConsistent}
use distributed_document_sys.NameServer.Run.{
  start, Event, Reachable-IsConsistent, handle_nm_message, Reachable, Allowed, next,
}
use distributed_document_sys.Base.{
  subst, ap, sym, arith, ℕ, List, [], ◌∷◌, ◌∙◌, refl, ◌≡◌, true, inr,
}

-- Each message is a step of `Reachable` when its turn comes.
abbrev pub AllAllowed : List (ℕ × Event) → Server → Type 0
AllAllowed [] s = Unit
AllAllowed ((sock, e) ∷ es) s =
    Allowed sock e s
    × ((s' : Server) (out : List Sent)
        → handle_nm_message sock e s ≡ done s' out
        → AllAllowed es s')

-- The loops that `main` can be in, as long as no ten seconds pass without a message.
pub data Looping (fd_setsize listener : ℕ) (s₀ : Server) : Loop → Type 0 where
  booted : Looping fd_setsize listener s₀ (main_start listener s₀)
  turned :
      {l l' : Loop} (r : Round) (out : List Sent)
      → Looping fd_setsize listener s₀ l
      → ((k : ℕ) → r.readable k ≡ true → l.master_set k ≡ true)
      → AllAllowed (events_from listener r fd_setsize 0) l.server
      → main_round fd_setsize listener (inr r) l ≡ served l' out
      → Looping fd_setsize listener s₀ l'

after_sent-Ensures :
    (P : Server → Type 0) (out : List Sent) (h : Handled)
    → Ensures P h
    → Ensures P (after_sent out h)
after_sent-Ensures P out (done s more) p = p
after_sent-Ensures P out undefined p = tt

handle_all-Reachable :
    {s₀ : Server} (es : List (ℕ × Event)) (s : Server)
    → Reachable s₀ s
    → AllAllowed es s
    → Ensures (Reachable s₀) (handle_all es s)
unfolding handle_all
handle_all-Reachable [] s reached allowed = reached
handle_all-Reachable {s₀} ((sock, e) ∷ es) s reached (now, later) =
    answered (λ s' r a. handle_all-Reachable es s' r a) (handle_nm_message sock e s) refl
  where
    answered :
        ((s' : Server)
          → Reachable s₀ s'
          → AllAllowed es s'
          → Ensures (Reachable s₀) (handle_all es s'))
        → (h : Handled) → handle_nm_message sock e s ≡ h
        → Ensures
            (Reachable s₀)
            (elim h [ undefined ↦ undefined | done s' out ↦ after_sent out (handle_all es s') ])
    answered go_on undefined q = tt
    answered go_on (done s' out) q =
        after_sent-Ensures (Reachable s₀) out (handle_all es s')
          (go_on s' (next sock e out reached now q) (later s' out q))

-- In every round of the loop in `main`, as long as no ten seconds pass without a message and
-- each message is a step of `Reachable`, the server is one that the handlers reach, and so
-- consistent; the listener is watched, and no watched socket is above `fdmax`.
pub Looping-IsConsistent :
    (fd_setsize listener : ℕ) {s₀ : Server} {l : Loop}
    → Looping fd_setsize listener s₀ l
    → Reachable s₀ l.server × IsConsistent l.server × IsWatched listener l
unfolding main_start
Looping-IsConsistent fd_setsize listener {s₀} booted =
    let s : Reachable s₀ (init_server_state s₀) = start in
    (s, Reachable-IsConsistent s, (ground arith, λ k watched. ground arith))
Looping-IsConsistent fd_setsize listener {s₀} (turned {l} {l'} r out before reported allowed e) =
    let (reached, _, w) = Looping-IsConsistent fd_setsize listener before in
    let (same, kept) = main_round-handle_all fd_setsize listener r l w reported in
    let e' : handle_all (events_from listener r fd_setsize 0) l.server ≡ done l'.server out =
      sym same ∙ ap handled e in
    let s : Reachable s₀ l'.server =
      subst (Ensures (Reachable s₀)) e'
        (handle_all-Reachable (events_from listener r fd_setsize 0) l.server reached allowed) in
    (s, Reachable-IsConsistent s, subst (EnsuresLoop (IsWatched listener)) e kept)
