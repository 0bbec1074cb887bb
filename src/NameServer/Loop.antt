-- ===== src/NameServer/Loop.antt =====
-- The loop of `main` in name/name_server.c, over what `select`, `accept` and `recv` give. The set of
-- sockets that are watched, and its highest member, go from round to round.
pub mod Rounds
pub mod Looping
use distributed_document_sys.Protocol.{Sent}
use distributed_document_sys.NameServer.Servers.{
  init_server_state, process_ss_heartbeats, handle_disconnect,
}
use distributed_document_sys.NameServer.State.{Server, done, undefined, Handled}
use distributed_document_sys.NameServer.Run.{Event, handle_nm_message}
use distributed_document_sys.Base.{
  ltb, leb, update, Bool, Option, List, ℕ, suc, ◌==◌, ◌⊎◌, ◌++◌, ◌&&◌, zero, some, inr, none, false,
  true, [], inl, if◌then◌else◌,
}

-- What comes in a round: the sockets that `select` has left in `read_set`, the socket of `accept`
-- if it succeeds, and the message on each socket, none where `recv` gives no header.
pub record Round : Type 0 where
  pub readable : ℕ → Bool
  pub accepted : Option ℕ
  pub received : ℕ → Option Event

pub record Loop : Type 0 where
  pub server : Server
  pub master_set : ℕ → Bool
  pub fdmax : ℕ

-- After some sockets: the loop and what has been sent, or undefined behaviour.
pub data Served : Type 0 where
  served : Loop → List Sent → Served
  broken : Served

abbrev pub with_server : Loop → Handled → Served
with_server l (done s out) = served (record l { server = s }) out
with_server l undefined = broken

abbrev pub and_then : Served → (Loop → Served) → Served
and_then broken go_on = broken
and_then (served l out) go_on = elim (go_on l) [
  | served l' more ↦ served l' (out ++ more)
  | broken ↦ broken
]

-- `FD_SET` and the update of `fdmax`.
unfoldable pub watch : Option ℕ → Loop → Loop
watch none l = l
watch (some new_sock) l = record l {
  master_set = update l.master_set new_sock true;
  fdmax = if ltb l.fdmax new_sock then new_sock else l.fdmax;
}

-- `handle_disconnect` and `FD_CLR`.
unfoldable pub unwatch : ℕ → Loop → Loop
unwatch sock l = record l {
  server = handle_disconnect sock l.server;
  master_set = update l.master_set sock false;
}

unfoldable pub receive : ℕ → Option Event → Loop → Served
receive sock none l = served (unwatch sock l) []
receive sock (some e) l = with_server l (handle_nm_message sock e l.server)

unfoldable pub visit : (listener : ℕ) → Round → ℕ → Loop → Served
visit listener r sock l =
    if leb sock l.fdmax && r.readable sock
    then if sock == listener
      then served (watch r.accepted l) []
      else receive sock (r.received sock) l
    else served l []

-- The loop over the sockets from `sock` on, of which there are `n`; those above `fdmax` are passed
-- over.
unfoldable pub visit_from : (listener : ℕ) → Round → ℕ → ℕ → Loop → Served
visit_from listener r zero sock l = served l []
visit_from listener r (suc n) sock l =
    and_then (visit listener r sock l) (λ l'. visit_from listener r n (suc sock) l')

-- A round after `select`: no socket in ten seconds, then `delivered` is whether a heartbeat could be
-- sent; or the readable ones. `fd_setsize` bounds the descriptors of an `fd_set`.
unfoldable pub main_round : (fd_setsize listener : ℕ) → (ℕ → Bool) ⊎ Round → Loop → Served
main_round fd_setsize listener (inl delivered) l =
    served (record l { server = process_ss_heartbeats delivered l.server }) []
main_round fd_setsize listener (inr r) l = visit_from listener r fd_setsize 0 l

-- Before the first round; `listener` is the socket that listens.
unfoldable pub main_start : (listener : ℕ) → Server → Loop
main_start listener s = record {
  server = init_server_state s;
  master_set = λ i. i == listener;
  fdmax = listener;
}
