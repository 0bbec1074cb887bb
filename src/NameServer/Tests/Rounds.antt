-- ===== src/NameServer/Tests/Rounds.antt =====
-- Rounds of the naming server's loop on concrete states, and the theorems on it applied.
use distributed_document_sys.NameServer.Tests.{zeroed, one_file}
use distributed_document_sys.NameServer.Loop.{
  watch, visit, Round, Loop, visit_from, main_start, main_round,
}
use distributed_document_sys.NameServer.Run.{list_users, Reachable}
use distributed_document_sys.NameServer.Servers.{init_server_state}
use distributed_document_sys.NameServer.Consistent.{IsConsistent}
use distributed_document_sys.Base.{
  update, Bool, arith, ℕ, ◌∷◌, some, ◌||◌, [], inr, true, ◌==◌, none, refl, if◌then◌else◌, ◌≡◌,
}
use distributed_document_sys.NameServer.Loop.Looping.{Looping-IsConsistent, turned, booted, Looping}
use distributed_document_sys.NameServer.Loop.Rounds.{
  handled, EnsuresLoop, handle_all, events_from, IsWatched, main_round-handle_all,
}

-- The listener is socket 3, alice's is 7.
abbrev watched : ℕ → Bool
watched k = k == 3 || k == 7

abbrev serving_alice : Loop
serving_alice = record { server = one_file; master_set = watched; fdmax = 7 }

-- bob connects while alice asks for the users.
abbrev busy : Round
busy = record {
  readable = watched;
  accepted = some 8;
  received = λ k. if k == 7 then some list_users else none;
}

serving_alice-IsWatched : IsWatched 3 serving_alice
serving_alice-IsWatched = (refl, λ k h. ground arith)

main_round-handle_all_example :
    (handled (main_round 16 3 (inr busy) serving_alice)
      ≡ handle_all (events_from 3 busy 16 0) one_file)
    × EnsuresLoop (IsWatched 3) (main_round 16 3 (inr busy) serving_alice)
main_round-handle_all_example =
    main_round-handle_all 16 3 busy serving_alice serving_alice-IsWatched (λ k h. h)

one_event : events_from 3 busy 16 0 ≡ (7, list_users) ∷ []
unfolding events_from
one_event = refl

-- The first round, in which a client connects.
abbrev connecting : Round
connecting = record { readable = λ k. k == 3; accepted = some 7; received = λ _. none }

abbrev connected : Loop
connected = record {
  server = init_server_state zeroed;
  master_set = update (λ k. k == 3) 7 true;
  fdmax = 7;
}

connected-Looping : Looping 16 3 zeroed connected
unfolding main_start main_round visit_from visit watch events_from
connected-Looping = turned connecting [] booted (λ k h. h) tt refl

Looping-IsConsistent_example :
    Reachable zeroed connected.server × IsConsistent connected.server × IsWatched 3 connected
Looping-IsConsistent_example = Looping-IsConsistent 16 3 connected-Looping
