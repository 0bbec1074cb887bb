-- ===== src/NameServer/Requests/Queue.antt =====
-- Proofs about the queue of access requests in name/handlers.c: the identifiers.
use distributed_document_sys.Protocol.{PermissionLevel}
use distributed_document_sys.NameServer.Requests.{
  close_request, handle_req_request_access, free_request, pending_request,
}
use distributed_document_sys.NameServer.Consistent.{Finishes, IsConsistent, with_slot_cases}
use distributed_document_sys.NameServer.State.{Server, max_access_requests}
use distributed_document_sys.Base.{
  not, arith, ℕ, inr, CString, Option-cases, inl, find_first-eq-some, some, true, ◌≡◌, ◌&&◌, false,
  ◌==◌, ◌<◌,
}

pub record IsOrdered (s : Server) : Type 0 where
  pub issued :
      (i : ℕ)
      → (s.access_requests i).active ≡ true
      → (s.access_requests i).request_id < s.next_request_id
  pub distinct :
      (i j : ℕ)
      → (s.access_requests i).active ≡ true
      → (s.access_requests j).active ≡ true
      → (s.access_requests i).request_id ≡ (s.access_requests j).request_id
      → i ≡ j

-- A request that is found by its identifier is pending, and carries it.
pub pending_request-eq-some :
    (id : ℕ) (s : Server) (i : ℕ)
    → pending_request id s ≡ some i
    → (i < max_access_requests)
      × ((s.access_requests i).active ≡ true)
      × ((s.access_requests i).request_id ≡ id)
unfolding pending_request
pending_request-eq-some id s i h = ground (
  arith,
  find_first-eq-some (λ i. (s.access_requests i).active && (s.access_requests i).request_id == id)
      max_access_requests 0 i h,
)

free_request-eq-some :
    (s : Server) (i : ℕ)
    → free_request s ≡ some i
    → (i < max_access_requests) × ((s.access_requests i).active ≡ false)
unfolding free_request
free_request-eq-some s i h =
    ground
      (arith, find_first-eq-some (λ i. not (s.access_requests i).active) max_access_requests 0 i h)

close_request-IsOrdered : (i : ℕ) (s : Server) → IsOrdered s → IsOrdered (close_request i s)
close_request-IsOrdered i s o = record {
  issued = λ k a. ground (arith, o.issued k);
  distinct = λ k j a b e. ground (arith, o.distinct k j);
}

-- In a consistent server `handle_req_request_access` keeps the identifiers of the pending
-- requests distinct and below the next one.
pub handle_req_request_access-IsOrdered :
    (sock : ℕ) (name user : CString) (perm : PermissionLevel) (now : ℕ) (s : Server)
    → IsConsistent s
    → IsOrdered s
    → Finishes IsOrdered (handle_req_request_access sock name user perm now s)
unfolding handle_req_request_access
handle_req_request_access-IsOrdered sock name user perm now s c o =
    with_slot_cases (Finishes IsOrdered) s name _ c
      (λ ix c' same absent. record { issued = o.issued; distinct = o.distinct })
      λ ix slot c' same hit. elim (Option-cases (free_request (record s { index = ix }))) [
        | inl no_room ↦
            rw (no_room, handle_req_request_access)
              (record { issued = o.issued; distinct = o.distinct })
        | inr (i, e) ↦
            rw (e, handle_req_request_access)
              (record {
                issued = λ k a. ground (arith, o.issued k);
                distinct = λ k j a b eq. ground (arith, o.issued k, o.issued j, o.distinct k j);
              })
      ]
