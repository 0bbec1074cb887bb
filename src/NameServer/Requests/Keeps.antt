-- ===== src/NameServer/Requests/Keeps.antt =====
-- Proofs about the request handlers of name/handlers.c: the invariant of Consistent.
use distributed_document_sys.NameServer.Access.{grant}
use distributed_document_sys.NameServer.State.{Server}
use distributed_document_sys.NameServer.Index.View.{IsValid}
use distributed_document_sys.Base.{
  arith, sym, subst, ℕ, Option-cases, if_both, ◌≡◌, CString, inr, refl, inl,
}
use distributed_document_sys.NameServer.Access.Perms.{find_access-grant}
use distributed_document_sys.NameServer.Requests.{
  pending_request, handle_req_request_access, handle_req_approve_request, handle_req_deny_request,
  free_request,
}
use distributed_document_sys.Protocol.{PermissionLevel}
use distributed_document_sys.NameServer.Catalog.{is_owner}
use distributed_document_sys.NameServer.Access.Handlers.{set_access-IsConsistent}
use distributed_document_sys.NameServer.Consistent.{with_slot_cases, Finishes, IsConsistent}

-- A change that index and catalog do not see.
pub unseen :
    (s t : Server)
    → t.index ≡ s.index
    → t.file_catalog ≡ s.file_catalog
    → IsConsistent s
    → IsConsistent t
unseen s t p q c = record {
  valid = subst IsValid (sym p) c.valid;
  sound = λ name slot h. ground (arith, p, q, c.sound name slot);
  listed = λ slot lt a. ground (arith, p, q, c.listed slot lt);
  bounded = λ slot. ground (arith, q, c.bounded slot);
}

pub handle_req_request_access-IsConsistent :
    (sock : ℕ) (name user : CString) (perm : PermissionLevel) (now : ℕ) (s : Server)
    → IsConsistent s
    → Finishes IsConsistent (handle_req_request_access sock name user perm now s)
unfolding handle_req_request_access
handle_req_request_access-IsConsistent sock name user perm now s c =
    with_slot_cases (Finishes IsConsistent) s name _ c (λ ix c' same absent. c')
      λ ix slot c' same hit. elim (Option-cases (free_request (record s { index = ix }))) [
        | inl no_room ↦ rw (no_room, handle_req_request_access) c'
        | inr (i, e) ↦ rw (e, handle_req_request_access) (unseen _ _ refl refl c')
      ]

pub handle_req_approve_request-IsConsistent :
    (sock id : ℕ) (s : Server)
    → IsConsistent s
    → Finishes IsConsistent (handle_req_approve_request sock id s)
unfolding handle_req_approve_request
handle_req_approve_request-IsConsistent sock id s c = elim (Option-cases (pending_request id s)) [
  | inl absent ↦ rw (absent, handle_req_approve_request) c
  | inr (k, e) ↦
      rw (e, handle_req_approve_request)
        (let r = s.access_requests k in
          with_slot_cases (Finishes IsConsistent) s r.filename _ c (λ ix c' same absent. c')
            λ ix slot c' same hit.
              let old = (s.file_catalog slot).access_list in
              if_both (Finishes IsConsistent) (is_owner s sock (s.file_catalog slot)) _ _
                (λ own. elim (Option-cases (grant r.requesting_user r.requested_perm old)) [
                  | inl no_room ↦ rw no_room c'
                  | inr (new, g) ↦ rw g (
                      unseen _ _ refl refl (
                        set_access-IsConsistent slot new _ c'
                          (find_access-grant r.requesting_user r.requesting_user r.requested_perm
                            old new g (c.bounded slot)).1))
                ])
                (λ _. c'))
]

pub handle_req_deny_request-IsConsistent :
    (sock id : ℕ) (s : Server)
    → IsConsistent s
    → Finishes IsConsistent (handle_req_deny_request sock id s)
unfolding handle_req_deny_request
handle_req_deny_request-IsConsistent sock id s c = elim (Option-cases (pending_request id s)) [
  | inl absent ↦ rw (absent, handle_req_deny_request) c
  | inr (k, e) ↦
      rw (e, handle_req_deny_request)
        (with_slot_cases (Finishes IsConsistent) s (s.access_requests k).filename _ c
          (λ ix c' same absent. c')
          λ ix slot c' same hit.
            if_both (Finishes IsConsistent) (is_owner s sock (s.file_catalog slot)) _ _
              (λ _. unseen _ _ refl refl c') (λ _. c'))
]
