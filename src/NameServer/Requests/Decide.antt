-- ===== src/NameServer/Requests/Decide.antt =====
-- Approving and denying a pending request: who may, and what it changes.
use distributed_document_sys.Protocol.{
  max_permissions_per_file, AccessEntry, PermissionLevel, simple_header, res_ok,
}
use distributed_document_sys.NameServer.Access.{set_access, grant}
use distributed_document_sys.NameServer.Index.View.{view}
use distributed_document_sys.NameServer.State.{Server}
use distributed_document_sys.NameServer.Access.Handlers.{set_access-Changes, permission_at, Changes}
use distributed_document_sys.NameServer.Consistent.{
  Succeeds, IsConsistent, with_slot_cases, Finishes,
}
use distributed_document_sys.NameServer.Catalog.{find_access, user_of, is_owner}
use distributed_document_sys.NameServer.Requests.Queue.{pending_request-eq-some, IsOrdered}
use distributed_document_sys.NameServer.Access.Perms.{find_access-grant}
use distributed_document_sys.Base.{
  length, List, ◌≤◌, ◌<◌, arith, sym, [], refl, ◌∷◌, ℕ, inr, some, if_both, ◌≡◌, inl, none, ◌∙◌,
  ◌⊎◌, Option-cases, CString,
}
use distributed_document_sys.NameServer.Requests.{
  pending_request, close_request, handle_req_deny_request, handle_req_approve_request,
}

-- What a decision on request `id` by `sock`'s user may do to the permission of `u` at `i`: nothing,
-- or what the pending request asks, if that user owns the file that it names.
abbrev pub Decides : Server → ℕ → ℕ → ℕ → CString → Server → Type 0
Decides s sock id i u s' =
    (permission_at s' i u ≡ permission_at s i u)
    ⊎ ((k : ℕ) × (pending_request id s ≡ some k)
        × (view s.index (s.access_requests k).filename ≡ some i)
        × ((s.file_catalog i).owner ≡ user_of s sock)
        × (u ≡ (s.access_requests k).requesting_user)
        × (permission_at s' i u ≡ (s.access_requests k).requested_perm))

Decides-Changes :
    (s s' : Server) (sock id k i : ℕ) (u : CString)
    → pending_request id s ≡ some k
    → Changes s sock
        (s.access_requests k).filename
        (s.access_requests k).requesting_user
        (s.access_requests k).requested_perm
        i
        u
        s'
    → Decides s sock id i u s'
Decides-Changes s s' sock id k i u e (inl same) = inl same
Decides-Changes s s' sock id k i u e (inr (a, b, c, d)) = inr (k, e, a, b, c, d)

-- After an approval on a consistent server each permission is what it was, unless the
-- approving client owns the file that the pending request names, and it is that file's
-- permission of the requesting user, which is then the one requested.
pub handle_req_approve_request-Decides :
    (sock id : ℕ) (s : Server) (i : ℕ) (u : CString)
    → IsConsistent s
    → Finishes (Decides s sock id i u) (handle_req_approve_request sock id s)
unfolding handle_req_approve_request
handle_req_approve_request-Decides sock id s i u c =
    let P = Finishes (Decides s sock id i u) in
    elim (Option-cases (pending_request id s)) [
      | inl absent ↦ rw (absent, handle_req_approve_request) (inl refl)
      | inr (k, e) ↦
          rw (e, handle_req_approve_request)
            (let r = s.access_requests k in
              with_slot_cases P s r.filename _ c (λ ix c' same absent. inl refl)
                λ ix slot c' same hit.
                  let old = (s.file_catalog slot).access_list in
                  if_both P (is_owner s sock (s.file_catalog slot)) _ _
                    (λ own. elim (Option-cases (grant r.requesting_user r.requested_perm old)) [
                      | inl no_room ↦ rw no_room (inl refl)
                      | inr (new, g) ↦ rw g (
                          Decides-Changes s (set_access slot new (record s { index = ix })) sock id
                            k i u e
                            (set_access-Changes s ix sock slot i r.filename r.requesting_user u
                              r.requested_perm new (sym (same r.filename) ∙ hit) own
                              (find_access-grant r.requesting_user u r.requested_perm old new g
                                (c.bounded slot)).0))
                    ])
                    (λ _. inl refl))
    ]

-- In a consistent server a denial, by whomever, changes no permission.
pub handle_req_deny_request-permission_at :
    (sock id : ℕ) (s : Server) (i : ℕ) (u : CString)
    → IsConsistent s
    → Finishes
        (λ s'. permission_at s' i u ≡ permission_at s i u)
        (handle_req_deny_request sock id s)
unfolding handle_req_deny_request
handle_req_deny_request-permission_at sock id s i u c =
    let P = Finishes (λ s'. permission_at s' i u ≡ permission_at s i u) in
    elim (Option-cases (pending_request id s)) [
      | inl absent ↦ rw (absent, handle_req_deny_request) refl
      | inr (k, e) ↦
          rw (e, handle_req_deny_request)
            (with_slot_cases P s (s.access_requests k).filename _ c (λ ix c' same absent. refl)
              λ ix slot c' same hit.
                if_both P (is_owner s sock (s.file_catalog slot)) _ _ (λ _. refl) (λ _. refl))
    ]

-- A request that its file's owner decides on is pending no longer: the identifier is free.
close_request-pending :
    (s : Server) (id k : ℕ)
    → IsOrdered s
    → pending_request id s ≡ some k
    → pending_request id (close_request k s) ≡ none
close_request-pending s id k o e = elim (Option-cases (pending_request id (close_request k s))) [
  | inl gone ↦ gone
  | inr (j, f) ↦ absurd (
      ground (
        arith,
        pending_request-eq-some id s k e,
        pending_request-eq-some id (close_request k s) j f,
        o.distinct k j,
      ))
]

-- In a consistent server with ordered requests, where the request is pending and the client
-- owns the file that it names, a denial answers with success, leaves no pending request of
-- that identifier and does not change the catalog.
pub handle_req_deny_request_lem :
    (sock id : ℕ) (s : Server) (k slot : ℕ)
    → IsConsistent s
    → IsOrdered s
    → pending_request id s ≡ some k
    → view s.index (s.access_requests k).filename ≡ some slot
    → (s.file_catalog slot).owner ≡ user_of s sock
    → Succeeds
        (λ s' out.
          (pending_request id s' ≡ none)
          × (s'.file_catalog ≡ s.file_catalog)
          × (out ≡ simple_header sock res_ok ∷ []))
        (handle_req_deny_request sock id s)
unfolding handle_req_deny_request pending_request
handle_req_deny_request_lem sock id s k slot c o e found own =
    rw (e, handle_req_deny_request)
      (let P = Succeeds (λ s' out.
          (pending_request id s' ≡ none)
          × (s'.file_catalog ≡ s.file_catalog)
          × (out ≡ simple_header sock res_ok ∷ [])) in
        with_slot_cases P s (s.access_requests k).filename _ c
          (λ ix c' same absent. ground (arith, same (s.access_requests k).filename))
          λ ix slot' c' same hit.
            let q : slot' ≡ slot = ground (arith, same (s.access_requests k).filename) in
            if_both P (is_owner s sock (s.file_catalog slot')) _ _
              (λ _. (
                close_request-pending (record s { index = ix }) id k
                    (record { issued = o.issued; distinct = o.distinct }) e,
                refl,
                refl,
              ))
              (λ other. absurd (ground arith)))

grant-eq-none :
    (user : CString) (perm : PermissionLevel) (access : List AccessEntry)
    → grant user perm access ≡ none
    → max_permissions_per_file ≤ length access
unfolding grant
grant-eq-none user perm access h = ground arith

-- In a consistent server with ordered requests, where the request is pending, the client owns
-- the file that it names and the file's access list is not full, an approval makes the access
-- list give the requesting user what the request asks, and leaves no pending request of that
-- identifier.
pub handle_req_approve_request_lem :
    (sock id : ℕ) (s : Server) (k slot : ℕ)
    → IsConsistent s
    → IsOrdered s
    → pending_request id s ≡ some k
    → view s.index (s.access_requests k).filename ≡ some slot
    → (s.file_catalog slot).owner ≡ user_of s sock
    → length (s.file_catalog slot).access_list < max_permissions_per_file
    → Succeeds
        (λ s' out.
          (pending_request id s' ≡ none)
          × (find_access (s.access_requests k).requesting_user (s'.file_catalog slot).access_list
              ≡ (s.access_requests k).requested_perm))
        (handle_req_approve_request sock id s)
unfolding handle_req_approve_request pending_request
handle_req_approve_request_lem sock id s k slot c o e found own room =
    rw (e, handle_req_approve_request)
      (let r = s.access_requests k in
        let P = Succeeds (λ s' out.
          (pending_request id s' ≡ none)
          × (find_access r.requesting_user (s'.file_catalog slot).access_list
              ≡ r.requested_perm)) in
        with_slot_cases P s r.filename _ c (λ ix c' same absent. ground (arith, same r.filename))
          λ ix slot' c' same hit.
            let q : slot' ≡ slot = ground (arith, same r.filename) in
            let old = (s.file_catalog slot').access_list in
            if_both P (is_owner s sock (s.file_catalog slot')) _ _
              (λ _. elim (Option-cases (grant r.requesting_user r.requested_perm old)) [
                | inl no_room ↦
                    absurd
                      (ground (arith, grant-eq-none r.requesting_user r.requested_perm old no_room))
                | inr (new, g) ↦ rw g (
                  close_request-pending (set_access slot' new (record s { index = ix })) id k
                      (record { issued = o.issued; distinct = o.distinct }) e,
                  ground (
                    arith,
                    find_access-grant r.requesting_user r.requesting_user r.requested_perm old new g
                        (c.bounded slot'),
                  ),
                )
              ])
              (λ other. absurd (ground arith)))
