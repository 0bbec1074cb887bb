-- ===== src/NameServer/Access/Handlers.antt =====
-- Proofs about the access handlers of name/handlers.c: who may change what.
use distributed_document_sys.NameServer.Index.{Index}
use distributed_document_sys.NameServer.Index.View.{view}
use distributed_document_sys.NameServer.State.{Server}
use distributed_document_sys.NameServer.Access.{
  revoke, grant, set_access, handle_req_rem_access, handle_req_add_access,
}
use distributed_document_sys.NameServer.Catalog.{user_of, find_access, is_owner, get_permission}
use distributed_document_sys.Base.{
  sym, ◌⊎◌, ◌∙◌, refl, str_eq, arith, length, List, ℕ, CString, ◌≤◌, if◌then◌else◌, inl, inr,
  if_both, ◌≡◌, true, some, Option-cases,
}
use distributed_document_sys.NameServer.Access.Perms.{
  find_access-revoke, find_access-grant, length-revoke-le,
}
use distributed_document_sys.Protocol.{
  no_perm, max_permissions_per_file, PermissionLevel, AccessEntry,
}
use distributed_document_sys.NameServer.Consistent.{
  set_file-IsConsistent, Finishes, with_slot_cases, IsConsistent,
}

pub set_access-IsConsistent :
    (slot : ℕ) (access : List AccessEntry) (s : Server)
    → IsConsistent s
    → length access ≤ max_permissions_per_file
    → IsConsistent (set_access slot access s)
set_access-IsConsistent slot access s c few = set_file-IsConsistent s slot _ c refl refl few

pub handle_req_add_access-IsConsistent :
    (sock : ℕ) (name user : CString) (perm : PermissionLevel) (s : Server)
    → IsConsistent s
    → Finishes IsConsistent (handle_req_add_access sock name user perm s)
unfolding handle_req_add_access
handle_req_add_access-IsConsistent sock name user perm s c =
    with_slot_cases (Finishes IsConsistent) s name _ c (λ ix c' same absent. c')
      λ ix slot c' same hit.
        let old = (s.file_catalog slot).access_list in
        if_both (Finishes IsConsistent) (is_owner s sock (s.file_catalog slot)) _ _
          (λ _. elim (Option-cases (grant user perm old)) [
            | inl no_room ↦ rw no_room c'
            | inr (new, e) ↦ rw e (
                set_access-IsConsistent slot new _ c'
                  (find_access-grant user user perm old new e (c.bounded slot)).1)
          ])
          (λ _. c')

pub handle_req_rem_access-IsConsistent :
    (sock : ℕ) (name user : CString) (perm : PermissionLevel) (s : Server)
    → IsConsistent s
    → Finishes IsConsistent (handle_req_rem_access sock name user perm s)
unfolding handle_req_rem_access
handle_req_rem_access-IsConsistent sock name user perm s c =
    with_slot_cases (Finishes IsConsistent) s name _ c (λ ix c' same absent. c')
      λ ix slot c' same hit.
        let old = (s.file_catalog slot).access_list in
        if_both (Finishes IsConsistent) (is_owner s sock (s.file_catalog slot)) _ _
          (λ _.
            set_access-IsConsistent slot (revoke user old) _ c'
              (omega (arith, length-revoke-le user old, c.bounded slot)))
          (λ _. c')

-- `u`'s permission at catalog index `i`.
abbrev pub permission_at : Server → ℕ → CString → PermissionLevel
permission_at s i u = get_permission (s.file_catalog i) u

-- The permission of `u` at `i` is as it was, or `sock`'s user owns the file called `name`, which is
-- at `i`, `u` is `user`, and the permission is `perm` now.
abbrev pub Changes :
    Server → ℕ → CString → CString → PermissionLevel → ℕ → CString → Server → Type 0
Changes s sock name user perm i u s' =
    (permission_at s' i u ≡ permission_at s i u)
    ⊎ ((view s.index name ≡ some i)
        × ((s.file_catalog i).owner ≡ user_of s sock)
        × (u ≡ user)
        × (permission_at s' i u ≡ perm))

pub set_access-Changes :
    (s : Server) (ix : Index) (sock slot i : ℕ) (name user u : CString) (perm : PermissionLevel)
    (access : List AccessEntry)
    → view s.index name ≡ some slot
    → is_owner s sock (s.file_catalog slot) ≡ true
    → find_access u access
      ≡ (if str_eq user u then perm else find_access u (s.file_catalog slot).access_list)
    → Changes s sock name user perm i u (set_access slot access (record s { index = ix }))
unfolding get_permission
set_access-Changes s ix sock slot i name user u perm access hit own e = ground arith

-- After `handle_req_add_access` on a consistent server each permission is what it was, unless
-- the requesting client owns the file of that name, and it is that file's permission of the
-- named user, which is then the one requested.
pub handle_req_add_access-Changes :
    (sock : ℕ) (name user : CString) (perm : PermissionLevel) (s : Server) (i : ℕ) (u : CString)
    → IsConsistent s
    → Finishes (Changes s sock name user perm i u) (handle_req_add_access sock name user perm s)
unfolding handle_req_add_access
handle_req_add_access-Changes sock name user perm s i u c =
    let P = Finishes (Changes s sock name user perm i u) in
    with_slot_cases P s name _ c (λ ix c' same absent. inl refl)
      λ ix slot c' same hit.
        let old = (s.file_catalog slot).access_list in
        if_both P (is_owner s sock (s.file_catalog slot)) _ _
          (λ own. elim (Option-cases (grant user perm old)) [
            | inl no_room ↦ rw no_room (inl refl)
            | inr (new, e) ↦ rw e (
                set_access-Changes s ix sock slot i name user u perm new (sym (same name) ∙ hit) own
                  (find_access-grant user u perm old new e (c.bounded slot)).0)
          ])
          (λ _. inl refl)

-- After `handle_req_rem_access` on a consistent server each permission is what it was, unless
-- the requesting client owns the file of that name, and it is that file's permission of the
-- named user, which is then none.
pub handle_req_rem_access-Changes :
    (sock : ℕ) (name user : CString) (perm : PermissionLevel) (s : Server) (i : ℕ) (u : CString)
    → IsConsistent s
    → Finishes (Changes s sock name user no_perm i u) (handle_req_rem_access sock name user perm s)
unfolding handle_req_rem_access
handle_req_rem_access-Changes sock name user perm s i u c =
    let P = Finishes (Changes s sock name user no_perm i u) in
    with_slot_cases P s name _ c (λ ix c' same absent. inl refl)
      λ ix slot c' same hit.
        let old = (s.file_catalog slot).access_list in
        if_both P (is_owner s sock (s.file_catalog slot)) _ _
          (λ own.
            set_access-Changes s ix sock slot i name user u no_perm (revoke user old)
              (sym (same name) ∙ hit) own (find_access-revoke user u old))
          (λ _. inl refl)
