-- ===== src/NameServer/Access/Perms.antt =====
-- What granting and revoking do to the permissions that an access list gives.
use distributed_document_sys.NameServer.Access.{revoke, grant, set_existing}
use distributed_document_sys.Protocol.{
  AccessEntry, no_perm, PermissionLevel, max_permissions_per_file,
}
use distributed_document_sys.Base.{
  arith, length, str_eq, List, [], ◌≤◌, ◌∷◌, CString, length-append, if◌then◌else◌, Option-cases,
  inr, none, some, ◌≡◌, ◌++◌, inl,
}
use distributed_document_sys.NameServer.Catalog.{find_access}

find_access-set_existing :
    (user u : CString) (perm : PermissionLevel) (access access' : List AccessEntry)
    → set_existing user perm access ≡ some access'
    → (find_access u access' ≡ (if str_eq user u then perm else find_access u access))
      × (length access' ≡ length access)
unfolding set_existing find_access
find_access-set_existing user u perm [] access' h = ground arith
find_access-set_existing user u perm (e ∷ es) access' h =
    elim (Option-cases (set_existing user perm es)) [
      | inl absent ↦ ground arith
      | inr (es', there) ↦ ground (arith, find_access-set_existing user u perm es es' there)
    ]

find_access-append :
    (user u : CString) (perm : PermissionLevel) (access : List AccessEntry)
    → set_existing user perm access ≡ none
    → find_access u (access ++ record { username = user; permission = perm } ∷ [])
      ≡ (if str_eq user u then perm else find_access u access)
unfolding set_existing find_access
find_access-append user u perm [] h = ground arith
find_access-append user u perm (e ∷ es) h = ground (arith, find_access-append user u perm es)

-- Granting, on a list within its bound and where it succeeds, gives the user that permission,
-- keeps every other user's and keeps the list within its bound.
pub find_access-grant :
    (user u : CString) (perm : PermissionLevel) (access access' : List AccessEntry)
    → grant user perm access ≡ some access'
    → length access ≤ max_permissions_per_file
    → (find_access u access' ≡ (if str_eq user u then perm else find_access u access))
      × (length access' ≤ max_permissions_per_file)
unfolding grant
find_access-grant user u perm access access' h few =
    elim (Option-cases (set_existing user perm access)) [
      | inl absent ↦ ground (
        arith,
        find_access-append user u perm access absent,
        length-append access (record { username = user; permission = perm } ∷ []),
      )
      | inr (there, e) ↦ ground (arith, find_access-set_existing user u perm access there e)
    ]

-- Revoking leaves the user without a permission by the list and keeps every other user's.
pub find_access-revoke :
    (user u : CString) (access : List AccessEntry)
    → find_access u (revoke user access) ≡ (if str_eq user u then no_perm else find_access u access)
unfolding revoke find_access
find_access-revoke user u [] = ground arith
find_access-revoke user u (e ∷ es) = ground (arith, find_access-revoke user u es)

pub length-revoke-le :
    (user : CString) (access : List AccessEntry) → length (revoke user access) ≤ length access
unfolding revoke
length-revoke-le user [] = omega arith
length-revoke-le user (e ∷ es) = ground (arith, length-revoke-le user es)
