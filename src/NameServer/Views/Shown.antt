-- ===== src/NameServer/Views/Shown.antt =====
-- Proofs about the views of name/handlers.c: which files a view shows.
use distributed_document_sys.NameServer.Consistent.{Finishes, with_slot_cases, IsConsistent}
use distributed_document_sys.NameServer.State.{Server, done}
use distributed_document_sys.NameServer.Catalog.{user_of, has_read_access}
use distributed_document_sys.Protocol.{sent, view_hdr, max_files_in_system, res_view_hdr, Sent}
use distributed_document_sys.NameServer.Views.{
  handle_req_info, handle_req_view, view_item, in_view, send_items,
}
use distributed_document_sys.Base.{
  All, CString, ap, sym, ltb, [], inl, Bool-cases, inr, false, arith, List, length, Bool, ℕ, suc,
  ◌≤◌, ◌++◌, true, refl, ◌≡◌, if_both, count_from, ◌+◌, zero, ◌<◌, ◌∷◌,
}

length-send_items :
    (p : ℕ → Bool) (item : ℕ → Sent) (n i : ℕ) → length (send_items p item n i) ≡ count_from p n i
unfolding send_items count_from
length-send_items p item zero i = refl
length-send_items p item (suc n) i = ground (arith, length-send_items p item n (suc i))

-- `m` is the item of an index in the range that passes the test.
abbrev pub IsItem : (ℕ → Bool) → (ℕ → Sent) → ℕ → Sent → Type 0
IsItem p item bound m = (k : ℕ) × (k < bound) × (p k ≡ true) × (m ≡ item k)

send_items-IsItem :
    (p : ℕ → Bool) (item : ℕ → Sent) (bound n i : ℕ)
    → i + n ≤ bound
    → All (IsItem p item bound) (send_items p item n i)
unfolding send_items
send_items-IsItem p item bound zero i le = tt
send_items-IsItem p item bound (suc n) i le =
    let rest = send_items-IsItem p item bound n (suc i) (omega arith) in
    if_both (All (IsItem p item bound)) (p i) _ _ (λ shown. ((i, omega arith, shown, refl), rest))
      (λ _. rest)

send_items_complete :
    (p : ℕ → Bool) (item : ℕ → Sent) (n i k : ℕ)
    → i ≤ k
    → k < i + n
    → p k ≡ true
    → (before after : List Sent) × (send_items p item n i ≡ before ++ item k ∷ after)
unfolding send_items
send_items_complete p item zero i k lo hi shown = absurd (omega arith)
send_items_complete p item (suc n) i k lo hi shown = elim (Bool-cases (ltb i k)) [
  | inr here ↦ let e : i ≡ k = ground arith in ([], send_items p item n (suc i), rw (e, shown) refl)
  | inl later ↦
      let (before, after, e) =
        send_items_complete p item n (suc i) k (ground arith) (omega arith) shown in
      elim (Bool-cases (p i)) [
        | inl first ↦ (item i ∷ before, after, rw first (ap (◌∷◌ (item i)) e))
        | inr skipped ↦ (before, after, rw skipped e)
      ]
]

-- A view sends the number of its items and then the items: each is that of a catalog index
-- which passes the view's test (active, no internal name, and all files asked for or readable
-- by the user), and each index in the catalog that passes has its item.
pub handle_req_view_lem :
    (sock : ℕ) (flag_a flag_l : Bool) (s : Server)
    → let p = in_view sock flag_a s in
      let item = λ (i : ℕ). view_item sock flag_l (s.file_catalog i) in
      (items : List Sent) × (handle_req_view sock flag_a flag_l s
        ≡ done s (sent sock res_view_hdr (view_hdr (length items)) ∷ items))
      × All (IsItem p item max_files_in_system) items
      × ((k : ℕ)
          → k < max_files_in_system
          → p k ≡ true
          → (before after : List Sent) × (items ≡ before ++ item k ∷ after))
unfolding handle_req_view
handle_req_view_lem sock flag_a flag_l s =
    let p = in_view sock flag_a s in
    let item = λ (i : ℕ). view_item sock flag_l (s.file_catalog i) in
    let items = send_items p item max_files_in_system 0 in
    (
      items,
      (λ i. done s (
          sent sock res_view_hdr (view_hdr (sym (length-send_items p item max_files_in_system 0) i))
          ∷ items)),
      send_items-IsItem p item max_files_in_system max_files_in_system 0 (omega arith),
      (λ k lt shown.
          send_items_complete p item max_files_in_system 0 k (omega arith) (omega arith) shown),
    )

-- Without the flag for all files, what passes the test is active, and the client may read it.
pub in_view-readable :
    (sock i : ℕ) (s : Server)
    → in_view sock false s i ≡ true
    → ((s.file_catalog i).active ≡ true)
      × (has_read_access (s.file_catalog i) (user_of s sock) ≡ true)
unfolding in_view
in_view-readable sock i s h = ground arith

pub handle_req_info-IsConsistent :
    (sock : ℕ) (name : CString) (s : Server)
    → IsConsistent s
    → Finishes IsConsistent (handle_req_info sock name s)
unfolding handle_req_info
handle_req_info-IsConsistent sock name s c =
    with_slot_cases (Finishes IsConsistent) s name _ c (λ ix c' same absent. c')
      λ ix slot c' same hit. c'
