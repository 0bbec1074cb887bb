-- ===== src/NameServer/Relays/Listed.antt =====
-- Proofs about `handle_req_check_requests` of name/handlers.c: what is counted and what is sent.
use distributed_document_sys.NameServer.Catalog.{user_of}
use distributed_document_sys.NameServer.Index.View.{view}
use distributed_document_sys.NameServer.Index.{Index}
use distributed_document_sys.NameServer.State.{
  AccessRequest, FileMetadata, max_access_requests, Server,
}
use distributed_document_sys.Protocol.{sent, request_list, res_request_list, RequestItem}
use distributed_document_sys.NameServer.Relays.{
  handle_req_check_requests, owned_requests, is_owned, request_item,
}
use distributed_document_sys.NameServer.Consistent.{Succeeds, Finishes, find_slot_lem, IsConsistent}
use distributed_document_sys.Base.{
  length, List, ℕ, Option, ◌≡◌, ◌∷◌, ◌&&◌, ◌∙◌, inr, suc, zero, if◌then◌else◌, [], CString,
  Bool-cases, refl, inl,
}

-- The active requests whose file the lookup finds, and the user owns.
module _ (user : CString) (catalog : ℕ → FileMetadata) (requests : ℕ → AccessRequest) where
  abbrev pub listed : (CString → Option ℕ) → ℕ → ℕ → List RequestItem
  listed look zero i = []
  listed look (suc n) i =
      let r = requests i in
      let rest = listed look n (suc i) in
      if r.active && is_owned user catalog (look r.filename) then request_item r ∷ rest else rest

  listed_congr :
      (f g : CString → Option ℕ) (n i : ℕ)
      → ((k : CString) → f k ≡ g k)
      → listed f n i ≡ listed g n i
  listed_congr f g zero i e = refl
  listed_congr f g (suc n) i e = rw (e (requests i).filename, listed_congr f g n (suc i) e) refl

-- Those that `handle_req_check_requests` looks for.
abbrev pub own_requests : ℕ → Server → ℕ → ℕ → List RequestItem
own_requests sock s n i =
    listed (user_of s sock) s.file_catalog s.access_requests (view s.index) n i

owned_requests_lem :
    (sock n i : ℕ) (s : Server)
    → IsConsistent s
    → (ix : Index) × (owned_requests sock n i s
        ≡ (own_requests sock s n i, record s { index = ix }))
      × IsConsistent (record s { index = ix })
      × ((k : CString) → view ix k ≡ view s.index k)
unfolding owned_requests
owned_requests_lem sock zero i s c = (s.index, refl, c, λ k. refl)
owned_requests_lem sock (suc n) i s c =
    let r = s.access_requests i in
    elim (Bool-cases r.active) [
      | inr off ↦
          let (ix, e, c', same) = owned_requests_lem sock n (suc i) s c in
          (ix, rw (off, e) refl, c', same)
      | inl on ↦
          let (ix₁, e₁, c₁, same₁) = find_slot_lem s r.filename c in
          let (ix, e, c', same) = owned_requests_lem sock n (suc i) (record s { index = ix₁ }) c₁ in
          (
            ix,
            rw
                (
                  on,
                  e₁,
                  e,
                  listed_congr (user_of s sock) s.file_catalog s.access_requests (view ix₁)
                      (view s.index) n (suc i) same₁,
                )
                refl,
            c',
            λ k. same k ∙ same₁ k,
          )
    ]

-- In a consistent server a client that asks for the requests is sent one message: the active
-- requests for the files that it owns, each of them, in their order, and their number. The
-- catalog and the answers of the index stay.
pub handle_req_check_requests_lem :
    (sock : ℕ) (s : Server)
    → IsConsistent s
    → let items = own_requests sock s max_access_requests 0 in
      Succeeds
        (λ s' out.
          (s'.file_catalog ≡ s.file_catalog)
          × ((k : CString) → view s'.index k ≡ view s.index k)
          × (out ≡ sent sock res_request_list (request_list (length items) items) ∷ []))
        (handle_req_check_requests sock s)
unfolding handle_req_check_requests
handle_req_check_requests_lem sock s c =
    let n = max_access_requests in
    let (ix₁, e₁, c₁, same₁) = owned_requests_lem sock n 0 s c in
    let (ix, e, c', same) = owned_requests_lem sock n 0 (record s { index = ix₁ }) c₁ in
    rw
      (
        e₁,
        e,
        listed_congr (user_of s sock) s.file_catalog s.access_requests (view ix₁) (view s.index) n 0
            same₁,
      )
      (refl, λ k. same k ∙ same₁ k, refl)

pub handle_req_check_requests-IsConsistent :
    (sock : ℕ) (s : Server)
    → IsConsistent s
    → Finishes IsConsistent (handle_req_check_requests sock s)
unfolding handle_req_check_requests
handle_req_check_requests-IsConsistent sock s c =
    let (ix₁, e₁, c₁, same₁) = owned_requests_lem sock max_access_requests 0 s c in
    let (ix, e, c', same) =
      owned_requests_lem sock max_access_requests 0 (record s { index = ix₁ }) c₁ in
    rw (e₁, e) c'
