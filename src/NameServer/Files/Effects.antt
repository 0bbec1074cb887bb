-- ===== src/NameServer/Files/Effects.antt =====
-- What a successful creation and a successful deletion do, and who may delete.
use distributed_document_sys.NameServer.Index.{Index}
use distributed_document_sys.NameServer.State.{Server}
use distributed_document_sys.NameServer.Index.View.{view, forget-view, add_to_hashmap-view}
use distributed_document_sys.NameServer.Consistent.{
  IsConsistent, Succeeds, Ensures, with_slot_cases,
}
use distributed_document_sys.NameServer.Catalog.{
  get_permission, user_of, find_empty_file_slot, find_access, is_owner, find_available_ss,
}
use distributed_document_sys.NameServer.Files.{
  delist, add_entry, create_confirmed, handle_req_create, handle_req_delete,
}
use distributed_document_sys.Base.{
  ap, sym, subst, arith, str_eq, ℕ, if_both, ◌∷◌, ◌≢◌, none, if◌then◌else◌, ◌∙◌, true, refl, false,
  ◌≡◌, some, CString, [],
}
use distributed_document_sys.Protocol.{
  is_ok, MessageType, read_write, no_perm, res_error_access_denied, simple_header,
}

-- `name` is a new file at `slot`, owned by `owner`, closed to all others; nothing else has changed.
pub record IsCreated (s : Server) (name owner : CString) (slot ss : ℕ) (s' : Server) : Type 0 where
  pub found : view s'.index name ≡ some slot
  pub others : (k : CString) → k ≢ name → view s'.index k ≡ view s.index k
  pub stored : (s'.file_catalog slot).ss_sock_fd ≡ ss
  pub owned :
      (u : CString)
      → get_permission (s'.file_catalog slot) u ≡ (if str_eq owner u then read_write else no_perm)
  pub kept : (i : ℕ) → i ≢ slot → s'.file_catalog i ≡ s.file_catalog i

add_entry-IsCreated :
    (slot : ℕ) (name : CString) (ss : ℕ) (owner : CString) (s t : Server)
    → ((k : CString) → view t.index k ≡ view s.index k)
    → t.file_catalog ≡ s.file_catalog
    → Ensures (IsCreated s name owner slot ss) (add_entry slot name ss owner [] t)
unfolding add_entry get_permission find_access
add_entry-IsCreated slot name ss owner s t same cat = record {
  found = ground (arith, add_to_hashmap-view t.index name name slot);
  others = λ k ne. ground (arith, add_to_hashmap-view t.index name k slot, same k);
  stored = ground arith;
  owned = λ u. ground arith;
  kept = λ i ne. ground (arith, cat);
}

-- In a consistent server, where the name is not indexed, a storage server is active, a catalog
-- slot is empty and the storage server confirms, a creation ends without undefined behaviour:
-- the name is found at that slot, on that storage server, every other name and entry is as it
-- was, and only the creating user has a permission.
pub handle_req_create_lem :
    (sock : ℕ) (name : CString) (reply : MessageType) (s : Server) (ss slot : ℕ)
    → IsConsistent s
    → view s.index name ≡ none
    → find_available_ss s ≡ some ss
    → find_empty_file_slot s ≡ some slot
    → is_ok reply ≡ true
    → Succeeds
        (λ s' out. IsCreated s name (user_of s sock) slot ss s')
        (handle_req_create sock name reply s)
unfolding handle_req_create create_confirmed find_available_ss find_empty_file_slot
handle_req_create_lem sock name reply s ss slot c fresh server empty confirmed =
    with_slot_cases (Succeeds (λ s' out. IsCreated s name (user_of s sock) slot ss s')) s name _ c
      (λ ix c' same absent.
        rw (server, confirmed, empty, create_confirmed)
          (unfold add_entry in
            add_entry-IsCreated slot name ss (user_of s sock) s (record s { index = ix }) same
              refl))
      λ ix k c' same hit. absurd (ground (arith, same name))

-- The owner deletes: the name is free, the entry inactive, every other name as before.
pub record IsDeleted (s : Server) (name : CString) (slot : ℕ) (s' : Server) : Type 0 where
  pub gone : view s'.index name ≡ none
  pub others : (k : CString) → k ≢ name → view s'.index k ≡ view s.index k
  pub inactive : (s'.file_catalog slot).active ≡ false
  pub kept : (i : ℕ) → i ≢ slot → s'.file_catalog i ≡ s.file_catalog i

delist-IsDeleted :
    (slot : ℕ) (name : CString) (s : Server) (ix : Index)
    → IsConsistent (record s { index = ix })
    → ((k : CString) → view ix k ≡ view s.index k)
    → view ix name ≡ some slot
    → IsDeleted s name slot (delist slot (record s { index = ix }))
unfolding delist
delist-IsDeleted slot name s ix c same hit =
    let gone = (s.file_catalog slot).filename in
    record {
      gone = ground (arith, c.sound name slot hit, forget-view ix gone name c.valid);
      others = λ k ne. ground (arith, c.sound name slot hit, forget-view ix gone k c.valid, same k);
      inactive = ground arith;
      kept = λ i ne. ground arith;
    }

-- In a consistent server a deletion by the owner, where the primary is active, leaves the name
-- unindexed and its entry inactive, and every other name and entry as it was.
pub handle_req_delete_lem :
    (sock : ℕ) (name : CString) (s : Server) (slot : ℕ)
    → IsConsistent s
    → view s.index name ≡ some slot
    → (s.file_catalog slot).owner ≡ user_of s sock
    → (s.ss_state (s.file_catalog slot).ss_sock_fd).active ≡ true
    → Succeeds (λ s' out. IsDeleted s name slot s') (handle_req_delete sock name s)
unfolding handle_req_delete
handle_req_delete_lem sock name s slot c found own on =
    let P = Succeeds (λ s' out. IsDeleted s name slot s') in
    with_slot_cases P s name _ c (λ ix c' same absent. absurd (ground (arith, same name)))
      λ ix k c' same hit.
        let q : k ≡ slot = ground (arith, same name) in
        if_both P (is_owner s sock (s.file_catalog k)) _ _
          (λ _.
            if_both P (s.ss_state (s.file_catalog k).ss_sock_fd).active _ _
              (λ _.
                subst (λ j. IsDeleted s name slot (delist j (record s { index = ix }))) (sym q)
                  (delist-IsDeleted slot name s ix c' same (hit ∙ ap some q)))
              (λ off. absurd (ground arith)))
          (λ other. absurd (ground arith))

-- In a consistent server a deletion by a user who is not the owner is denied: the catalog and
-- the answers of the index are as they were, and no storage server is sent a message.
pub handle_req_delete-denied :
    (sock : ℕ) (name : CString) (s : Server) (slot : ℕ)
    → IsConsistent s
    → view s.index name ≡ some slot
    → (s.file_catalog slot).owner ≢ user_of s sock
    → Succeeds
        (λ s' out.
          (s'.file_catalog ≡ s.file_catalog)
          × ((k : CString) → view s'.index k ≡ view s.index k)
          × (out ≡ simple_header sock res_error_access_denied ∷ []))
        (handle_req_delete sock name s)
unfolding handle_req_delete
handle_req_delete-denied sock name s slot c found other =
    let P = Succeeds (λ s' out.
      (s'.file_catalog ≡ s.file_catalog)
      × ((k : CString) → view s'.index k ≡ view s.index k)
      × (out ≡ simple_header sock res_error_access_denied ∷ [])) in
    with_slot_cases P s name _ c (λ ix c' same absent. absurd (ground (arith, same name)))
      λ ix k c' same hit.
        let q : k ≡ slot = ground (arith, same name) in
        if_both P (is_owner s sock (s.file_catalog k)) _ _ (λ own. absurd (ground arith))
          (λ _. (refl, same, refl))
