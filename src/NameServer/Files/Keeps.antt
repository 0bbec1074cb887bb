-- ===== src/NameServer/Files/Keeps.antt =====
-- Proofs about the file handlers of name/handlers.c: the invariant of Consistent.
use distributed_document_sys.NameServer.Index.View.{
  forget, add_to_hashmap-view, add_to_hashmap-IsValid, forget-view, forget-IsValid, view,
}
use distributed_document_sys.NameServer.Consistent.{
  Ensures-then_send, Ensures, Finishes, Ensures-after_relay, set_file-IsConsistent, with_slot_cases,
  IsConsistent,
}
use distributed_document_sys.Protocol.{
  max_filename, is_ok, UpdateMetadata, MessageType, max_permissions_per_file, AccessEntry,
  max_files_in_system,
}
use distributed_document_sys.NameServer.State.{Server}
use distributed_document_sys.NameServer.Files.{
  may_open, moved_path, move_confirmed, handle_req_move, located, relabel,
  handle_req_update_metadata, handle_req_delete, handle_req_read_write_stream, handle_req_undo,
  create_confirmed, handle_req_create, delist, add_entry,
}
use distributed_document_sys.NameServer.Catalog.{
  is_owner, has_write_access, find_available_ss, user_of, find_empty_file_slot,
}
use distributed_document_sys.Base.{
  ltb, ◌⊎◌, refl, if_both, Option, Option-cases, inr, inl, [], length, not, find_first-eq-some,
  List, arith, CString, ℕ, ◌<◌, some, none, ◌≤◌, ◌≡◌, false,
}

pub find_empty_file_slot-empty :
    (s : Server) (slot : ℕ)
    → find_empty_file_slot s ≡ some slot
    → (slot < max_files_in_system) × ((s.file_catalog slot).active ≡ false)
unfolding find_empty_file_slot
find_empty_file_slot-empty s slot h =
    ground
      (arith, find_first-eq-some (λ i. not (s.file_catalog i).active) max_files_in_system 0 slot h)

-- A new name in an empty slot keeps the invariant.
pub add_entry-IsConsistent :
    (slot : ℕ) (name : CString) (ss : ℕ) (owner : CString) (access : List AccessEntry) (s : Server)
    → IsConsistent s
    → slot < max_files_in_system
    → (s.file_catalog slot).active ≡ false
    → view s.index name ≡ none
    → length access ≤ max_permissions_per_file
    → Ensures IsConsistent (add_entry slot name ss owner access s)
unfolding add_entry
add_entry-IsConsistent slot name ss owner access s c lt empty fresh few = record {
  valid = add_to_hashmap-IsValid s.index name slot c.valid fresh;
  sound = λ k i h. ground (arith, c.sound k i, add_to_hashmap-view s.index name k slot);
  listed = λ i h a. ground (
    arith,
    c.listed i h,
    add_to_hashmap-view s.index name name slot,
    add_to_hashmap-view s.index name (s.file_catalog i).filename slot,
  );
  bounded = λ i. ground (arith, c.bounded i);
}

pub delist-IsConsistent :
    (slot : ℕ) (name : CString) (s : Server)
    → IsConsistent s
    → view s.index name ≡ some slot
    → IsConsistent (delist slot s)
unfolding delist
delist-IsConsistent slot name s c h =
    let gone = (s.file_catalog slot).filename in
    record {
      valid = forget-IsValid s.index gone c.valid;
      sound = λ k i e.
          ground (arith, c.sound k i, c.sound name slot h, forget-view s.index gone k c.valid);
      listed = λ i lt a. ground (
        arith,
        c.listed i lt,
        c.sound name slot h,
        forget-view s.index gone (s.file_catalog i).filename c.valid,
      );
      bounded = λ i. ground (arith, c.bounded i);
    }

-- A free name in place of the entry's own, or that name again, keeps the invariant.
relabel-IsConsistent :
    (slot : ℕ) (name path : CString) (s : Server)
    → IsConsistent s
    → view s.index name ≡ some slot
    → (view s.index path ≡ none) ⊎ (view s.index path ≡ some slot)
    → IsConsistent (relabel slot path s)
unfolding relabel
relabel-IsConsistent slot name path s c h free =
    let gone = (s.file_catalog slot).filename in
    let ix = forget gone s.index in
    let v = forget-IsValid s.index gone c.valid in
    let named = c.sound name slot h in
    record {
      valid =
          add_to_hashmap-IsValid ix path slot v
            (ground (arith, named, c.sound path slot, forget-view s.index gone path c.valid, free));
      sound = λ k i e. ground (
        arith,
        c.sound k i,
        named,
        add_to_hashmap-view ix path k slot,
        forget-view s.index gone k c.valid,
      );
      listed = λ i lt a. ground (
        arith,
        c.listed i lt,
        named,
        free,
        c.sound path slot,
        add_to_hashmap-view ix path path slot,
        add_to_hashmap-view ix path (s.file_catalog i).filename slot,
        forget-view s.index gone (s.file_catalog i).filename c.valid,
      );
      bounded = λ i. ground (arith, c.bounded i);
    }

create_confirmed-IsConsistent :
    (sock : ℕ) (name : CString) (ss : ℕ) (s : Server)
    → IsConsistent s
    → view s.index name ≡ none
    → Ensures IsConsistent (create_confirmed sock name ss s)
unfolding create_confirmed
create_confirmed-IsConsistent sock name ss s c fresh =
    elim (Option-cases (find_empty_file_slot s)) [
      | inl no_room ↦ rw (no_room, create_confirmed) tt
      | inr (slot, e) ↦
          let (lt, empty) = find_empty_file_slot-empty s slot e in
          rw (e, create_confirmed)
            (Ensures-then_send IsConsistent _ (add_entry slot name ss (user_of s sock) [] s) (
              add_entry-IsConsistent slot name ss (user_of s sock) [] s c lt empty fresh
                (omega arith)))
    ]

-- Whatever the storage server answers, `handle_req_create` keeps the server consistent, or is
-- undefined because no catalog slot is empty.
pub handle_req_create-IsConsistent :
    (sock : ℕ) (name : CString) (reply : MessageType) (s : Server)
    → IsConsistent s
    → Ensures IsConsistent (handle_req_create sock name reply s)
unfolding handle_req_create
handle_req_create-IsConsistent sock name reply s c =
    with_slot_cases (Ensures IsConsistent) s name _ c
      (λ ix c' same fresh. elim (Option-cases (find_available_ss (record s { index = ix }))) [
        | inl e ↦ rw (e, handle_req_create) c'
        | inr (ss, e) ↦
            rw (e, handle_req_create)
              (Ensures-after_relay IsConsistent _ _ (
                if_both (Ensures IsConsistent) (is_ok reply) _ _
                  (λ _. create_confirmed-IsConsistent sock name ss _ c' fresh) (λ _. c')))
      ])
      (λ ix slot c' same hit. c')

-- `handle_req_delete` ends and keeps the server consistent.
pub handle_req_delete-IsConsistent :
    (sock : ℕ) (name : CString) (s : Server)
    → IsConsistent s
    → Finishes IsConsistent (handle_req_delete sock name s)
unfolding handle_req_delete
handle_req_delete-IsConsistent sock name s c =
    with_slot_cases (Finishes IsConsistent) s name _ c (λ ix c' same absent. c')
      λ ix slot c' same hit.
        if_both (Finishes IsConsistent) (is_owner s sock (s.file_catalog slot)) _ _
          (λ _.
            if_both (Finishes IsConsistent) (s.ss_state (s.file_catalog slot).ss_sock_fd).active _ _
              (λ _. delist-IsConsistent slot name _ c' hit) (λ _. c'))
          (λ _. c')

pub located-IsConsistent :
    (s : Server) (sock : ℕ) (ss : Option ℕ)
    → IsConsistent s
    → Finishes IsConsistent (located s sock ss)
located-IsConsistent s sock none c = c
located-IsConsistent s sock (some ss) c = c

pub handle_req_read_write_stream-IsConsistent :
    (sock : ℕ) (type : MessageType) (name : CString) (s : Server)
    → IsConsistent s
    → Finishes IsConsistent (handle_req_read_write_stream sock type name s)
unfolding handle_req_read_write_stream
handle_req_read_write_stream-IsConsistent sock type name s c =
    with_slot_cases (Finishes IsConsistent) s name _ c (λ ix c' same absent. c')
      λ ix slot c' same hit.
        if_both (Finishes IsConsistent) (may_open type (s.file_catalog slot) (user_of s sock)) _ _
          (λ _. located-IsConsistent _ sock _ c') (λ _. c')

pub handle_req_undo-IsConsistent :
    (sock : ℕ) (name : CString) (s : Server)
    → IsConsistent s
    → Finishes IsConsistent (handle_req_undo sock name s)
unfolding handle_req_undo
handle_req_undo-IsConsistent sock name s c =
    with_slot_cases (Finishes IsConsistent) s name _ c (λ ix c' same absent. c')
      λ ix slot c' same hit.
        if_both (Finishes IsConsistent) (has_write_access (s.file_catalog slot) (user_of s sock)) _
          _
          (λ _.
            if_both (Finishes IsConsistent) (s.ss_state (s.file_catalog slot).ss_sock_fd).active _ _
              (λ _. c') (λ _. c'))
          (λ _. c')

pub handle_req_update_metadata-IsConsistent :
    (msg : UpdateMetadata) (s : Server)
    → IsConsistent s
    → Finishes IsConsistent (handle_req_update_metadata msg s)
unfolding handle_req_update_metadata
handle_req_update_metadata-IsConsistent msg s c =
    with_slot_cases (Finishes IsConsistent) s msg.filename _ c (λ ix c' same absent. c')
      λ ix slot c' same hit. set_file-IsConsistent _ slot _ c' refl refl (c'.bounded slot)

-- Where the new path is not indexed, or leads where the old name leads, `handle_req_move`
-- keeps the server consistent, or is undefined because the path is too long for its buffer.
pub handle_req_move-IsConsistent :
    (sock : ℕ) (name folder : CString) (reply : MessageType) (s : Server)
    → IsConsistent s
    → (view s.index (moved_path folder name) ≡ none)
      ⊎ (view s.index (moved_path folder name) ≡ view s.index name)
    → Ensures IsConsistent (handle_req_move sock name folder reply s)
unfolding handle_req_move move_confirmed
handle_req_move-IsConsistent sock name folder reply s c free =
    let path = moved_path folder name in
    with_slot_cases (Ensures IsConsistent) s name _ c (λ ix c' same absent. c')
      λ ix slot c' same hit.
        let free' : (view ix path ≡ none) ⊎ (view ix path ≡ some slot) =
          ground (arith, free, same path, same name) in
        if_both (Ensures IsConsistent) (is_owner s sock (s.file_catalog slot)) _ _
          (λ _.
            if_both (Ensures IsConsistent) (s.ss_state (s.file_catalog slot).ss_sock_fd).active _ _
              (λ _. Ensures-after_relay IsConsistent _ _ (
                if_both (Ensures IsConsistent) (is_ok reply) _ _
                  (λ _.
                    if_both (Ensures IsConsistent) (ltb (length path) max_filename) _ _
                      (λ _. relabel-IsConsistent slot name path _ c' hit free') (λ _. tt))
                  (λ _. c')))
              (λ _. c'))
          (λ _. c')
