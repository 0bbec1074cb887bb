-- ===== src/NameServer/Relays/Guarded.antt =====
-- Proofs about the checkpoint handlers of name/handlers.c: who may have a request relayed.
use distributed_document_sys.NameServer.Index.View.{view}
use distributed_document_sys.NameServer.State.{Server, Handled, FileMetadata}
use distributed_document_sys.NameServer.Relays.{
  handle_req_createfolder, relay, handle_req_viewcheckpoint, content_answer, handle_req_checkpoint,
  handle_req_listcheckpoints, items_answer, handle_req_revert,
}
use distributed_document_sys.Base.{
  inr, Option-cases, inl, sym, List, Option, ℕ, Bool, some, ◌∷◌, ◌∙◌, true, none, CString, refl,
  ◌≡◌, false, if_both, [],
}
use distributed_document_sys.NameServer.Consistent.{
  IsConsistent, with_slot_cases, Succeeds, Finishes,
}
use distributed_document_sys.NameServer.Catalog.{
  find_available_ss, user_of, has_read_access, has_write_access,
}
use distributed_document_sys.Protocol.{
  sent, Sent, res_error, checkpoint_request, simple_header, req_ss_viewcheckpoint,
  req_ss_listcheckpoints, listcheckpoints_request, req_ss_checkpoint, MessageType, req_ss_revert,
  Payload,
}

-- What a relay sends, in every case.
pub data RelayAnswer (may : FileMetadata → CString → Bool) (s : Server) (sock : ℕ) (name : CString)
    (type : MessageType) (payload : Payload) (answer : Sent) (out : List Sent) : Type 0 where
  missing :
      view s.index name ≡ none
      → out ≡ simple_header sock res_error ∷ []
      → RelayAnswer may s sock name type payload answer out
  denied :
      (slot : ℕ)
      → view s.index name ≡ some slot
      → may (s.file_catalog slot) (user_of s sock) ≡ false
      → out ≡ simple_header sock res_error ∷ []
      → RelayAnswer may s sock name type payload answer out
  relayed :
      (slot : ℕ)
      → view s.index name ≡ some slot
      → may (s.file_catalog slot) (user_of s sock) ≡ true
      → out ≡ sent (s.file_catalog slot).ss_sock_fd type payload ∷ answer ∷ []
      → RelayAnswer may s sock name type payload answer out

-- The catalog and the answers of the index stay, and the messages are those of the case.
abbrev pub Relayed :
    (FileMetadata → CString → Bool)
    → Server
    → ℕ
    → CString
    → MessageType
    → Payload
    → Sent
    → Handled
    → Type 0
Relayed may s sock name type payload answer h =
    Succeeds
      (λ s' out.
        (s'.file_catalog ≡ s.file_catalog)
        × ((k : CString) → view s'.index k ≡ view s.index k)
        × RelayAnswer may s sock name type payload answer out)
      h

relay-Relayed :
    (may : FileMetadata → CString → Bool) (sock : ℕ) (name : CString) (type : MessageType)
    (payload : Payload) (answer : Sent) (s : Server)
    → IsConsistent s
    → Relayed may s sock name type payload answer (relay may sock name type payload answer s)
unfolding relay
relay-Relayed may sock name type payload answer s c =
    let P = Relayed may s sock name type payload answer in
    with_slot_cases P s name _ c
      (λ ix c' same absent. (refl, same, missing (sym (same name) ∙ absent) refl))
      λ ix slot c' same hit.
        let found = sym (same name) ∙ hit in
        if_both P (may (s.file_catalog slot) (user_of s sock)) _ _
          (λ allowed. (refl, same, relayed slot found allowed refl))
          (λ may_not. (refl, same, denied slot found may_not refl))

-- In a consistent server the four checkpoint handlers keep the catalog and the answers of the
-- index; each answers with an error, and sends nothing to a storage server, where the name is
-- not indexed or the user may not do it (write for checkpoint and revert, read for view and
-- list); else it relays the request to the file's storage server and its answer to the client.
pub checkpoint_handlers-Relayed :
    (sock : ℕ) (name tag : CString) (content : Option (List ℕ))
    (items : Option (List (CString × ℕ))) (reply : MessageType) (s : Server)
    → IsConsistent s
    → Relayed has_write_access s sock name req_ss_checkpoint
        (checkpoint_request name tag)
        (simple_header sock reply)
        (handle_req_checkpoint sock name tag reply s)
      × Relayed has_write_access s sock name req_ss_revert
          (checkpoint_request name tag)
          (simple_header sock reply)
          (handle_req_revert sock name tag reply s)
      × Relayed has_read_access s sock name req_ss_viewcheckpoint
          (checkpoint_request name tag)
          (content_answer sock content reply)
          (handle_req_viewcheckpoint sock name tag content reply s)
      × Relayed has_read_access s sock name req_ss_listcheckpoints
          (listcheckpoints_request name)
          (items_answer sock items reply)
          (handle_req_listcheckpoints sock name items reply s)
unfolding handle_req_checkpoint handle_req_revert handle_req_viewcheckpoint
    handle_req_listcheckpoints
checkpoint_handlers-Relayed sock name tag content items reply s c = (
  relay-Relayed has_write_access sock name req_ss_checkpoint _ _ s c,
  relay-Relayed has_write_access sock name req_ss_revert _ _ s c,
  relay-Relayed has_read_access sock name req_ss_viewcheckpoint _ _ s c,
  relay-Relayed has_read_access sock name req_ss_listcheckpoints _ _ s c,
)

pub relay-IsConsistent :
    (may : FileMetadata → CString → Bool) (sock : ℕ) (name : CString) (type : MessageType)
    (content : Payload) (answer : Sent) (s : Server)
    → IsConsistent s
    → Finishes IsConsistent (relay may sock name type content answer s)
unfolding relay
relay-IsConsistent may sock name type content answer s c =
    with_slot_cases (Finishes IsConsistent) s name _ c (λ ix c' same absent. c')
      λ ix slot c' same hit.
        if_both (Finishes IsConsistent) (may (s.file_catalog slot) (user_of s sock)) _ _ (λ _. c')
          (λ _. c')

pub handle_req_createfolder-IsConsistent :
    (sock : ℕ) (folder : CString) (reply : MessageType) (s : Server)
    → IsConsistent s
    → Finishes IsConsistent (handle_req_createfolder sock folder reply s)
unfolding handle_req_createfolder
handle_req_createfolder-IsConsistent sock folder reply s c =
    elim (Option-cases (find_available_ss s)) [
      | inl e ↦ rw (e, handle_req_createfolder) c
      | inr (ss, e) ↦ rw (e, handle_req_createfolder) c
    ]
