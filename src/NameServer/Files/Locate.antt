-- ===== src/NameServer/Files/Locate.antt =====
-- Where a client is sent to read, write or stream a file.
use distributed_document_sys.NameServer.Index.View.{view}
use distributed_document_sys.NameServer.Files.{
  location, located, serving, handle_req_read_write_stream, may_open,
}
use distributed_document_sys.NameServer.Catalog.{user_of}
use distributed_document_sys.Protocol.{
  Sent, res_error_access_denied, res_error, res_error_not_found, simple_header, MessageType,
}
use distributed_document_sys.NameServer.State.{Server, FileMetadata}
use distributed_document_sys.NameServer.Consistent.{IsConsistent, with_slot_cases, Succeeds}
use distributed_document_sys.Base.{
  sym, List, arith, ℕ, ◌≡◌, Bool-cases, refl, ◌∙◌, false, CString, some, ◌∷◌, inr, if_both, inl, [],
  true, none, Option-cases,
}

-- `ss` serves the file: it is active, and the primary, or the backup of an inactive primary.
pub data Serves (s : Server) (meta : FileMetadata) (ss : ℕ) : Type 0 where
  primary : ss ≡ meta.ss_sock_fd → (s.ss_state ss).active ≡ true → Serves s meta ss
  backup :
      (s.ss_state meta.ss_sock_fd).active ≡ false
      → meta.backup_ss_sock ≡ some ss
      → (s.ss_state ss).active ≡ true
      → Serves s meta ss

-- No server can: the primary is inactive, and so is the backup, if there is one.
abbrev pub Unserved : Server → FileMetadata → Type 0
Unserved s meta =
    ((s.ss_state meta.ss_sock_fd).active ≡ false)
    × ((b : ℕ) → meta.backup_ss_sock ≡ some b → (s.ss_state b).active ≡ false)

-- What the client is told, in every case.
pub data Answer (s : Server) (sock : ℕ) (type : MessageType) (name : CString) (out : List Sent)
    : Type 0 where
  missing :
      view s.index name ≡ none
      → out ≡ simple_header sock res_error_not_found ∷ []
      → Answer s sock type name out
  denied :
      (slot : ℕ)
      → view s.index name ≡ some slot
      → may_open type (s.file_catalog slot) (user_of s sock) ≡ false
      → out ≡ simple_header sock res_error_access_denied ∷ []
      → Answer s sock type name out
  offline :
      (slot : ℕ)
      → view s.index name ≡ some slot
      → may_open type (s.file_catalog slot) (user_of s sock) ≡ true
      → Unserved s (s.file_catalog slot)
      → out ≡ simple_header sock res_error ∷ []
      → Answer s sock type name out
  at :
      (slot ss : ℕ)
      → view s.index name ≡ some slot
      → may_open type (s.file_catalog slot) (user_of s sock) ≡ true
      → Serves s (s.file_catalog slot) ss
      → out ≡ location s sock ss ∷ []
      → Answer s sock type name out

serving-eq-some :
    (s : Server) (meta : FileMetadata) (ss : ℕ) → serving s meta ≡ some ss → Serves s meta ss
unfolding serving
serving-eq-some s meta ss e = elim (Bool-cases (s.ss_state meta.ss_sock_fd).active) [
  | inl on ↦ primary (ground arith) (ground arith)
  | inr off ↦ backup off (ground arith) (ground arith)
]

serving-eq-none : (s : Server) (meta : FileMetadata) → serving s meta ≡ none → Unserved s meta
unfolding serving
serving-eq-none s meta e = (ground arith, λ b h. ground arith)

-- In a consistent server a request to read, write or stream ends without a change to the
-- catalog or the servers' states, with one message: not found where the name is not indexed;
-- access denied where the user may not open the file so; an error where primary and backup are
-- offline; else the address of an active server, which is the primary, or the backup of an
-- inactive primary.
pub handle_req_read_write_stream_lem :
    (sock : ℕ) (type : MessageType) (name : CString) (s : Server)
    → IsConsistent s
    → Succeeds
        (λ s' out.
          (s'.file_catalog ≡ s.file_catalog)
          × (s'.ss_state ≡ s.ss_state)
          × Answer s sock type name out)
        (handle_req_read_write_stream sock type name s)
unfolding handle_req_read_write_stream serving
handle_req_read_write_stream_lem sock type name s c =
    let P = Succeeds (λ s' out.
      (s'.file_catalog ≡ s.file_catalog)
      × (s'.ss_state ≡ s.ss_state)
      × Answer s sock type name out) in
    with_slot_cases P s name _ c
      (λ ix c' same absent. (refl, refl, missing (sym (same name) ∙ absent) refl))
      λ ix slot c' same hit.
        let meta = s.file_catalog slot in
        let found = sym (same name) ∙ hit in
        if_both P (may_open type meta (user_of s sock)) _ _
          (λ may. elim (Option-cases (serving s meta)) [
            | inl e ↦
                rw (e, located) (refl, refl, offline slot found may (serving-eq-none s meta e) refl)
            | inr (ss, e) ↦
                rw (e, located)
                  (refl, refl, at slot ss found may (serving-eq-some s meta ss e) refl)
          ])
          (λ may_not. (refl, refl, denied slot found may_not refl))
