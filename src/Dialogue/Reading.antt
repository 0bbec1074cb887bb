-- ===== src/Dialogue/Reading.antt =====
-- READ: the client, the naming server and the storage server together.
use mathlib.Core.List.{append-nil}
use distributed_document_sys.NameServer.Consistent.{Succeeds, IsConsistent}
use distributed_document_sys.NameServer.Files.{handle_req_read_write_stream}
use distributed_document_sys.NameServer.Index.View.{view}
use distributed_document_sys.NameServer.State.{done, Server}
use distributed_document_sys.Storage.Disk.{Disk, open_read}
use distributed_document_sys.NameServer.Catalog.{user_of, has_read_access}
use distributed_document_sys.Dialogue.{frames, delivered, delivered_one, transfer_frames}
use distributed_document_sys.NameServer.Files.Locate.{
  missing, denied, offline, Answer, handle_req_read_write_stream_lem, Serves, at, Unserved,
}
use distributed_document_sys.Storage.Statistics.{handle_send_file}
use distributed_document_sys.Client.Transfer.Shown.{
  transfer-shown, closing, opening, lost_lines, transfer-lost,
}
use distributed_document_sys.Client.Input.{is_gap, strtok}
use distributed_document_sys.Client.Files.{with_word, read_answered, handle_read}
use distributed_document_sys.Client.Transfer.{
  content_of, transfer, handle_read_from_ss, send_filename_request,
}
use distributed_document_sys.Protocol.{
  is_write, Sent, file_content, res_ss_file_ok, res_error, res_error_access_denied,
  res_error_not_found, read_response, req_client_read, res_read_location, sent, max_filename,
  filename_request, req_read, MessageType,
}
use distributed_document_sys.Client.Wire.{
  printf, join, body, update_self, recv_body_lem, returned, heading, advance, Frame, send, Wire,
  recv_type, recv_header_lem,
}
use distributed_document_sys.Base.{
  subst, update, codes, inl, inr, true, false, ◌≢◌, Option-cases, none, ◌∙◌, List, ◌<◌, some, ◌++◌,
  ap, arith, take, length, ℕ, suc, ◌≤◌, ◌∷◌, zero, [], refl, CString, ◌≡◌,
}

pub take_all : (n : ℕ) (s : CString) → length s ≤ n → take n s ≡ s
take_all zero [] h = refl
take_all zero (c ∷ cs) h = absurd (omega arith)
take_all (suc n) [] h = refl
take_all (suc n) (c ∷ cs) h = ap (◌∷◌ c) (take_all n cs (omega arith))

abbrev pub asked : ℕ → MessageType → CString → Wire → Wire
asked sock type name w = record w {
  outgoing = w.outgoing ++ sent sock type (filename_request name) ∷ [];
}

module _ (sock : ℕ) (args name : CString) (w : Wire) (given : (strtok is_gap args).0 ≡ some name)
    (fits : length name < max_filename) where
  handle_read-answered :
      (t : MessageType) (rest : List Frame)
      → w.incoming sock ≡ heading t ∷ rest
      → handle_read sock args w
        ≡ read_answered sock name t (advance sock rest (asked sock req_read name w))
  unfolding handle_read send_filename_request send recv_type
  handle_read-answered t rest h =
      rw (given, with_word)
        (rw (take_all max_filename name (omega arith))
          (rw (recv_header_lem sock t rest (asked sock req_read name w) h) refl))

one_chunk : (content : List ℕ) → content_of (body (file_content content) ∷ []) ≡ some content
unfolding content_of
one_chunk content = rw (append-nil content)

-- Where the client was sent, and what it shows in the end, by what the servers hold.
pub data ReadOutcome (sock ss_sock : ℕ) (name : CString) (s : Server) (d : Disk) (w w' : Wire)
    : Type 0 where
  unknown :
      view s.index name ≡ none
      → w'.printed ≡ w.printed ++ join (codes "Error: File '" ∷ name ∷ codes "' not found.\n" ∷ [])
      → w'.outgoing ≡ (asked sock req_read name w).outgoing
      → ReadOutcome sock ss_sock name s d w w'
  forbidden :
      (slot : ℕ)
      → view s.index name ≡ some slot
      → has_read_access (s.file_catalog slot) (user_of s sock) ≡ false
      → w'.printed ≡ w.printed ++ codes "Error: Access denied.\n"
      → w'.outgoing ≡ (asked sock req_read name w).outgoing
      → ReadOutcome sock ss_sock name s d w w'
  unserved :
      (slot : ℕ)
      → view s.index name ≡ some slot
      → Unserved s (s.file_catalog slot)
      → w'.printed ≡ w.printed ++ codes "Error: Could not read file.\n"
      → w'.outgoing ≡ (asked sock req_read name w).outgoing
      → ReadOutcome sock ss_sock name s d w w'
  at_server :
      (slot ss : ℕ) (lines : CString)
      → view s.index name ≡ some slot
      → has_read_access (s.file_catalog slot) (user_of s sock) ≡ true
      → Serves s (s.file_catalog slot) ss
      → w'.dialled ≡ w.dialled ++ ((s.ss_state ss).ip, (s.ss_state ss).client_port) ∷ []
      → w'.outgoing
        ≡ (asked sock req_read name w).outgoing
          ++ sent ss_sock req_client_read (filename_request name) ∷ []
      → w'.printed ≡ w.printed ++ lines
      → lines ≡ elim (open_read name d) [
        | none ↦ lost_lines name (s.ss_state ss).ip (s.ss_state ss).client_port
        | some content ↦
            opening "file" name (s.ss_state ss).ip (s.ss_state ss).client_port
            ++ (content ++ closing "file" name)
      ]
      → ReadOutcome sock ss_sock name s d w w'

-- The client returns, and has read all that the naming server has sent.
abbrev pub Reads : ℕ → ℕ → CString → Server → Disk → Wire → CString → Type 0
Reads sock ss_sock name s d w args =
    (w' : Wire) × (handle_read sock args w ≡ returned tt w')
    × (w'.incoming sock ≡ [])
    × ReadOutcome sock ss_sock name s d w w'

module _ (sock ss_sock : ℕ) (args name : CString) (s : Server) (d : Disk) (w : Wire)
    (more : List (ℕ × List Frame)) (given : (strtok is_gap args).0 ≡ some name)
    (fits : length name < max_filename) (other : sock ≢ ss_sock)
    (storage : w.connections ≡ (ss_sock, transfer_frames (handle_send_file name d)) ∷ more) where
  -- After the address has come.
  sent_to :
      (slot ss : ℕ)
      → view s.index name ≡ some slot
      → has_read_access (s.file_catalog slot) (user_of s sock) ≡ true
      → Serves s (s.file_catalog slot) ss
      → w.incoming sock
        ≡ heading res_read_location
          ∷ body (read_response (s.ss_state ss).ip (s.ss_state ss).client_port)
          ∷ []
      → Reads sock ss_sock name s d w args
  unfolding read_answered handle_read_from_ss handle_send_file transfer_frames
  sent_to slot ss found may serves h =
      let ip = (s.ss_state ss).ip in
      let port = (s.ss_state ss).client_port in
      let p = read_response ip port in
      let w₁ : Wire = advance sock (body p ∷ []) (asked sock req_read name w) in
      let w₂ : Wire = advance sock [] w₁ in
      let start : handle_read sock args w ≡ transfer "file" req_client_read name ip port w₂ =
        handle_read-answered sock args name w given fits res_read_location (body p ∷ []) h
        ∙ rw (recv_body_lem sock p [] w₁ (update_self w.incoming sock (body p ∷ []))) refl in
      let drained : w₂.incoming sock ≡ [] = update_self w₁.incoming sock [] in
      let whole : take max_filename name ≡ name = take_all max_filename name (omega arith) in
      elim (Option-cases (open_read name d)) [
        | inl e ↦
            let lost : w.connections ≡ (ss_sock, heading res_error_not_found ∷ []) ∷ more =
              rw (e, handle_send_file) at storage in
            let (w', ran, printed, outgoing, dialled, rest, others) =
              transfer-lost "file" req_client_read name ip port ss_sock more w₂ lost in
            (
              w',
              start ∙ ran,
              others sock other ∙ drained,
              at_server slot ss (lost_lines name ip port) found may serves dialled
                  (rw whole at outgoing) printed (rw e refl),
            )
        | inr (content, e) ↦
            let chunks = body (file_content content) ∷ [] in
            let here : w.connections ≡ (ss_sock, heading res_ss_file_ok ∷ chunks) ∷ more =
              rw (e, handle_send_file) at storage in
            let (w', ran, printed, outgoing, dialled, rest, others) =
              transfer-shown "file" req_client_read name ip port ss_sock content chunks more w₂ here
                (one_chunk content) in
            (
              w',
              start ∙ ran,
              others sock other ∙ drained,
              at_server slot ss (opening "file" name ip port ++ (content ++ closing "file" name))
                  found may serves dialled (rw whole at outgoing) printed (rw e refl),
            )
      ]

  -- An answer without a body.
  refused :
      (t : MessageType) (w' : Wire)
      → w.incoming sock ≡ heading t ∷ []
      → read_answered sock name t (advance sock [] (asked sock req_read name w)) ≡ returned tt w'
      → w'.incoming ≡ update w.incoming sock []
      → ReadOutcome sock ss_sock name s d w w'
      → Reads sock ss_sock name s d w args
  refused t w' h ran drained outcome = (
    w',
    handle_read-answered sock args name w given fits t [] h ∙ ran,
    ap (λ (f : ℕ → List Frame). f sock) drained ∙ update_self w.incoming sock [],
    outcome,
  )

  reads :
      (out : List Sent)
      → Answer s sock req_read name out
      → w.incoming sock ≡ delivered sock out
      → Reads sock ss_sock name s d w args
  unfolding read_answered printf frames is_write
  reads out (missing absent e) h =
      refused res_error_not_found _ (h ∙ (ap (delivered sock) e ∙ delivered_one sock _ _)) refl refl
        (unknown absent refl refl)
  reads out (denied slot found may e) h =
      refused res_error_access_denied _ (h ∙ (ap (delivered sock) e ∙ delivered_one sock _ _)) refl
        refl (forbidden slot found may (simp append-nil) refl)
  reads out (offline slot found may none_active e) h =
      refused res_error _ (h ∙ (ap (delivered sock) e ∙ delivered_one sock _ _)) refl refl
        (unserved slot found none_active (simp append-nil) refl)
  reads out (at slot ss found may serves e) h =
      sent_to slot ss found may serves (h ∙ (ap (delivered sock) e ∙ delivered_one sock _ _))

-- A user types READ and a name of less than 100 bytes, the naming server is consistent and
-- answers the request, and the client's next connection brings what the storage server sends
-- for the name. The client then returns, has read all that the naming server has sent, and
-- shows: not found, access denied or an error, and has sent nothing further, where the name is
-- not indexed, the user may not read the file, or no server of it is active; else it has
-- connected to the active server of the file (the primary, or the backup of an inactive
-- primary), asked for the name, and shows the bytes that the file has there between its two
-- lines, or that it is not there.
pub handle_read-served :
    (sock ss_sock : ℕ) (args name : CString) (s s' : Server) (out : List Sent) (d : Disk) (w : Wire)
    (more : List (ℕ × List Frame))
    → IsConsistent s
    → handle_req_read_write_stream sock req_read name s ≡ done s' out
    → w.incoming sock ≡ delivered sock out
    → (strtok is_gap args).0 ≡ some name
    → length name < max_filename
    → sock ≢ ss_sock
    → w.connections ≡ (ss_sock, transfer_frames (handle_send_file name d)) ∷ more
    → Reads sock ss_sock name s d w args
handle_read-served sock ss_sock args name s s' out d w more c e h given fits other storage =
    let P = λ (t : Server) (sent_out : List Sent).
      (t.file_catalog ≡ s.file_catalog)
      × (t.ss_state ≡ s.ss_state)
      × Answer s sock req_read name sent_out in
    let answered : Succeeds P (done s' out) =
      subst (Succeeds P) e (handle_req_read_write_stream_lem sock req_read name s c) in
    reads sock ss_sock args name s d w more given fits other storage out answered.2 h
