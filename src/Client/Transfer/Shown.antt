-- ===== src/Client/Transfer/Shown.antt =====
-- What the terminal shows of a file that a storage server sends.
use mathlib.Core.List.{append_assoc}
use Prim.Native.String.{String}
use distributed_document_sys.Storage.Stdio.{print_int}
use distributed_document_sys.Base.{
  update, refl, codes, List, arith, ℕ, [], ◌≢◌, some, CString, ◌++◌, ◌∷◌, ◌≡◌,
}
use distributed_document_sys.Protocol.{
  res_error_not_found, sent, max_filename, filename_request, MessageType, res_ss_file_ok,
}
use distributed_document_sys.Client.Wire.{
  advance, connect_lem, recv_header_lem, update_self, join, Wire, Frame, heading, returned, send,
  printf, strncpy,
}
use distributed_document_sys.Client.Transfer.{
  shown, transfer, transferred, content_of, copy_to_terminal, connect_to_storage_server,
  send_filename_request,
}

-- The lines around the content of a file, with the address to which the client has connected.
abbrev pub opening : String → CString → CString → ℕ → CString
opening what filename ip port = join (
    codes "  -> Connecting directly to Storage Server at "
    ∷ ip
    ∷ codes ":"
    ∷ print_int port
    ∷ codes "...\n"
    ∷ codes "--- Start of "
    ∷ codes what
    ∷ codes " '"
    ∷ filename
    ∷ codes "' ---\n"
    ∷ [])

abbrev pub closing : String → CString → CString
closing what filename =
    join (codes "\n--- End of " ∷ codes what ∷ codes " '" ∷ filename ∷ codes "' ---\n" ∷ [])

copy_lem :
    (sock : ℕ) (content : List ℕ) (w : Wire)
    → content_of (w.incoming sock) ≡ some content
    → copy_to_terminal sock w
      ≡ returned tt (record (advance sock [] w) { printed = w.printed ++ content })
unfolding copy_to_terminal
copy_lem sock content w h = rw (h, shown)

pub transfer-shown :
    (what : String) (type : MessageType) (filename ip : CString) (port ss : ℕ) (content : List ℕ)
    (chunks : List Frame) (more : List (ℕ × List Frame)) (w : Wire)
    → w.connections ≡ (ss, heading res_ss_file_ok ∷ chunks) ∷ more
    → content_of chunks ≡ some content
    → (w' : Wire) × (transfer what type filename ip port w ≡ returned tt w')
      × (w'.printed
          ≡ w.printed ++ (opening what filename ip port ++ (content ++ closing what filename)))
      × (w'.outgoing
          ≡ w.outgoing ++ sent ss type (filename_request (strncpy max_filename filename)) ∷ [])
      × (w'.dialled ≡ w.dialled ++ (ip, port) ∷ [])
      × (w'.connections ≡ more)
      × ((k : ℕ) → k ≢ ss → w'.incoming k ≡ w.incoming k)
unfolding connect_to_storage_server send_filename_request send printf transferred
transfer-shown what type filename ip port ss content chunks more w h holds =
    let w₁ : Wire = record w {
      printed =
          w.printed
          ++ join (
              codes "  -> Connecting directly to Storage Server at "
              ∷ ip
              ∷ codes ":"
              ∷ print_int port
              ∷ codes "...\n"
              ∷ []);
    } in
    let w₃ : Wire = record w₁ {
      incoming = update w.incoming ss (heading res_ss_file_ok ∷ chunks);
      connections = more;
      dialled = w.dialled ++ (ip, port) ∷ [];
      outgoing = w.outgoing ++ sent ss type (filename_request (strncpy max_filename filename)) ∷ [];
    } in
    let w₅ : Wire = record (advance ss chunks w₃) {
      printed =
          w₃.printed
          ++ join
              (codes "--- Start of " ∷ codes what ∷ codes " '" ∷ filename ∷ codes "' ---\n" ∷ []);
    } in
    let w₆ : Wire = record (advance ss [] w₅) { printed = w₅.printed ++ content } in
    let w₇ : Wire = record (advance ss [] w₆) { printed = w₆.printed ++ closing what filename } in
    (
      w₇,
      rw (connect_lem ip port ss (heading res_ss_file_ok ∷ chunks) more w₁ h) (
          rw
            (recv_header_lem ss res_ss_file_ok chunks w₃
              (update_self w.incoming ss (heading res_ss_file_ok ∷ chunks)))
            (rw (copy_lem ss content w₅ (rw (update_self w₃.incoming ss chunks) holds)) refl)),
      simp append_assoc,
      refl,
      refl,
      refl,
      λ k other. ground arith,
    )

-- The lines where the storage server does not have the file.
abbrev pub lost_lines : CString → CString → ℕ → CString
lost_lines filename ip port = join (
    codes "  -> Connecting directly to Storage Server at "
    ∷ ip
    ∷ codes ":"
    ∷ print_int port
    ∷ codes "...\n"
    ∷ codes "Error: File '"
    ∷ filename
    ∷ codes "' not found on the Storage Server.\n"
    ∷ [])

pub transfer-lost :
    (what : String) (type : MessageType) (filename ip : CString) (port ss : ℕ)
    (more : List (ℕ × List Frame)) (w : Wire)
    → w.connections ≡ (ss, heading res_error_not_found ∷ []) ∷ more
    → (w' : Wire) × (transfer what type filename ip port w ≡ returned tt w')
      × (w'.printed ≡ w.printed ++ lost_lines filename ip port)
      × (w'.outgoing
          ≡ w.outgoing ++ sent ss type (filename_request (strncpy max_filename filename)) ∷ [])
      × (w'.dialled ≡ w.dialled ++ (ip, port) ∷ [])
      × (w'.connections ≡ more)
      × ((k : ℕ) → k ≢ ss → w'.incoming k ≡ w.incoming k)
unfolding connect_to_storage_server send_filename_request send printf transferred
transfer-lost what type filename ip port ss more w h =
    let w₁ : Wire = record w {
      printed =
          w.printed
          ++ join (
              codes "  -> Connecting directly to Storage Server at "
              ∷ ip
              ∷ codes ":"
              ∷ print_int port
              ∷ codes "...\n"
              ∷ []);
    } in
    let w₃ : Wire = record w₁ {
      incoming = update w.incoming ss (heading res_error_not_found ∷ []);
      connections = more;
      dialled = w.dialled ++ (ip, port) ∷ [];
      outgoing = w.outgoing ++ sent ss type (filename_request (strncpy max_filename filename)) ∷ [];
    } in
    let w₅ : Wire = record (advance ss [] (advance ss [] w₃)) {
      printed =
          w₃.printed
          ++ join (
              codes "Error: File '" ∷ filename ∷ codes "' not found on the Storage Server.\n" ∷ []);
    } in
    (
      w₅,
      rw (connect_lem ip port ss (heading res_error_not_found ∷ []) more w₁ h) (
          rw
            (recv_header_lem ss res_error_not_found [] w₃
              (update_self w.incoming ss (heading res_error_not_found ∷ [])))
            refl),
      simp append_assoc,
      refl,
      refl,
      refl,
      λ k other. ground arith,
    )
