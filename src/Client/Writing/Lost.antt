-- ===== src/Client/Writing/Lost.antt =====
-- A write session whose storage server is gone.
use distributed_document_sys.Protocol.{sent, no_payload, req_etirw, res_ok, MessageType}
use mathlib.Core.List.{append_assoc}
use distributed_document_sys.Base.{codes, strcmp, ℕ, refl, CString, ◌≡◌, some, ◌++◌, ◌∷◌, [], suc}
use distributed_document_sys.Client.Wire.{
  printf, recv_from, Wire, returned, recv_over, send, recv_header,
}
use distributed_document_sys.Client.Updates.{save_session}
use distributed_document_sys.Client.Writing.{write_loop}
use distributed_document_sys.Client.Input.{read_line, strtok, is_gap}

recv_over_closed :
    (old : MessageType) (sock : ℕ) (w : Wire)
    → w.incoming sock ≡ []
    → recv_over old sock w ≡ returned old w
unfolding recv_over recv_header
recv_over_closed old sock w h = rw (h, recv_from)

-- Where the last update was acknowledged and the storage server has closed the connection
-- since, the client that is told to save and leave reads no answer and shows that the write
-- was successful.
pub write_loop-lost :
    (fuel sock : ℕ) (typed line rest : CString) (w : Wire)
    → read_line 1024 typed ≡ some (line, rest)
    → (strtok is_gap line).0 ≡ some (codes "ETIRW")
    → w.incoming sock ≡ []
    → (w' : Wire) × (write_loop (suc fuel) sock res_ok typed w ≡ some (returned rest w'))
      × (w'.printed ≡ w.printed ++ codes "(writing)> Write successful!\n")
      × (w'.incoming ≡ w.incoming)
unfolding write_loop save_session printf send strcmp
write_loop-lost fuel sock typed line rest w read etirw_typed closed =
    let w₁ : Wire = record w { printed = w.printed ++ codes "(writing)> " } in
    let w₂ : Wire = record w₁ { outgoing = w.outgoing ++ sent sock req_etirw no_payload ∷ [] } in
    (
      record w₂ { printed = w₂.printed ++ codes "Write successful!\n" },
      rw (read) (rw (etirw_typed) (rw (recv_over_closed res_ok sock w₂ closed) refl)),
      simp append_assoc,
      refl,
    )
