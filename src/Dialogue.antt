-- ===== src/Dialogue.antt =====
-- The client together with the servers: what one sends is what comes in at the other.
pub mod Reading
pub mod Viewing
pub mod Tests
use mathlib.Core.List.{append-nil}
use distributed_document_sys.Protocol.{sent, Sent, no_payload, MessageType, file_content, Payload}
use distributed_document_sys.Storage.Statistics.{Output, header, bytes}
use distributed_document_sys.Base.{arith, ℕ, List, if◌then◌else◌, ◌++◌, ◌≡◌, ◌∷◌, ◌==◌, []}
use distributed_document_sys.Client.Wire.{heading, body, Frame}
use distributed_document_sys.Client.Wire

payload_frames : Payload → List Frame
payload_frames no_payload = []
payload_frames p = Wire.body p ∷ []

-- A message as its reader finds it.
unfoldable pub frames : Sent → List Frame
unfolding payload_frames
frames m = Wire.heading m.type ∷ payload_frames m.payload

-- What a socket's peer finds of the messages of a server.
unfoldable pub delivered : ℕ → List Sent → List Frame
delivered sock [] = []
delivered sock (m ∷ ms) = if m.to == sock then frames m ++ delivered sock ms else delivered sock ms

-- What a client finds of a transfer; the storage server sends nothing else for one.
unfoldable pub transfer_frames : List Output → List Frame
transfer_frames [] = []
transfer_frames (o ∷ os) = elim o [
  | header t ↦ Wire.heading t ∷ transfer_frames os
  | bytes sent_bytes ↦ Wire.body (file_content sent_bytes) ∷ transfer_frames os
  | _ ↦ transfer_frames os
]

pub delivered_one :
    (sock : ℕ) (t : MessageType) (p : Payload)
    → delivered sock (sent sock t p ∷ []) ≡ frames (sent sock t p)
unfolding delivered
delivered_one sock t p = ground (arith, append-nil (frames (sent sock t p)))

pub delivered_cons :
    (sock : ℕ) (t : MessageType) (p : Payload) (ms : List Sent)
    → delivered sock (sent sock t p ∷ ms) ≡ frames (sent sock t p) ++ delivered sock ms
unfolding delivered
delivered_cons sock t p ms = ground arith
