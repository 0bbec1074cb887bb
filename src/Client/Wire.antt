-- ===== src/Client/Wire.antt =====
-- What the client exchanges with its terminal and its servers, and the steps of which the handlers
-- of client/client.c and client/handlers.c are made.
use distributed_document_sys.Base.{
  arith, ◌≡◌, ℕ, List, [], ◌∷◌, ◌++◌, Option, none, some, CString, update, codes, take,
}
use distributed_document_sys.Protocol.{MessageType, Payload, no_payload, Sent, sent}
use Prim.Native.String.{String}

-- A stream of messages, as it is read: a header, and what follows it in a read of its own.
pub data Frame : Type 0 where
  heading : MessageType → Frame
  body : Payload → Frame

-- `incoming` is what each socket has still to bring before its peer closes it; `connections` are
-- the sockets that `connect` is going to give, each with what comes in on it (none where it fails),
-- and `dialled` the addresses to which it has connected.
pub record Wire : Type 0 where
  pub printed : CString
  pub outgoing : List Sent
  pub incoming : ℕ → List Frame
  pub connections : List (ℕ × List Frame)
  pub dialled : List (CString × ℕ)

-- `exited` is the end of the program by `error_exit`. `undefined` is a use of what was never
-- written, or a message read as another one.
pub data Result (A : Type 0) : Type 0 where
  returned : A → Wire → Result A
  exited : Wire → Result A
  undefined : Result A

abbrev pub M : Type 0 → Type 0
M A = Wire → Result A

abbrev pub pure : {A : Type 0} → A → M A
pure a w = returned a w

abbrev pub and_then : {A B : Type 0} → Result A → (A → M B) → Result B
and_then (returned a w) f = f a w
and_then (exited w) f = exited w
and_then undefined f = undefined

infixl 5 ◌>>=◌ ◌>>◌
abbrev pub ◌>>=◌ : {A B : Type 0} → M A → (A → M B) → M B
◌>>=◌ m f w = and_then (m w) f

abbrev pub ◌>>◌ : {B : Type 0} → M (Unit {0}) → M B → M B
m >> k = m >>= λ _. k

-- `exit(EXIT_FAILURE)`
abbrev pub error_exit : {A : Type 0} → M A
error_exit w = exited w

abbrev pub fault : {A : Type 0} → M A
fault w = undefined

abbrev pub join : List CString → CString
join [] = []
join (s ∷ ss) = s ++ join ss

-- The parts of a format and its arguments, one after the other.
unfoldable pub printf : List CString → M (Unit {0})
printf parts w = returned tt (record w { printed = w.printed ++ join parts })

abbrev pub say : String → M (Unit {0})
say text = printf (codes text ∷ [])

-- A header and its payload.
unfoldable pub send : ℕ → MessageType → Payload → M (Unit {0})
send sock type payload w =
    returned tt (record w { outgoing = w.outgoing ++ sent sock type payload ∷ [] })

abbrev pub send_simple_header : ℕ → MessageType → M (Unit {0})
send_simple_header sock type = send sock type no_payload

abbrev pub advance : ℕ → List Frame → Wire → Wire
advance sock rest w = record w { incoming = update w.incoming sock rest }

-- `recv` of a header; none where it gives 0 or less.
unfoldable pub recv_from : ℕ → List Frame → M (Option MessageType)
recv_from sock [] w = returned none w
recv_from sock (heading t ∷ rest) w = returned (some t) (advance sock rest w)
recv_from sock (body p ∷ rest) w = undefined

unfoldable pub recv_header : ℕ → M (Option MessageType)
unfolding recv_from
recv_header sock w = recv_from sock (w.incoming sock) w

abbrev pub initialised : Option MessageType → M MessageType
initialised none = fault
initialised (some t) = pure t

-- The type of a header that holds nothing before the read.
unfoldable pub recv_type : ℕ → M MessageType
recv_type sock = do t ← recv_header sock; initialised t

abbrev pub kept : MessageType → Option MessageType → M MessageType
kept old none = pure old
kept old (some t) = pure t

-- The type of a header that keeps its old value where the read fails.
unfoldable pub recv_over : MessageType → ℕ → M MessageType
recv_over old sock = do t ← recv_header sock; kept old t

body_from : ℕ → List Frame → M Payload
body_from sock [] w = undefined
body_from sock (heading t ∷ rest) w = undefined
body_from sock (body p ∷ rest) w = returned p (advance sock rest w)

-- `recv` of what follows a header.
unfoldable pub recv_body : ℕ → M Payload
unfolding body_from
recv_body sock w = body_from sock (w.incoming sock) w

next_connection : CString → ℕ → List (ℕ × List Frame) → M ℕ
next_connection ip port [] w = exited w
next_connection ip port ((sock, frames) ∷ rest) w = returned sock (record w {
  incoming = update w.incoming sock frames;
  connections = rest;
  dialled = w.dialled ++ (ip, port) ∷ [];
})

-- `socket`, `inet_pton` and `connect`
unfoldable pub connect : CString → ℕ → M ℕ
unfolding next_connection
connect ip port w = next_connection ip port w.connections w

pub recv_header_lem :
    (sock : ℕ) (t : MessageType) (rest : List Frame) (w : Wire)
    → w.incoming sock ≡ heading t ∷ rest
    → recv_header sock w ≡ returned (some t) (advance sock rest w)
unfolding recv_header
recv_header_lem sock t rest w h = rw (h, recv_from)

pub recv_body_lem :
    (sock : ℕ) (p : Payload) (rest : List Frame) (w : Wire)
    → w.incoming sock ≡ body p ∷ rest
    → recv_body sock w ≡ returned p (advance sock rest w)
unfolding recv_body
recv_body_lem sock p rest w h = rw (h, body_from)

pub connect_lem :
    (ip : CString) (port sock : ℕ) (frames : List Frame) (more : List (ℕ × List Frame)) (w : Wire)
    → w.connections ≡ (sock, frames) ∷ more
    → connect ip port w
      ≡ returned sock (record w {
        incoming = update w.incoming sock frames;
        connections = more;
        dialled = w.dialled ++ (ip, port) ∷ [];
      })
unfolding connect
connect_lem ip port sock frames more w h = rw (h, next_connection)

pub update_self : {A : Type 0} (f : ℕ → A) (i : ℕ) (a : A) → update f i a i ≡ a
update_self f i a = ground arith

-- `close`
abbrev pub close : ℕ → M (Unit {0})
close sock w = returned tt (advance sock [] w)

-- `strncpy` into a field of so many bytes: a longer string is left without its NUL.
abbrev pub strncpy : ℕ → CString → CString
strncpy size s = take size s
