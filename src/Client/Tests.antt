-- ===== src/Client/Tests.antt =====
-- Concrete dialogues of the client, and the theorems on it applied.
use distributed_document_sys.Protocol.{res_ok, no_perm}
use distributed_document_sys.Base.{
  codes, List, ℕ, [], ◌≡◌, ◌∷◌, refl, negsuc, ◌++◌, none, some, ◌≢◌, CString,
}
use distributed_document_sys.Client.Wire.{Wire, Frame, heading, returned}
use distributed_document_sys.Client.Input.{read_line, strtok, is_gap, atoi, take_line, span_token}
use distributed_document_sys.Client.Main.{main}
use distributed_document_sys.Client.Main.Ends.{main-ends}
use distributed_document_sys.Client.Writing.{write_loop}
use distributed_document_sys.Client.Writing.Lost.{write_loop-lost}
use distributed_document_sys.Storage.Stdio.{skip, scan_digits}

abbrev no_time : ℕ → CString
no_time t = []

-- The naming server on socket 3, and a storage server on socket 4.
abbrev terminal : List Frame → List Frame → Wire
terminal from_nm from_ss = record {
  printed = [];
  outgoing = [];
  incoming = λ _. [];
  connections = (3, from_nm) ∷ (4, from_ss) ∷ [];
  dialled = [];
}

atoi_test : atoi (codes " -42x") ≡ some (negsuc 41)
unfolding atoi skip scan_digits
atoi_test = refl

strtok_test : strtok is_gap (codes "  WRITE a.txt 1\n") ≡ (some (codes "WRITE"), codes "a.txt 1\n")
unfolding strtok span_token
strtok_test = refl

-- A user creates a file and leaves.
abbrev session : CString
session = codes "alice\nCREATE a.txt\nQUIT\n"

main-ends_example :
    main no_time no_perm
      (codes "10.0.0.1")
      session
      (terminal (heading res_ok ∷ heading res_ok ∷ []) [])
    ≢ none
main-ends_example =
    main-ends no_time no_perm (codes "10.0.0.1") session
      (terminal (heading res_ok ∷ heading res_ok ∷ []) [])

write_loop-lost_example :
    let w = terminal [] [] in
    (w' : Wire) × (write_loop 1 4 res_ok (codes "ETIRW\n") w ≡ some (returned [] w'))
    × (w'.printed ≡ w.printed ++ codes "(writing)> Write successful!\n")
    × (w'.incoming ≡ w.incoming)
unfolding read_line take_line strtok span_token
write_loop-lost_example =
    write_loop-lost 0 4 (codes "ETIRW\n") (codes "ETIRW\n") [] (terminal [] []) refl refl refl
