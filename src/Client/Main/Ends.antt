-- ===== src/Client/Main/Ends.antt =====
-- The loop of the client over what is typed ends: each round takes a byte at least, and no command
-- puts one back.
use distributed_document_sys.Client.Input.Shorter.{read_line-lt}
use distributed_document_sys.Client.Registration.{register_with_name_server}
use distributed_document_sys.Client.Input.{read_line, is_gap, strtok, cut_line}
use Prim.Native.String.{String}
use distributed_document_sys.Client.Main.Reads.{
  AtMost, handle_check_requests-AtMost, handle_write-AtMost,
}
use distributed_document_sys.Base.{
  suc, Option-cases, ◌≢◌, inl, inr, zero, ◌<◌, codes, str_eq, arith, Option, length, ℕ, CString,
  if_both, none, ◌≤◌, some,
}
use distributed_document_sys.Protocol.{max_username, PermissionLevel}
use distributed_document_sys.Client.Wire.{Result, close, printf, say, M, Wire}
use distributed_document_sys.Client.Fueled.{
  finish, lifted, lift-Enough, T, Enough, go_on-Enough, lift_then_finish,
}
use distributed_document_sys.Client.Main.{
  main, serve_user, command_loop, run_command, on, stay, reading,
}

abbrev Left : ℕ → Option CString → Type 0
Left n none = Unit
Left n (some rest) = length rest ≤ n

stay-Left :
    (typed : CString) (run : M (Unit {0})) (w : Wire)
    → Enough (Left (length typed)) (stay typed run w)
unfolding stay
stay-Left typed run w = lift_then_finish (Left (length typed)) run (some typed) w (omega arith)

reading-Left :
    (typed : CString) (run : T CString) (w : Wire)
    → Enough (AtMost (length typed)) (run w)
    → Enough (Left (length typed)) (reading run w)
unfolding reading
reading-Left typed run w h =
    go_on-Enough (AtMost (length typed)) (Left (length typed)) (run w) _ h λ rest p w₁. p

on-Left :
    (n : ℕ) (command : CString) (name : String) (run other : T (Option CString)) (w : Wire)
    → Enough (Left n) (run w)
    → Enough (Left n) (other w)
    → Enough (Left n) (on command name run other w)
unfolding on
on-Left n command name run other w h k =
    if_both (λ (m : T (Option CString)). Enough (Left n) (m w)) (str_eq command (codes name)) run
      other (λ _. h) (λ _. k)

not_none : {A : Type 0} (r : Option (Result A)) → Enough (λ (a : A). Unit {0}) r → r ≢ none
not_none none h e = h
not_none (some r) h e = absurd (ground arith)

-- What the loop does with the answer of a command.
continued :
    (loop : ℕ → CString → T (Unit {0})) (fuel n : ℕ)
    → n < fuel
    → ((more : CString) (w : Wire) → length more < fuel → Enough (λ _. Unit {0}) (loop fuel more w))
    → (left : Option CString) → Left n left
    → (w : Wire)
    → Enough
        (λ _. Unit {0})
        (let m : T (Unit {0}) = elim left [ none ↦ finish tt | some more ↦ loop fuel more ] in m w)
continued loop fuel n h k none p w = tt
continued loop fuel n h k (some more) p w = k more w (omega arith)

module _ (format_time : ℕ → CString) (unwritten : PermissionLevel) (sock : ℕ)
    (username : CString) where
  run_command-Left :
      (command args typed : CString) (w : Wire)
      → Enough
          (Left (length typed))
          (run_command format_time unwritten sock username command args typed w)
  unfolding run_command
  run_command-Left command args typed w =
      let same = λ (run : M (Unit {0})). stay-Left typed run w in
      on-Left (length typed) command _ _ _ w (same _) (
        on-Left (length typed) command _ _ _ w (same _) (
          on-Left (length typed) command _ _ _ w
            (reading-Left typed _ w (handle_write-AtMost sock args typed w))
            (on-Left (length typed) command _ _ _ w (same _) (
              on-Left (length typed) command _ _ _ w (same _) (
                on-Left (length typed) command _ _ _ w (same _) (
                  on-Left (length typed) command _ _ _ w (same _) (
                    on-Left (length typed) command _ _ _ w (same _) (
                      on-Left (length typed) command _ _ _ w (same _) (
                        on-Left (length typed) command _ _ _ w (same _) (
                          on-Left (length typed) command _ _ _ w (same _) (
                            on-Left (length typed) command _ _ _ w (same _) (
                              on-Left (length typed) command _ _ _ w
                                (reading-Left typed _ w
                                  (handle_check_requests-AtMost format_time sock typed w))
                                (on-Left (length typed) command _ _ _ w (same _) (
                                  on-Left (length typed) command _ _ _ w (same _) (
                                    on-Left (length typed) command _ _ _ w (same _) (
                                      on-Left (length typed) command _ _ _ w (same _) (
                                        on-Left (length typed) command _ _ _ w (same _) (
                                          on-Left (length typed) command _ _ _ w (same _) (
                                            on-Left (length typed) command _ _ _ w (same _) (
                                              on-Left (length typed) command _ _ _ w (same _) (
                                                on-Left (length typed) command _ _ _ w (tt) (
                                                  on-Left (length typed) command _ _ _ w (tt)
                                                    (same _)))))))))))))))))))))))

  command_loop-Enough :
      (fuel : ℕ) (typed : CString) (w : Wire)
      → length typed < fuel
      → Enough (λ _. Unit {0}) (command_loop format_time unwritten sock username fuel typed w)
  unfolding command_loop
  command_loop-Enough zero typed w h = absurd (omega arith)
  command_loop-Enough (suc fuel) typed w h =
      lifted (λ _. Unit {0}) (say "> " w) _
        λ _ w₁. elim (Option-cases (read_line 1024 typed)) [
          | inl e ↦ rw e tt
          | inr ((line, rest), e) ↦
              let shorter = read_line-lt 1022 typed line rest e in
              rw e (elim (Option-cases (strtok is_gap line).0) [
                | inl empty ↦ rw empty (command_loop-Enough fuel rest w₁ (omega arith))
                | inr (command, given) ↦ rw given (
                    go_on-Enough (Left (length rest)) (λ _. Unit {0})
                      (run_command format_time unwritten sock username command
                        (strtok is_gap line).1 rest w₁)
                      _ (run_command-Left command (strtok is_gap line).1 rest w₁)
                      (continued (command_loop format_time unwritten sock username) fuel
                        (length rest) (omega arith)
                        (λ more w₂ shorter₂. command_loop-Enough fuel more w₂ shorter₂)))
              ])
        ]

serve_user-Enough :
    (format_time : ℕ → CString) (unwritten : PermissionLevel) (nm_ip : CString)
    (name : Option (CString × CString)) (w : Wire)
    → Enough (λ _. Unit {0}) (serve_user format_time unwritten nm_ip name w)
unfolding serve_user
serve_user-Enough format_time unwritten nm_ip none w = tt
serve_user-Enough format_time unwritten nm_ip (some (line, typed)) w =
    lifted (λ _. Unit {0}) (register_with_name_server nm_ip (cut_line line) w) _
      λ sock w₁.
        lifted (λ _. Unit {0}) (printf _ w₁) _
          λ _ w₂.
            go_on-Enough (λ _. Unit {0}) (λ _. Unit {0})
              (command_loop format_time unwritten sock (cut_line line) (suc (length typed)) typed
                w₂)
              _
              (command_loop-Enough format_time unwritten sock (cut_line line) (suc (length typed))
                typed w₂ (omega arith))
              λ _ _ w₃.
                lifted (λ _. Unit {0}) (say "Disconnecting...\n" w₃) _
                  λ _ w₄. lift-Enough (close sock w₄)

-- The client ends on every input of its terminal, whatever its connections bring: the fuel of
-- `main`, one round for each byte that is typed, does not run out, in no write session either.
pub main-ends :
    (format_time : ℕ → CString) (unwritten : PermissionLevel) (nm_ip typed : CString) (w : Wire)
    → main format_time unwritten nm_ip typed w ≢ none
unfolding main
main-ends format_time unwritten nm_ip typed w =
    not_none (main format_time unwritten nm_ip typed w) (
      lifted (λ _. Unit {0}) (say "Enter your username: " w) _
        λ _ w₁. serve_user-Enough format_time unwritten nm_ip (read_line max_username typed) w₁)
