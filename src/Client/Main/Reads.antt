-- ===== src/Client/Main/Reads.antt =====
-- The commands that read standard input put nothing back.
use distributed_document_sys.Client.Input.Shorter.{read_line-lt}
use distributed_document_sys.Client.Transfer.{connect_to_storage_server, send_filename_request}
use distributed_document_sys.Client.Writing.{
  locked, handle_write_to_ss, handle_write, write_located, write_answered, write_requested,
  write_loop,
}
use distributed_document_sys.Client.Updates.{
  not_locked, not_located, session_opened, save_session, update_line,
}
use distributed_document_sys.Protocol.{
  client_write_request, req_client_write, read_response, res_ok_locked, res_read_location,
  req_write, max_filename, request_list, res_request_list, Payload, MessageType, req_check_requests,
  no_payload, RequestItem,
}
use distributed_document_sys.Client.Review.{
  requests_reviewed, review_listed, requests_received, handle_check_requests, answer_request,
  review_requests, show_request,
}
use distributed_document_sys.Base.{
  ℤ, codes, str_eq, Bool-cases, ◌==◌, List, Option, Option-cases, inr, none, inl, arith, length, ℕ,
  zero, suc, CString, ◌∷◌, some, [], ◌≤◌, ◌<◌,
}
use distributed_document_sys.Client.Wire.{
  close, strncpy, recv_type, recv_header, send, say, printf, recv_over, recv_body, Wire, Result,
  returned, exited, undefined,
}
use distributed_document_sys.Client.Fueled.{
  lifted, lift_then_finish, and_then-Enough, bind-Enough, then_pure, go_on-Enough, Enough,
}
use distributed_document_sys.Client.Input.{atoi, is_gap, strtok, is_newline, cut_line, read_line}

abbrev pub AtMost : ℕ → CString → Type 0
AtMost n rest = length rest ≤ n

pub weaken :
    (m n : ℕ) (r : Option (Result CString)) → m < n → Enough (AtMost m) r → Enough (AtMost n) r
weaken m n none h p = p
weaken m n (some (returned a w)) h p = omega arith
weaken m n (some (exited w)) h p = tt
weaken m n (some undefined) h p = tt

module _ (format_time : ℕ → CString) where
  review_requests-AtMost :
      (sock i : ℕ) (rs : List RequestItem) (typed : CString) (w : Wire)
      → Enough (AtMost (length typed)) (some (review_requests format_time sock i rs typed w))
  unfolding review_requests
  review_requests-AtMost sock i [] typed w = omega arith
  review_requests-AtMost sock i (r ∷ rs) typed w =
      and_then-Enough _ (show_request format_time i r w) _ λ _ w₁.
        elim (Option-cases (read_line 10 typed)) [
          | inl e ↦ rw e (omega arith)
          | inr ((response, rest), e) ↦ rw e (
              and_then-Enough _ (answer_request sock r (cut_line response) w₁) _ λ _ w₂.
                weaken (length rest) (length typed)
                  (some (review_requests format_time sock (suc i) rs rest w₂))
                  (read_line-lt 8 typed response rest e)
                  (review_requests-AtMost sock (suc i) rs rest w₂))
        ]

  review_listed-AtMost :
      (sock : ℕ) (typed : CString) (items : List RequestItem) (w : Wire)
      → Enough (AtMost (length typed)) (some (review_listed format_time sock typed items w))
  unfolding review_listed
  review_listed-AtMost sock typed items w =
      and_then-Enough (AtMost (length typed)) (printf _ w) _ λ _ w₁.
        bind-Enough (AtMost (length typed)) (AtMost (length typed))
          (review_requests format_time sock 0 items typed w₁) _
          (review_requests-AtMost sock 0 items typed w₁)
          λ rest h w₂.
            then_pure (AtMost (length typed)) (say "\n=== End of requests ===\n") rest w₂ h

  requests_received-AtMost :
      (sock : ℕ) (typed : CString) (p : Payload) (w : Wire)
      → Enough (AtMost (length typed)) (some (requests_received format_time sock typed p w))
  unfolding requests_received
  requests_received-AtMost sock typed (request_list request_count items) w =
      elim (Bool-cases (request_count == 0)) [
        | inl e ↦
            rw (e, requests_received)
              (then_pure (AtMost (length typed)) (say "No pending access requests.\n") typed w
                (omega arith))
        | inr e ↦
            rw (e, requests_received)
              (elim (Bool-cases (request_count == length items)) [
                | inl same ↦ rw same (review_listed-AtMost sock typed items w)
                | inr other ↦ rw other tt
              ])
      ]
  requests_received-AtMost sock typed _ w = tt

  requests_reviewed-AtMost :
      (sock : ℕ) (typed : CString) (t : MessageType) (w : Wire)
      → Enough (AtMost (length typed)) (some (requests_reviewed format_time sock typed t w))
  unfolding requests_reviewed
  requests_reviewed-AtMost sock typed res_request_list w =
      and_then-Enough (AtMost (length typed)) (recv_body sock w) _
        λ p w₁. requests_received-AtMost sock typed p w₁
  requests_reviewed-AtMost sock typed _ w =
      and_then-Enough (AtMost (length typed)) (say "Error: Could not retrieve requests.\n" w) _
        λ _ w₁. omega arith

  pub handle_check_requests-AtMost :
      (sock : ℕ) (typed : CString) (w : Wire)
      → Enough (AtMost (length typed)) (some (handle_check_requests format_time sock typed w))
  unfolding handle_check_requests
  handle_check_requests-AtMost sock typed w =
      and_then-Enough (AtMost (length typed)) (send sock req_check_requests no_payload w) _ λ _ w₁.
        and_then-Enough (AtMost (length typed)) (recv_over req_check_requests sock w₁) _
          λ t w₂. requests_reviewed-AtMost sock typed t w₂

write_loop-AtMost :
    (fuel sock : ℕ) (type : MessageType) (typed : CString) (w : Wire)
    → length typed < fuel
    → Enough (AtMost (length typed)) (write_loop fuel sock type typed w)
unfolding write_loop
write_loop-AtMost zero sock type typed w h = absurd (omega arith)
write_loop-AtMost (suc fuel) sock type typed w h =
    lifted (AtMost (length typed)) (say "(writing)> " w) _ λ _ w₁.
      elim (Option-cases (read_line 1024 typed)) [
        | inl e ↦ rw e (omega arith)
        | inr ((line, rest), e) ↦
            let shorter = read_line-lt 1022 typed line rest e in
            rw e (elim (Option-cases (strtok is_gap line).0) [
              | inl none_left ↦ rw none_left (
                  weaken (length rest) (length typed) (write_loop fuel sock type rest w₁) shorter
                    (write_loop-AtMost fuel sock type rest w₁ (omega arith)))
              | inr (command, given) ↦
                  rw given (elim (Bool-cases (str_eq command (codes "ETIRW"))) [
                    | inl saving ↦ rw saving (
                        lifted (AtMost (length typed)) (save_session sock type w₁) _
                          λ _ w₂. omega arith)
                    | inr other ↦ rw other (
                        lifted (AtMost (length typed))
                          (update_line sock type command
                            (strtok is_newline (strtok is_gap line).1).0 w₁)
                          _
                          λ t w₂.
                            weaken (length rest) (length typed) (write_loop fuel sock t rest w₂)
                              shorter (write_loop-AtMost fuel sock t rest w₂ (omega arith)))
                  ])
            ])
      ]

locked-AtMost :
    (sock : ℕ) (filename : CString) (n : ℤ) (typed : CString) (t : Option MessageType) (w : Wire)
    → Enough (AtMost (length typed)) (locked sock filename n typed t w)
unfolding locked
locked-AtMost sock filename n typed (some res_ok_locked) w =
    lifted (AtMost (length typed)) (session_opened filename n w) _
      λ _ w₁. write_loop-AtMost (suc (length typed)) sock res_ok_locked typed w₁ (omega arith)
locked-AtMost sock filename n typed none w =
    lift_then_finish (AtMost (length typed)) (not_locked none) typed w (omega arith)
locked-AtMost sock filename n typed (some t) w =
    lift_then_finish (AtMost (length typed)) (not_locked (some t)) typed w (omega arith)

handle_write_to_ss-AtMost :
    (filename : CString) (n : ℤ) (typed ip : CString) (port : ℕ) (w : Wire)
    → Enough (AtMost (length typed)) (handle_write_to_ss filename n typed ip port w)
unfolding handle_write_to_ss
handle_write_to_ss-AtMost filename n typed ip port w =
    lifted (AtMost (length typed)) (connect_to_storage_server ip port w) _ λ sock w₁.
      lifted (AtMost (length typed))
        (send sock req_client_write (client_write_request (strncpy max_filename filename) n) w₁) _
        λ _ w₂. lifted (AtMost (length typed)) (recv_header sock w₂) _ λ t w₃.
          go_on-Enough (AtMost (length typed)) (AtMost (length typed))
            (locked sock filename n typed t w₃) _ (locked-AtMost sock filename n typed t w₃)
            λ rest h w₄. lift_then_finish (AtMost (length typed)) (close sock) rest w₄ h

write_located-AtMost :
    (filename : CString) (n : ℤ) (typed : CString) (p : Payload) (w : Wire)
    → Enough (AtMost (length typed)) (write_located filename n typed p w)
unfolding write_located
write_located-AtMost filename n typed (read_response ip port) w =
    handle_write_to_ss-AtMost filename n typed ip port w
write_located-AtMost filename n typed _ w = tt

write_answered-AtMost :
    (sock : ℕ) (filename : CString) (n : ℤ) (typed : CString) (t : MessageType) (w : Wire)
    → Enough (AtMost (length typed)) (write_answered sock filename n typed t w)
unfolding write_answered
write_answered-AtMost sock filename n typed res_read_location w =
    lifted (AtMost (length typed)) (recv_body sock w) _
      λ p w₁. write_located-AtMost filename n typed p w₁
write_answered-AtMost sock filename n typed t w =
    lift_then_finish (AtMost (length typed)) (not_located filename t) typed w (omega arith)

write_requested-AtMost :
    (sock : ℕ) (typed filename : CString) (n : Option ℤ) (w : Wire)
    → Enough (AtMost (length typed)) (write_requested sock typed filename n w)
unfolding write_requested
write_requested-AtMost sock typed filename none w = tt
write_requested-AtMost sock typed filename (some n) w =
    lifted (AtMost (length typed)) (send_filename_request sock req_write filename w) _ λ _ w₁.
      lifted (AtMost (length typed)) (recv_type sock w₁) _
        λ t w₂. write_answered-AtMost sock filename n typed t w₂

pub handle_write-AtMost :
    (sock : ℕ) (args typed : CString) (w : Wire)
    → Enough (AtMost (length typed)) (handle_write sock args typed w)
unfolding handle_write
handle_write-AtMost sock args typed w =
    let usage =
      lift_then_finish (AtMost (length typed)) (say "Usage: WRITE <filename> <sentence_number>\n")
        typed w (omega arith) in
    elim (Option-cases (strtok is_gap args).0) [
      | inl e ↦ rw (e, handle_write) usage
      | inr (filename, e) ↦
          rw (e, handle_write)
            (elim (Option-cases (strtok is_gap (strtok is_gap args).1).0) [
              | inl e₂ ↦ rw e₂ usage
              | inr (sentence_str, e₂) ↦
                  rw e₂ (write_requested-AtMost sock typed filename (atoi sentence_str) w)
            ])
    ]
