-- ===== src/Client/Review.antt =====
-- client/client.c: `handle_check_requests`, in which an owner answers the requests for access.
use distributed_document_sys.Storage.Stdio.{print_int}
use distributed_document_sys.Base.{
  length, List, str_eq, ℕ, codes, ◌==◌, if◌then◌else◌, true, ◌+◌, false, suc, none, some, ◌∷◌, [],
  CString,
}
use distributed_document_sys.Protocol.{
  Payload, level, req_check_requests, res_request_list, RequestItem, request_response, read_write,
  res_ok, MessageType, req_deny_request, req_approve_request, no_payload, request_list,
}
use distributed_document_sys.Client.Wire.{
  M, pure, fault, ◌>>=◌, ◌>>◌, say, printf, send, recv_over, recv_body,
}
use distributed_document_sys.Client.Input.{read_line, cut_line}

-- The UTF-8 bytes of a check mark and of a ballot x.
abbrev pub check_mark : CString
check_mark = 0xe2 ∷ 0x9c ∷ 0x93 ∷ []

abbrev pub ballot_x : CString
ballot_x = 0xe2 ∷ 0x9c ∷ 0x97 ∷ []

approved : RequestItem → MessageType → M (Unit {0})
approved r res_ok =
    printf (
      codes "    " ∷ check_mark ∷ codes " Access granted to " ∷ r.requesting_user ∷ codes "\n" ∷ [])
approved r _ = printf (codes "    " ∷ ballot_x ∷ codes " Failed to grant access\n" ∷ [])

denied : MessageType → M (Unit {0})
denied res_ok = printf (codes "    " ∷ check_mark ∷ codes " Request denied/removed\n" ∷ [])
denied _ = printf (codes "    " ∷ ballot_x ∷ codes " Failed to remove request\n" ∷ [])

-- What is sent for an answer, and what comes back.
unfoldable pub answer_request : ℕ → RequestItem → CString → M (Unit {0})
unfolding approved denied
answer_request sock r response = elim (str_eq response (codes "yes")) [
  | true ↦ do
    send sock req_approve_request (request_response r.request_id)
    t ← recv_over req_approve_request sock
    approved r t
  | false ↦ do
    send sock req_deny_request (request_response r.request_id)
    t ← recv_over req_deny_request sock
    denied t
]

module _ (format_time : ℕ → CString) where
  unfoldable pub show_request : ℕ → RequestItem → M (Unit {0})
  show_request i r = printf (
      codes "\n["
      ∷ print_int (i + 1)
      ∷ codes "] Request ID: "
      ∷ print_int r.request_id
      ∷ codes "\n    File: "
      ∷ r.filename
      ∷ codes "\n    User: "
      ∷ r.requesting_user
      ∷ codes "\n    Permission: "
      ∷ (if level r.requested_perm == level read_write
          then codes "READ_WRITE"
          else codes "READ_ONLY")
      ∷ codes "\n    Requested: "
      ∷ format_time r.timestamp
      ∷ codes "\n    Approve this request? (yes/no): "
      ∷ [])

  -- `typed` is what standard input has still to give, and the result what is left of it.
  unfoldable pub review_requests : ℕ → ℕ → List RequestItem → CString → M CString
  review_requests sock i [] typed = pure typed
  review_requests sock i (r ∷ rs) typed = do
    show_request i r
    elim (read_line 10 typed) [
      | none ↦ pure typed
      | some (response, rest) ↦ do
        answer_request sock r (cut_line response)
        review_requests sock (suc i) rs rest
    ]

  -- The items that have come, in their number.
  unfoldable pub review_listed : ℕ → CString → List RequestItem → M CString
  review_listed sock typed items = do
    printf (
        codes "\n=== Pending Access Requests ("
        ∷ print_int (length items)
        ∷ codes " total) ===\n"
        ∷ [])
    rest ← review_requests sock 0 items typed
    say "\n=== End of requests ===\n"
    pure rest

  unfoldable pub requests_received : ℕ → CString → Payload → M CString
  requests_received sock typed (request_list request_count items) = elim (request_count == 0) [
    | true ↦ do say "No pending access requests.\n"; pure typed
    | false ↦ if request_count == length items then review_listed sock typed items else fault
  ]
  requests_received sock typed _ = fault

  unfoldable pub requests_reviewed : ℕ → CString → MessageType → M CString
  requests_reviewed sock typed res_request_list = do
    p ← recv_body sock
    requests_received sock typed p
  requests_reviewed sock typed _ = do say "Error: Could not retrieve requests.\n"; pure typed

  unfoldable pub handle_check_requests : ℕ → CString → M CString
  handle_check_requests sock typed = do
    send sock req_check_requests no_payload
    t ← recv_over req_check_requests sock
    requests_reviewed sock typed t
