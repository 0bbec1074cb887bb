-- ===== src/NameServer/Execution.antt =====
-- name/handlers.c: `handle_req_exec`; `get_file_content_from_ss` of name/catalog.c.
use distributed_document_sys.NameServer.Index.View.{view}
use distributed_document_sys.Storage.Document.{strdup}
use distributed_document_sys.NameServer.Consistent.{
  Succeeds, with_slot_cases, Finishes, IsConsistent,
}
use distributed_document_sys.NameServer.Catalog.{has_read_access, with_slot, user_of}
use distributed_document_sys.Protocol.{
  sent, res_error_not_found, res_exec_done, simple_header, exec_output, res_exec_output, res_error,
  res_error_access_denied,
}
use distributed_document_sys.Base.{
  ap, arith, Option-cases, inr, inl, refl, map, take, List, Option, ℕ, CString, if_both, some,
  if◌then◌else◌, ◌∷◌, ◌-◌, none, ◌≡◌, [], false, ◌++◌,
}
use distributed_document_sys.NameServer.State.{Server, Handled, done}

abbrev pub max_script_size : ℕ
max_script_size = 16384

-- What the connection gives: `none` where there is no answer, or another than `RES_SS_FILE_OK`; else
-- the bytes that come in until the storage server closes it.
unfoldable pub get_file_content_from_ss : Option (List ℕ) → Option CString
get_file_content_from_ss none = none
get_file_content_from_ss (some incoming) = some (strdup (take (max_script_size - 1) incoming))

-- `popen` runs the script by the shell: `none` where that fails, else the lines that it prints.
unfoldable pub run_script :
    (CString → Option (List (List ℕ))) → ℕ → Option CString → Server → Handled
run_script shell sock none s = done s (simple_header sock res_error ∷ [])
run_script shell sock (some script) s = elim (shell script) [
  | none ↦ done s (simple_header sock res_error ∷ [])
  | some lines ↦ done s (
      map (λ l. sent sock res_exec_output (exec_output l)) lines
      ++ simple_header sock res_exec_done ∷ [])
]

unfoldable pub handle_req_exec :
    (CString → Option (List (List ℕ))) → ℕ → CString → Option (List ℕ) → Server → Handled
handle_req_exec shell sock name incoming s₀ = with_slot name s₀ λ found s. elim found [
  | none ↦ done s (simple_header sock res_error_not_found ∷ [])
  | some slot ↦
      let meta = s.file_catalog slot in
      if has_read_access meta (user_of s sock)
      then if (s.ss_state meta.ss_sock_fd).active
        then run_script shell sock (get_file_content_from_ss incoming) s
        else done s (simple_header sock res_error ∷ [])
      else done s (simple_header sock res_error_access_denied ∷ [])
]

-- In a consistent server an execution by a user who may not read the file is denied: nothing
-- is run, whatever the shell, and the catalog stays.
pub handle_req_exec-denied :
    (shell : CString → Option (List (List ℕ))) (sock : ℕ) (name : CString)
    (incoming : Option (List ℕ)) (s : Server) (slot : ℕ)
    → IsConsistent s
    → view s.index name ≡ some slot
    → has_read_access (s.file_catalog slot) (user_of s sock) ≡ false
    → Succeeds
        (λ s' out.
          (s'.file_catalog ≡ s.file_catalog)
          × (out ≡ simple_header sock res_error_access_denied ∷ []))
        (handle_req_exec shell sock name incoming s)
unfolding handle_req_exec
handle_req_exec-denied shell sock name incoming s slot c found not_allowed =
    let P = Succeeds (λ s' out.
      (s'.file_catalog ≡ s.file_catalog)
      × (out ≡ simple_header sock res_error_access_denied ∷ [])) in
    with_slot_cases P s name _ c (λ ix c' same absent. absurd (ground (arith, same name)))
      λ ix k c' same hit.
        let q : k ≡ slot = ground (arith, same name) in
        if_both P (has_read_access (s.file_catalog k) (user_of s sock)) _ _
          (λ allowed.
            absurd
              (ground (arith, ap (λ j. has_read_access (s.file_catalog j) (user_of s sock)) q)))
          (λ _. (refl, refl))

run_script-IsConsistent :
    (shell : CString → Option (List (List ℕ))) (sock : ℕ) (script : Option CString) (s : Server)
    → IsConsistent s
    → Finishes IsConsistent (run_script shell sock script s)
unfolding run_script
run_script-IsConsistent shell sock none s c = c
run_script-IsConsistent shell sock (some script) s c = elim (Option-cases (shell script)) [
  | inl e ↦ rw (e, run_script) c
  | inr (lines, e) ↦ rw (e, run_script) c
]

pub handle_req_exec-IsConsistent :
    (shell : CString → Option (List (List ℕ))) (sock : ℕ) (name : CString)
    (incoming : Option (List ℕ)) (s : Server)
    → IsConsistent s
    → Finishes IsConsistent (handle_req_exec shell sock name incoming s)
unfolding handle_req_exec
handle_req_exec-IsConsistent shell sock name incoming s c =
    with_slot_cases (Finishes IsConsistent) s name _ c (λ ix c' same absent. c')
      λ ix slot c' same hit.
        let meta = s.file_catalog slot in
        if_both (Finishes IsConsistent) (has_read_access meta (user_of s sock)) _ _
          (λ _.
            if_both (Finishes IsConsistent) (s.ss_state meta.ss_sock_fd).active _ _
              (λ _. run_script-IsConsistent shell sock (get_file_content_from_ss incoming) _ c')
              (λ _. c'))
          (λ _. c')
