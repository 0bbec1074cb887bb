-- ===== src/NameServer/Registration/Recovered.antt =====
-- Proofs about `sync_files_to_recovering_ss` of name/fault_tolerance.c: which files come back.
use distributed_document_sys.NameServer.Index.View.{view}
use distributed_document_sys.Protocol.{max_files_in_system}
use distributed_document_sys.NameServer.Consistent.{IsConsistent}
use native.Mathlib.Decide.{ℕ_discrete}
use distributed_document_sys.NameServer.Catalog.{set_file}
use distributed_document_sys.NameServer.Registration.{
  sync_files_to_recovering_ss, recoverable, sync_files,
}
use distributed_document_sys.Base.{
  sym, ap, subst, ◌≤◌, ◌+◌, arith, List, ℕ, none, Option-cases, inl, ◌∙◌, refl, CString, zero, ◌<◌,
  inr, ◌≡◌, true, suc, some,
}
use distributed_document_sys.NameServer.State.{Server, FileMetadata}

-- An entry after the loop over it.
abbrev pub revived : ℕ → Server → FileMetadata → FileMetadata
revived sock s meta = elim (recoverable sock s meta) [
  | none ↦ meta
  | some source ↦ record meta { active = true }
]

revived-none :
    (sock : ℕ) (s : Server) (meta : FileMetadata)
    → recoverable sock s meta ≡ none
    → revived sock s meta ≡ meta
revived-none sock s meta e = rw (e, revived) refl

revived-some :
    (sock source : ℕ) (s : Server) (meta : FileMetadata)
    → recoverable sock s meta ≡ some source
    → revived sock s meta ≡ record meta { active = true }
revived-some sock source s meta e = rw (e, revived) refl

sync_files_others :
    (content : ℕ → CString → List ℕ) (sock n i : ℕ) (s : Server)
    → let t = (sync_files content sock n i s).0 in
      (t.index ≡ s.index)
      × (t.ss_state ≡ s.ss_state)
      × ((j : ℕ) → j < i → t.file_catalog j ≡ s.file_catalog j)
unfolding sync_files
sync_files_others content sock zero i s = (refl, refl, λ j lt. refl)
sync_files_others content sock (suc n) i s =
    elim (Option-cases (recoverable sock s (s.file_catalog i))) [
      | inl e ↦
          let (a, b, c) = sync_files_others content sock n (suc i) s in
          rw (e, sync_files) (a, b, λ j lt. c j (omega (arith, lt)))
      | inr (source, e) ↦
          let s' = set_file i (record (s.file_catalog i) { active = true }) s in
          let (a, b, c) = sync_files_others content sock n (suc i) s' in
          rw (e, sync_files) (a, b, λ j lt. c j (omega (arith, lt)) ∙ ground (arith, lt))
    ]

sync_files_lem :
    (content : ℕ → CString → List ℕ) (sock n i : ℕ) (s : Server) (j : ℕ)
    → i ≤ j
    → j < i + n
    → (sync_files content sock n i s).0.file_catalog j ≡ revived sock s (s.file_catalog j)
unfolding sync_files recoverable
sync_files_lem content sock zero i s j le lt = absurd (omega (arith, le, lt))
sync_files_lem content sock (suc n) i s j le lt =
    elim (Option-cases (recoverable sock s (s.file_catalog i))) [
      | inl e ↦
          let t = (sync_files content sock n (suc i) s).0 in
          rw (e, sync_files)
            (elim (ℕ_discrete i j) [
              | yes same ↦
                  subst (λ k. t.file_catalog k ≡ revived sock s (s.file_catalog k)) same
                    ((sync_files_others content sock n (suc i) s).2 i (omega arith)
                      ∙ sym (revived-none sock s (s.file_catalog i) e))
              | no ne ↦
                  sync_files_lem content sock n (suc i) s j (omega (arith, le, ne))
                    (omega (arith, lt))
            ])
      | inr (source, e) ↦
          let s' = set_file i (record (s.file_catalog i) { active = true }) s in
          let t = (sync_files content sock n (suc i) s').0 in
          let put_there : s'.file_catalog i ≡ record (s.file_catalog i) { active = true } =
            ground arith in
          rw (e, sync_files)
            (elim (ℕ_discrete i j) [
              | yes same ↦
                  subst (λ k. t.file_catalog k ≡ revived sock s (s.file_catalog k)) same
                    ((sync_files_others content sock n (suc i) s').2 i (omega arith)
                      ∙ (put_there ∙ sym (revived-some sock source s (s.file_catalog i) e)))
              | no ne ↦
                  let kept : s'.file_catalog j ≡ s.file_catalog j = ground (arith, ne) in
                  sync_files_lem content sock n (suc i) s' j (omega (arith, le, ne))
                    (omega (arith, lt))
                  ∙ ap (revived sock s) kept
            ])
    ]

-- The files of a recovering server that come back are those that are inactive and have an active
-- backup; every other entry, the index and the servers' states stay as they were.
pub sync_files_to_recovering_ss_lem :
    (content : ℕ → CString → List ℕ) (sock : ℕ) (s : Server)
    → let t = (sync_files_to_recovering_ss content sock s).0 in
      (t.index ≡ s.index)
      × (t.ss_state ≡ s.ss_state)
      × ((j : ℕ) → j < max_files_in_system → t.file_catalog j ≡ revived sock s (s.file_catalog j))
sync_files_to_recovering_ss_lem content sock s =
    let (a, b, c) = sync_files_others content sock max_files_in_system 0 s in
    (
      a,
      b,
      λ j lt.
          sync_files_lem content sock max_files_in_system 0 s j (omega arith) (omega (arith, lt)),
    )

-- A file of a recovering server with an active backup whose name is not indexed, as after a
-- disconnection, comes back active and is still not found: the server is then not consistent.
pub sync_files-unlisted :
    (content : ℕ → CString → List ℕ) (sock source slot : ℕ) (s : Server)
    → slot < max_files_in_system
    → recoverable sock s (s.file_catalog slot) ≡ some source
    → view s.index (s.file_catalog slot).filename ≡ none
    → let t = (sync_files_to_recovering_ss content sock s).0 in
      ((t.file_catalog slot).active ≡ true)
      × (view t.index (t.file_catalog slot).filename ≡ none)
      × ¬ IsConsistent t
sync_files-unlisted content sock source slot s lt e absent =
    let t = (sync_files_to_recovering_ss content sock s).0 in
    let (a, b, c) = sync_files_to_recovering_ss_lem content sock s in
    let back : t.file_catalog slot ≡ record (s.file_catalog slot) { active = true } =
      c slot lt ∙ revived-some sock source s (s.file_catalog slot) e in
    let on : (t.file_catalog slot).active ≡ true = ap (λ m. m.active) back in
    let gone : view t.index (t.file_catalog slot).filename ≡ none =
      ap (λ ix. view ix (t.file_catalog slot).filename) a
      ∙ (ap (λ (m : FileMetadata). view s.index m.filename) back ∙ absent) in
    (on, gone, λ k. ground (arith, gone, k.listed slot lt on))
