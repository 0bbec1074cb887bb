-- ===== src/NameServer/Registration/Keeps.antt =====
-- Proofs about the registration of a storage server and the invariant of the naming server.
use distributed_document_sys.NameServer.Requests.Keeps.{unseen}
use distributed_document_sys.NameServer.Files.{add_entry}
use distributed_document_sys.NameServer.Registration.{
  handle_ss_register, catalog_ss_files, register_ss, has_backup, FileItem,
}
use distributed_document_sys.Protocol.{max_permissions_per_file, max_files_in_system}
use distributed_document_sys.NameServer.Files.Keeps.{
  find_empty_file_slot-empty, add_entry-IsConsistent,
}
use distributed_document_sys.NameServer.Consistent.{Finishes, IsConsistent}
use distributed_document_sys.NameServer.State.{Server}
use distributed_document_sys.NameServer.Index.{Index, add_to_hashmap}
use distributed_document_sys.NameServer.Catalog.{find_empty_file_slot}
use distributed_document_sys.Base.{
  not, arith, length, All, List, ℕ, inl, ◌≤◌, ◌≢◌, ◌∷◌, find_first, ◌≡◌, CString, none, ◌&&◌, ◌⊎◌,
  [], Option-cases, refl, false, ◌==◌, inr, is_none,
}
use distributed_document_sys.NameServer.Index.View.{view, add_to_hashmap-view}

-- The files that a storage server brings have different names, none of which is indexed, and access
-- lists that fit.
pub data FreshItems (ix : Index) : List FileItem → Type 0 where
  no_item : FreshItems ix []
  fresh_item :
      {f : FileItem} {fs : List FileItem}
      → view ix f.filename ≡ none
      → length f.access_list ≤ max_permissions_per_file
      → All (λ g. f.filename ≢ g.filename) fs
      → FreshItems ix fs
      → FreshItems ix (f ∷ fs)

later :
    (ix : Index) (name : CString) (slot : ℕ) (fs : List FileItem)
    → FreshItems ix fs
    → All (λ g. name ≢ g.filename) fs
    → FreshItems (add_to_hashmap name slot ix) fs
later ix name slot [] no_item h = no_item
later ix name slot (f ∷ fs) (fresh_item absent few others rest) h =
    let shown = add_to_hashmap-view ix name f.filename slot in
    fresh_item (ground (arith, shown, absent, h.0)) few others (later ix name slot fs rest h.1)

catalog_ss_files-IsConsistent :
    (sock : ℕ) (fs : List FileItem) (s : Server)
    → FreshItems s.index fs
    → IsConsistent s
    → IsConsistent (catalog_ss_files sock fs s).0
unfolding catalog_ss_files add_entry
catalog_ss_files-IsConsistent sock [] s h c = c
catalog_ss_files-IsConsistent sock (f ∷ fs) s (fresh_item absent few others rest) c =
    elim (Option-cases (find_empty_file_slot s)) [
      | inl e ↦ rw (e, catalog_ss_files) (catalog_ss_files-IsConsistent sock fs s rest c)
      | inr (slot, e) ↦
          let (lt, empty) = find_empty_file_slot-empty s slot e in
          rw (e, catalog_ss_files)
            (catalog_ss_files-IsConsistent sock fs _ (later s.index f.filename slot fs rest others)
              (add_entry-IsConsistent slot f.filename sock f.owner f.access_list s c lt empty absent
                few))
    ]

-- Nothing is to be recovered.
abbrev pub NotRecovering : ℕ → List FileItem → Server → Type 0
NotRecovering sock items s =
    (items ≢ [])
    ⊎ (find_first (λ i. has_backup sock (s.file_catalog i)) max_files_in_system 0 ≡ none)

no_recovery :
    (sock : ℕ) (items : List FileItem) (s : Server)
    → NotRecovering sock items s
    → ((0 == length items)
        && not
            (is_none (find_first (λ i. has_backup sock (s.file_catalog i)) max_files_in_system 0)))
      ≡ false
no_recovery sock [] s (inl ne) = absurd (ne refl)
no_recovery sock (f ∷ fs) s (inl ne) = ground arith
no_recovery sock [] s (inr e) = rw e refl
no_recovery sock (f ∷ fs) s (inr e) = ground arith

-- A storage server that is not taken for a recovering one, and brings files with different
-- names, none of which is indexed, and with access lists that fit, keeps the naming server
-- consistent, as many slots as there may be for the files.
pub handle_ss_register-IsConsistent :
    (content : ℕ → CString → List ℕ) (sock : ℕ) (peer_ip ip : CString) (port : ℕ)
    (items : List FileItem) (now : ℕ) (s : Server)
    → FreshItems s.index items
    → NotRecovering sock items s
    → IsConsistent s
    → Finishes IsConsistent (handle_ss_register content sock peer_ip ip port items now s)
unfolding handle_ss_register register_ss
handle_ss_register-IsConsistent content sock peer_ip ip port items now s h n c =
    let t = register_ss sock peer_ip ip port now s in
    let test : ((0 == length items)
          && not (
              is_none (find_first (λ i. has_backup sock (s.file_catalog i)) max_files_in_system 0)))
        ≡ false =
      no_recovery sock items s n in
    rw test (catalog_ss_files-IsConsistent sock items t h (unseen s t refl refl c))
