-- ===== src/Storage/Files/Move.antt =====
-- Proofs about `handle_ss_move` of storage/handlers.c.
use distributed_document_sys.Storage.Metadata.{
  save_file_metadata, MetadataFile, load_file_metadata, delete_file_metadata,
}
use distributed_document_sys.Storage.Disk.Paths.{paths-Apart}
use distributed_document_sys.Storage.Checkpoints.Created.{mkdir-files}
use distributed_document_sys.Storage.Checkpoints.Restore.{write-other, write-same}
use distributed_document_sys.Storage.Metadata.Printed.{IsName}
use distributed_document_sys.Storage.Metadata.Lookup.{Entry, or_system}
use distributed_document_sys.Storage.Statistics.{Output, header}
use distributed_document_sys.Storage.Files.{moved_path, Store, handle_ss_move}
use distributed_document_sys.Storage.Disk.{
  rename, remove, write, Disk, mkdir, backup_path, can_write,
}
use distributed_document_sys.Protocol.{res_error, max_files_per_ss, res_ok}
use distributed_document_sys.Storage.Metadata.Map.{
  Represents, load_file_metadata_lem, delete_file_metadata_lem, save_file_metadata_lem, put_entry,
  loaded-IsPrintable,
}
use distributed_document_sys.Base.{
  inl, ◌+◌, Bool-cases, ◌≤◌, sym, ap, arith, List, ℕ, Option, none, refl, CString, ◌∷◌, ◌<◌, some,
  ◌∙◌, [], ◌≢◌, inr, ◌≡◌, true,
}
use distributed_document_sys.Storage.Files.Access.{NewName}

rename_other :
    (from to p : CString) (d : Disk) → from ≢ p → to ≢ p → (rename from to d).1.files p ≡ d.files p
unfolding rename write remove
rename_other from to p d x y = ground (arith, x, y)

removed_none : (f : CString) (d : Disk) → (remove f d).files f ≡ none
unfolding remove
removed_none f d = ground arith

rename_lem :
    (from to : CString) (content : List ℕ) (d : Disk)
    → d.files from ≡ some content
    → can_write to d ≡ true
    → rename from to d ≡ (true, write to content (remove from d))
unfolding rename
rename_lem from to content d e w = rw (e, w, rename) refl

-- The entry of the old name becomes that of the new one.
moved_entry :
    (owners : CString → Option Entry) (size : ℕ) (f new : CString) (m : MetadataFile)
    → Represents owners size m
    → size < max_files_per_ss
    → IsName f
    → NewName new
    → (m₁ m₂ : MetadataFile) × (size' : ℕ) × (load_file_metadata f m ≡ some (or_system (owners f)))
      × (delete_file_metadata f m ≡ some m₁)
      × (save_file_metadata new (or_system (owners f)).0 (or_system (owners f)).1 m₁ ≡ some m₂)
      × Represents (put_entry new (some (or_system (owners f))) (put_entry f none owners)) size' m₂
      × (size' ≤ size + 1)
moved_entry owners size f new m r room n fits =
    let p = loaded-IsPrintable owners size m f r n in
    let (m₁, size₁, gone, r₁, le₁) = delete_file_metadata_lem owners size m f r in
    let (m₂, size', kept, r', le) =
      save_file_metadata_lem _ size₁ m₁ new (or_system (owners f)).0 (or_system (owners f)).1 r₁
        (record {
          name = fits.0;
          owner_fits = p.owner_fits;
          owner_line = p.owner_line;
          users = p.users;
          few = p.few;
        })
        (inr (omega (arith, le₁, room), fits.1)) in
    (
      m₁,
      m₂,
      size',
      load_file_metadata_lem owners size m f r,
      gone,
      kept,
      r',
      omega (arith, le, le₁),
    )

-- Whether the file is moved or not, the metadata file holds a table.
pub handle_ss_move-Represents :
    (owners : CString → Option Entry) (size : ℕ) (s : Store) (f folder : CString)
    → Represents owners size s.metadata
    → size < max_files_per_ss
    → IsName f
    → NewName (moved_path folder f)
    → (out : List Output) × (s' : Store) × (owners' : CString → Option Entry) × (size' : ℕ)
      × (handle_ss_move f folder s ≡ some (out, s'))
      × Represents owners' size' s'.metadata
      × (size' ≤ size + 1)
unfolding handle_ss_move
handle_ss_move-Represents owners size s f folder r room n new =
    let target = moved_path folder f in
    let (ok, d) = rename f target (mkdir folder s.disk).1 in
    elim (Bool-cases ok) [
      | inl yes_moved ↦
          let (m₁, m₂, size', loaded, gone, kept, r', le) =
            moved_entry owners size f target s.metadata r room n new in
          (
            header res_ok ∷ [],
            record { disk = (rename (backup_path f) (backup_path target) d).1; metadata = m₂ },
            put_entry target (some (or_system (owners f))) (put_entry f none owners),
            size',
            rw (yes_moved, loaded, gone, kept, handle_ss_move) refl,
            r',
            le,
          )
      | inr not_moved ↦ (
        header res_error ∷ [],
        record s { disk = d },
        owners,
        size,
        rw (not_moved, handle_ss_move) refl,
        r,
        omega arith,
      )
    ]

-- Where the file is there and its new path can be written once the folder is made, both names
-- are single lines, not empty, that begin with no white space, the old one of less than 99
-- bytes and the new path of less than 50, the names differ, also from each other's backup, and
-- the metadata file holds a table with room, a move is acknowledged; the new name then has the
-- file's content, owner and permissions, and the old name has neither content nor entry.
pub handle_ss_move_lem :
    (owners : CString → Option Entry) (size : ℕ) (s : Store) (f folder : CString) (content : List ℕ)
    → Represents owners size s.metadata
    → size < max_files_per_ss
    → IsName f
    → NewName (moved_path folder f)
    → moved_path folder f ≢ f
    → backup_path f ≢ moved_path folder f
    → backup_path (moved_path folder f) ≢ f
    → s.disk.files f ≡ some content
    → can_write (moved_path folder f) (mkdir folder s.disk).1 ≡ true
    → (s' : Store) × (size' : ℕ) × (handle_ss_move f folder s ≡ some (header res_ok ∷ [], s'))
      × (s'.disk.files (moved_path folder f) ≡ some content)
      × (s'.disk.files f ≡ none)
      × Represents
          (put_entry (moved_path folder f) (some (or_system (owners f))) (put_entry f none owners))
          size'
          s'.metadata
unfolding handle_ss_move
handle_ss_move_lem owners size s f folder content r room n new differ x y there w =
    let target = moved_path folder f in
    let d₁ = (mkdir folder s.disk).1 in
    let (m₁, m', size', loaded, gone, kept, r', le) =
      moved_entry owners size f target s.metadata r room n new in
    let d₂ : Disk = write target content (remove f d₁) in
    let d₃ : Disk = (rename (backup_path f) (backup_path target) d₂).1 in
    let there₁ : d₁.files f ≡ some content = ap (λ k. k f) (mkdir-files folder s.disk) ∙ there in
    let renamed : rename f target d₁ ≡ (true, d₂) = rename_lem f target content d₁ there₁ w in
    let bx : backup_path target ≢ target = λ e. (paths-Apart target []).file_backup (sym e) in
    let bf : backup_path f ≢ f = λ e. (paths-Apart f []).file_backup (sym e) in
    (
      record { disk = d₃; metadata = m' },
      size',
      rw (renamed, loaded, gone, kept, handle_ss_move) refl,
      rename_other (backup_path f) (backup_path target) target d₂ x bx
          ∙ write-same target content (remove f d₁),
      rename_other (backup_path f) (backup_path target) f d₂ bf y
          ∙ (write-other target f content (remove f d₁) differ ∙ removed_none f d₁),
      r',
    )
