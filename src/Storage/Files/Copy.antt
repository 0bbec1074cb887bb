-- ===== src/Storage/Files/Copy.antt =====
-- Proofs about `handle_ss_get_file_content` and `handle_ss_sync_from_backup` of storage/handlers.c,
-- by which a file is copied from one storage server to another.
use distributed_document_sys.Storage.Metadata.{save_file_metadata}
use distributed_document_sys.Protocol.{sent, req_get_file_content, sync_file, AccessEntry}
use distributed_document_sys.NameServer.Registration.{sync_file_to_recovering_ss}
use distributed_document_sys.Storage.Files.{
  Store, handle_ss_replicate_file, handle_ss_get_file_content, handle_ss_sync_from_backup,
}
use distributed_document_sys.Storage.Statistics.{Output, number, bytes}
use distributed_document_sys.Base.{
  sym, Option, none, arith, inr, Option-cases, ◌∙◌, inl, ap, length, take, ℕ, List, ◌≡◌, true,
  false, refl, some, ◌++◌, [], CString, ◌∷◌,
}
use distributed_document_sys.Storage.Checkpoints.Restore.{can_write-is_dir, write-same}
use distributed_document_sys.Storage.Disk.{write, Disk, write_file, open_read, can_write}

take_all : (xs more : List ℕ) → take (length xs) (xs ++ more) ≡ xs
take_all [] more = refl
take_all (x ∷ xs) more = ap (λ k. x ∷ k) (take_all xs more)

-- The other server, sent the size and the bytes that the first one gives for a file, and
-- whatever may come after them, has the file with the same content, if it can write it.
pub handle_ss_sync_from_backup-handle_ss_get_file_content :
    (f : CString) (content more : List ℕ) (d d' : Disk)
    → d.is_dir f ≡ false
    → d.files f ≡ some content
    → can_write f d' ≡ true
    → (size : ℕ) × (sent : List ℕ) × (handle_ss_get_file_content f d
        ≡ number size ∷ bytes sent ∷ [])
      × ((handle_ss_sync_from_backup f size (sent ++ more) d').files f ≡ d.files f)
unfolding handle_ss_get_file_content handle_ss_sync_from_backup open_read write_file
handle_ss_sync_from_backup-handle_ss_get_file_content f content more d d' nd e w = (
  length content,
  content,
  rw (nd, e, handle_ss_get_file_content, open_read) refl,
  rw (w, take_all content more, write_file, e) (write-same f content d'),
)

-- The bytes of an answer to `REQ_GET_FILE_CONTENT`.
abbrev pub received : List Output → List ℕ
received (number n ∷ bytes content ∷ []) = content
received _ = []

handle_ss_replicate_file-disk :
    (f owner : CString) (access : List AccessEntry) (s s' : Store)
    → handle_ss_replicate_file f owner access s ≡ some s'
    → s'.disk ≡ write_file f [] s.disk
unfolding handle_ss_replicate_file
handle_ss_replicate_file-disk f owner access s s' e =
    elim (Option-cases (save_file_metadata f owner access s.metadata)) [
      | inl u ↦ absurd (ground (arith, e, u))
      | inr (m, u) ↦
          let made : handle_ss_replicate_file f owner access s
              ≡ some (record { disk = write_file f [] s.disk; metadata = m }) =
            rw (u, handle_ss_replicate_file) refl in
          ap (λ (o : Option Store). elim o [ none ↦ s.disk | some t ↦ t.disk ]) (sym e ∙ made)
    ]

-- A backup copy that is made where the file can be written is empty, whatever the file holds
-- at its own server: asked for its content, the backup sends no byte, and the naming server
-- then sends nothing to a recovering server.
pub handle_ss_get_file_content-handle_ss_replicate_file :
    (f owner : CString) (access : List AccessEntry) (s s' : Store) (recovering source : ℕ)
    → can_write f s.disk ≡ true
    → handle_ss_replicate_file f owner access s ≡ some s'
    → let answer =
        λ (backup_sock : ℕ) (name : CString). received (handle_ss_get_file_content name s'.disk) in
      (handle_ss_get_file_content f s'.disk ≡ number 0 ∷ bytes [] ∷ [])
      × (sync_file_to_recovering_ss answer recovering source f
          ≡ sent source req_get_file_content (sync_file f) ∷ [])
unfolding handle_ss_get_file_content sync_file_to_recovering_ss write_file open_read write
handle_ss_get_file_content-handle_ss_replicate_file f owner access s s' recovering source w e =
    let d : s'.disk ≡ write f [] s.disk =
      handle_ss_replicate_file-disk f owner access s s' e ∙ rw (w, write_file) refl in
    let there : s'.disk.files f ≡ some [] =
      ap (λ (k : Disk). k.files f) d ∙ write-same f [] s.disk in
    let file : s'.disk.is_dir f ≡ false =
      ap (λ (k : Disk). k.is_dir f) d ∙ can_write-is_dir f s.disk w in
    rw (file, there, handle_ss_get_file_content, open_read) (refl, refl)
