-- ===== src/Storage/Tests/Files.antt =====
-- A concrete metadata file and a concrete store, and the theorems on them applied.
use distributed_document_sys.NameServer.Registration.{sync_file_to_recovering_ss}
use distributed_document_sys.Storage.Stdio.{skip}
use distributed_document_sys.Storage.Stdio.Scanned.{Starts-cons}
use distributed_document_sys.Storage.Files.Move.{handle_ss_move_lem}
use distributed_document_sys.NameServer.Catalog.{find_access}
use distributed_document_sys.Storage.Metadata.Lookup.{lookup, Entry, or_system}
use distributed_document_sys.Storage.Files.{
  handle_ss_replicate_file, moved_path, Store, handle_ss_get_file_content, drop_user, add_access,
  handle_ss_move, handle_ss_sync_from_backup, handle_ss_add_access, base_from,
}
use distributed_document_sys.Storage.Metadata.Printed.{
  IsUser, IsName, IsPrintable, read_table-print_table,
}
use distributed_document_sys.Protocol.{
  sent, sync_file, req_get_file_content, read_write, max_permissions_per_file, read_only,
  AccessEntry, res_ok,
}
use distributed_document_sys.Storage.Files.Routed.{Fits, Routed, handle_nm_message_ss-Represents}
use distributed_document_sys.Storage.Files.Access.{NewName, find_access-handle_ss_add_access}
use distributed_document_sys.Storage.Metadata.Map.{
  load_file_metadata_lem, put_entry, save_file_metadata_lem, delete_file_metadata_lem, Represents,
}
use distributed_document_sys.Storage.Disk.{
  remove, write, mkdir, exists, Disk, parent_from, can_write,
}
use distributed_document_sys.Storage.Metadata.{
  replace, put, append_entry, load_file_metadata, delete_file_metadata, MetadataFile, read_table,
  FileMetadataSs, print_table, save_file_metadata,
}
use distributed_document_sys.Storage.Files.Copy.{
  received, handle_ss_get_file_content-handle_ss_replicate_file,
  handle_ss_sync_from_backup-handle_ss_get_file_content,
}
use distributed_document_sys.Base.{
  length, str_eq, All, ℕ, arith, List, Option, strcmp, codes, if◌then◌else◌, ◌∷◌, ◌++◌, [], inl,
  refl, none, ◌+◌, inr, ◌≤◌, CString, true, ◌≡◌, some,
}
use distributed_document_sys.Storage.Statistics.{number, bytes, header}

abbrev a : CString
a = codes "a"

abbrev ann : CString
ann = codes "ann"

abbrev bob : CString
bob = codes "bob"

program : Unit {0}
unfolding strcmp can_write parent_from exists mkdir write remove drop_user base_from skip Fits
program = tt

-- Ann's file, which Bob may read.
abbrev reader : AccessEntry
reader = record { username = bob; permission = read_only }

abbrev row : FileMetadataSs
row = record { filename = a; owner = ann; access_list = reader ∷ [] }

abbrev metadata_file : MetadataFile
metadata_file = record { content = some (print_table (row ∷ [])); writable = true }

abbrev held : Entry
held = (ann, reader ∷ [])

abbrev owners : CString → Option Entry
owners name = lookup name (row ∷ [])

a-IsName : IsName a
unfolding program
a-IsName = record {
  starts = λ rest. Starts-cons _ (b'\n' ∷ rest) refl;
  name_fits = omega arith;
  one_line = (ground arith, tt);
}

bob-IsUser : IsUser bob
bob-IsUser = record {
  some_byte = λ e. ground (arith, e);
  user_fits = omega arith;
  no_space = (refl, (refl, (refl, tt)));
}

a-IsPrintable :
    (access : List AccessEntry)
    → All (λ e. IsUser e.username) access
    → length access ≤ max_permissions_per_file
    → IsPrintable (record { filename = a; owner = ann; access_list = access })
a-IsPrintable access users few = record {
  name = a-IsName;
  owner_fits = omega arith;
  owner_line = (ground arith, (ground arith, (ground arith, tt)));
  users = users;
  few = few;
}

row-IsPrintable : IsPrintable row
row-IsPrintable = a-IsPrintable (reader ∷ []) (bob-IsUser, tt) (omega arith)

file-Represents : Represents owners 1 metadata_file
file-Represents = record {
  table = row ∷ [];
  text = inl refl;
  can_save = refl;
  printable = (row-IsPrintable, tt);
  in_bounds = omega arith;
  counted = refl;
  entries = λ name. refl;
}

read_table-print_table_example : read_table (some (print_table (row ∷ []))) ≡ some (row ∷ [])
read_table-print_table_example =
    read_table-print_table (row ∷ []) (row-IsPrintable, tt) (omega arith)

load_file_metadata_lem_example : load_file_metadata a metadata_file ≡ some (or_system (owners a))
load_file_metadata_lem_example = load_file_metadata_lem owners 1 metadata_file a file-Represents

save_file_metadata_lem_example :
    (f' : MetadataFile) × (size' : ℕ) × (save_file_metadata a ann [] metadata_file ≡ some f')
    × Represents (put_entry a (some (ann, [])) owners) size' f'
    × (size' ≤ 1 + 1)
save_file_metadata_lem_example =
    save_file_metadata_lem owners 1 metadata_file a ann [] file-Represents
      (a-IsPrintable [] tt (omega arith)) (inr (omega arith, omega arith))

delete_file_metadata_lem_example :
    (f' : MetadataFile) × (size' : ℕ) × (delete_file_metadata a metadata_file ≡ some f')
    × Represents (put_entry a none owners) size' f'
    × (size' ≤ 1)
delete_file_metadata_lem_example = delete_file_metadata_lem owners 1 metadata_file a file-Represents

abbrev disk : Disk
disk = record {
  files = λ p. if str_eq p a then some (codes "text") else none;
  is_dir = λ p. str_eq p [];
}

abbrev store : Store
store = record { disk = disk; metadata = metadata_file }

a-NewName : NewName a
a-NewName = (a-IsName, omega arith)

find_access-handle_ss_add_access_example :
    (s' : Store) × (handle_ss_add_access a bob read_write store ≡ some s')
    × ((owner : CString) × (access' : List AccessEntry) × (load_file_metadata a s'.metadata
          ≡ some (owner, access'))
        × (find_access bob access' ≡ find_access bob (or_system (owners a)).1))
unfolding program
find_access-handle_ss_add_access_example =
    find_access-handle_ss_add_access owners 1 store a file-Represents (omega arith) a-NewName bob
      read_write bob-IsUser (omega arith) (λ e. ground (arith, e))

handle_nm_message_ss-Represents_example :
    Routed (λ p. (1, 2)) (λ p. []) (add_access a bob read_write) 1 store
unfolding program
handle_nm_message_ss-Represents_example =
    handle_nm_message_ss-Represents (λ p. (1, 2)) (λ p. []) owners 1 store file-Represents
      (omega arith) (add_access a bob read_write) (a-NewName, bob-IsUser)

abbrev folder : CString
folder = codes "d"

target-NewName : NewName (moved_path folder a)
unfolding program
target-NewName = (
  record {
    starts = λ rest. Starts-cons _ _ refl;
    name_fits = omega arith;
    one_line = (ground arith, (ground arith, (ground arith, tt)));
  },
  omega arith,
)

handle_ss_move_lem_example :
    (s' : Store) × (size' : ℕ) × (handle_ss_move a folder store ≡ some (header res_ok ∷ [], s'))
    × (s'.disk.files (moved_path folder a) ≡ some (codes "text"))
    × (s'.disk.files a ≡ none)
    × Represents
        (put_entry (moved_path folder a) (some (or_system (owners a))) (put_entry a none owners))
        size'
        s'.metadata
unfolding program
handle_ss_move_lem_example =
    handle_ss_move_lem owners 1 store a folder (codes "text") file-Represents (omega arith) a-IsName
      target-NewName (λ e. ground (arith, e)) (λ e. ground (arith, e)) (λ e. ground (arith, e)) refl
      refl

handle_ss_sync_from_backup-handle_ss_get_file_content_example :
    (size : ℕ) × (sent : List ℕ) × (handle_ss_get_file_content a disk
      ≡ number size ∷ bytes sent ∷ [])
    × ((handle_ss_sync_from_backup a size (sent ++ codes "later") disk).files a ≡ disk.files a)
unfolding program
handle_ss_sync_from_backup-handle_ss_get_file_content_example =
    handle_ss_sync_from_backup-handle_ss_get_file_content a (codes "text") (codes "later") disk disk
      refl refl refl

-- A server without files, and the backup of a file of Ann's on it.
abbrev bare : Store
bare = record { disk = disk; metadata = record { content = none; writable = true } }

abbrev copied : Store
copied = elim (handle_ss_replicate_file a ann [] bare) [ none ↦ bare | some s ↦ s ]

handle_ss_get_file_content-handle_ss_replicate_file_example :
    let answer = λ (backup_sock : ℕ) (name : CString).
      received (handle_ss_get_file_content name copied.disk) in
    (handle_ss_get_file_content a copied.disk ≡ number 0 ∷ bytes [] ∷ [])
    × (sync_file_to_recovering_ss answer 6 5 a ≡ sent 5 req_get_file_content (sync_file a) ∷ [])
unfolding program handle_ss_replicate_file save_file_metadata read_table put replace append_entry
handle_ss_get_file_content-handle_ss_replicate_file_example =
    handle_ss_get_file_content-handle_ss_replicate_file a ann [] bare copied 6 5 refl refl
