-- ===== src/Storage/Start.antt =====
-- The start of the storage server: `scan_directory_recursive` of storage/metadata.c, and
-- `register_with_naming_server` and the initialisation in `main` of storage/storage_server.c.
pub mod Listed
pub mod Complete
use distributed_document_sys.Storage.Disk.{Disk}
use distributed_document_sys.Storage.Edits.Counts.{virtual_word_count}
use distributed_document_sys.Protocol.{is_ok, MessageType, max_files_per_ss, max_filename}
use distributed_document_sys.Base.{
  ◌>>=◌, Option, none, some, leb, not, codes, ltb, length, str_eq, List, ℕ, Bool, true, ◌||◌, ◌∷◌,
  ◌+◌, [], if◌then◌else◌, ◌&&◌, false, CString, ◌++◌, suc,
}
use distributed_document_sys.Storage.Metadata.{MetadataFile, load_file_metadata}
use distributed_document_sys.NameServer.Registration.{FileItem}
use distributed_document_sys.Storage.Statistics.{Output, calculate_and_send_metadata}
use distributed_document_sys.Storage.Sessions.{Storage}
use distributed_document_sys.Storage.Locks.{init_locks}

-- What `readdir` lists of a directory, in its order; `other` is what is neither a file nor a directory,
-- or cannot be asked about.
mutual
  pub data Entries : Type 0 where
    end : Entries
    entry : (d_name : CString) → Item → Entries → Entries

  pub data Item : Type 0 where
    file : Item
    directory : Entries → Item
    other : Item

-- The names that the scan passes over.
abbrev pub is_skipped : CString → Bool
is_skipped name =
    str_eq name (codes ".") || (str_eq name (codes "..") || str_eq name (codes ".metadata"))

-- "%s/%s" of the directory's path and the name, or the name alone at the top.
unfoldable pub item_path : (relative_path d_name : CString) → CString
item_path [] d_name = d_name
item_path (c ∷ cs) d_name = (c ∷ cs) ++ (b'/' ∷ d_name)

-- The length of `full_path`, for a storage directory whose path has so many bytes.
abbrev pub full_length : ℕ → CString → ℕ
full_length base [] = base
full_length base (c ∷ cs) = base + suc (length (c ∷ cs))

abbrev pub add_path : CString → List CString → List CString
add_path path listed = listed ++ path ∷ []

-- `listed` are the files so far. The name of an entry has less than 256 bytes.
unfoldable mutual
  pub scan_directory : ℕ → ℕ → CString → Entries → List CString → List CString
  scan_directory base max relative_path end listed = listed
  scan_directory base max relative_path (entry d_name it rest) listed =
      let more =
        if ltb (length listed) max
          && not (is_skipped d_name)
          && leb (full_length base relative_path + (length d_name + 2)) 2048
        then scan_item base max relative_path d_name it listed
        else listed in
      scan_directory base max relative_path rest more

  pub scan_item : ℕ → ℕ → CString → CString → Item → List CString → List CString
  scan_item base max relative_path d_name other listed = listed
  scan_item base max relative_path d_name file listed =
      let path = item_path relative_path d_name in
      if ltb (length path) max_filename then add_path path listed else listed
  scan_item base max relative_path d_name (directory inside) listed =
      let path = item_path relative_path d_name in
      if ltb (length path) 1024 then scan_directory base max path inside listed else listed

-- The items of the registration, with what the metadata file says; `none` as for `load_file_metadata`.
unfoldable pub file_items : List CString → MetadataFile → Option (List FileItem)
file_items [] table = some []
file_items (name ∷ names) table = do
  (owner, access_list) ← load_file_metadata name table
  items ← file_items names table
  some (record { filename = name; owner = owner; access_list = access_list } ∷ items)

-- The statistics of each file, after the naming server's answer.
unfoldable pub announce_files : (CString → ℕ × ℕ) → List CString → Disk → List Output
announce_files stamp [] disk = []
announce_files stamp (name ∷ names) disk =
    calculate_and_send_metadata stamp name disk ++ announce_files stamp names disk

-- What is sent in all: the items, and the statistics once the naming server has agreed.
unfoldable pub registered :
    (CString → ℕ × ℕ)
    → List CString
    → MetadataFile
    → Disk
    → Bool
    → Option (List FileItem × List Output)
registered stamp names table disk false = none
registered stamp names table disk true = do
  items ← file_items names table
  some (items, announce_files stamp names disk)

-- `reply` is the answer, none where the connection fails; another one than `RES_OK` ends the program.
unfoldable pub register_with_naming_server :
    (CString → ℕ × ℕ)
    → List CString
    → MetadataFile
    → Disk
    → Option MessageType
    → Option (List FileItem × List Output)
register_with_naming_server stamp names table disk none = none
register_with_naming_server stamp names table disk (some t) =
    registered stamp names table disk (is_ok t)

-- What `main` sets before it scans the directory.
unfoldable pub initialise : Storage → Storage
initialise s = record s {
  global_locks = init_locks s.global_locks;
  write_sessions = λ i. record (s.write_sessions i) { active = false; virtual_word_count = 0 };
  active_documents = λ i. record (s.active_documents i) { active = false };
}

-- `main` up to its loop; `stamp` is what `stat` tells, and `base` the length of `g_storage_path`.
unfoldable pub start :
    (CString → ℕ × ℕ)
    → ℕ
    → Entries
    → MetadataFile
    → Option MessageType
    → Storage
    → Option (Storage × List FileItem × List Output)
start stamp base top table reply s₀ =
    let s = initialise s₀ in
    let names = scan_directory base max_files_per_ss [] top [] in
    do
      (items, announced) ← register_with_naming_server stamp names table s.disk reply
      some (s, items, announced)
