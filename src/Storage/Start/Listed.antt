-- ===== src/Storage/Start/Listed.antt =====
-- What the scan of the storage directory lists.
use distributed_document_sys.Storage.Metadata.Map.{Represents, load_file_metadata_lem}
use distributed_document_sys.Storage.Metadata.{MetadataFile}
use distributed_document_sys.Storage.Sessions.{Storage}
use distributed_document_sys.Storage.Metadata.Lookup.{Entry, or_system}
use distributed_document_sys.NameServer.Registration.{FileItem}
use distributed_document_sys.Protocol.{is_ok, res_ok, max_files_per_ss, max_filename}
use distributed_document_sys.Base.{
  false, map, Option, some, if_both, leb, not, ltb, arith, All, length, List, ℕ, [], length-append,
  All-append, ◌&&◌, ◌≤◌, ◌<◌, ◌∷◌, ◌+◌, refl, CString, ◌≡◌,
}
use distributed_document_sys.Storage.Start.{
  initialise, registered, announce_files, file_items, start, register_with_naming_server, end,
  other, full_length, add_path, full_length, is_skipped, scan_directory, scan_item, Entries, Item,
  entry, file, directory, item_path,
}

-- The test of the loop, less that of the count.
abbrev pub Passes : ℕ → CString → CString → Type 0
Passes base relative name =
    (is_skipped name ≡ false) × (full_length base relative + (length name + 2) ≤ 2048)

-- A regular file under the directory, with its path from the top, that the scan comes to: no name on
-- the way is one that it passes over, and no path on the way is too long for its buffer.
mutual
  pub data IsFile (base : ℕ) : CString → Entries → CString → Type 0 where
    here :
        {relative name path : CString} {it : Item} {rest : Entries}
        → Passes base relative name
        → IsFileOf base (item_path relative name) it path
        → IsFile base relative (entry name it rest) path
    later :
        {relative name path : CString} {it : Item} {rest : Entries}
        → IsFile base relative rest path
        → IsFile base relative (entry name it rest) path

  pub data IsFileOf (base : ℕ) : CString → Item → CString → Type 0 where
    itself : {at path : CString} → path ≡ at → IsFileOf base at file path
    inside :
        {at path : CString} {es : Entries}
        → length at < 1024
        → IsFile base at es path
        → IsFileOf base at (directory es) path

abbrev Good : (CString → Type 0) → ℕ → List CString → Type 0
Good P max listed = (length listed ≤ max) × All P listed

add_path-Good :
    (P : CString → Type 0) (max : ℕ) (path : CString) (listed : List CString)
    → length listed < max
    → P path
    → Good P max listed
    → Good P max (add_path path listed)
add_path-Good P max path listed lt p g =
    (omega (arith, length-append listed (path ∷ [])), All-append P listed (path ∷ []) g.1 (p, tt))

module _ (P : CString → Type 0) (base max : ℕ) where
  mutual
    unfolding scan_directory scan_item

    scan_directory-Good :
        (relative : CString) (es : Entries) (listed : List CString)
        → ((path : CString) → IsFile base relative es path → length path < max_filename → P path)
        → Good P max listed
        → Good P max (scan_directory base max relative es listed)
    scan_directory-Good relative end listed all g = g
    scan_directory-Good relative (entry name it rest) listed all g =
        scan_directory-Good relative rest _ (λ path at. all path (later at))
          (if_both (Good P max)
            (ltb (length listed) max
              && not (is_skipped name)
              && leb (full_length base relative + (length name + 2)) 2048)
            _ _
            (λ e.
              scan_item-Good relative name it listed
                (λ path at. all path (here (ground arith, ground arith) at)) (ground arith) g)
            (λ e. g))

    scan_item-Good :
        (relative name : CString) (it : Item) (listed : List CString)
        → ((path : CString)
            → IsFileOf base (item_path relative name) it path
            → length path < max_filename
            → P path)
        → length listed < max
        → Good P max listed
        → Good P max (scan_item base max relative name it listed)
    scan_item-Good relative name other listed all lt g = g
    scan_item-Good relative name file listed all lt g =
        let path = item_path relative name in
        if_both (Good P max) (ltb (length path) max_filename) _ _
          (λ e. add_path-Good P max path listed lt (all path (itself refl) (ground arith)) g)
          (λ e. g)
    scan_item-Good relative name (directory es) listed all lt g =
        let path = item_path relative name in
        if_both (Good P max) (ltb (length path) 1024) _ _
          (λ e. scan_directory-Good path es listed (λ p at. all p (inside (ground arith) at)) g)
          (λ e. g)

-- The scan lists no more files than it may, each by a path that fits in its array with its
-- NUL, and each the path of a regular file that the scan comes to in the storage directory or
-- below.
pub scan_directory-bounds :
    (base max : ℕ) (top : Entries)
    → let listed = scan_directory base max [] top [] in
      (length listed ≤ max)
      × All (λ (path : CString). (length path < max_filename) × IsFile base [] top path) listed
scan_directory-bounds base max top =
    scan_directory-Good (λ path. (length path < max_filename) × IsFile base [] top path) base max []
      top [] (λ path at lt. (lt, at)) (omega arith, tt)

-- The item of a file, by what is known of it.
abbrev pub item_of : (CString → Option Entry) → CString → FileItem
item_of owners name =
    let (owner, access) = or_system (owners name) in
    record { filename = name; owner = owner; access_list = access }

file_items_lem :
    (owners : CString → Option Entry) (size : ℕ) (table : MetadataFile) (names : List CString)
    → Represents owners size table
    → file_items names table ≡ some (map (item_of owners) names)
unfolding file_items
file_items_lem owners size table [] r = refl
file_items_lem owners size table (name ∷ names) r =
    rw (load_file_metadata_lem owners size table name r)
      (rw (file_items_lem owners size table names r) refl)

-- Where the metadata file holds a table and the naming server agrees, the storage server starts: it
-- has sent an item for each file that the scan has listed, with the owner and the permissions that
-- the table has for it ("system" and none where it has no entry). The files are no more than 100,
-- each with a path of less than 100 bytes that is one of a regular file of the directory.
pub start-registers :
    (stamp : CString → ℕ × ℕ) (base size : ℕ) (top : Entries) (owners : CString → Option Entry)
    (table : MetadataFile) (s : Storage)
    → Represents owners size table
    → (names : List CString) × (start stamp base top table (some res_ok) s
        ≡ some (initialise s, map (item_of owners) names, announce_files stamp names s.disk))
      × (length names ≤ max_files_per_ss)
      × All (λ (path : CString). (length path < max_filename) × IsFile base [] top path) names
unfolding start register_with_naming_server registered is_ok initialise
start-registers stamp base size top owners table s r =
    let names = scan_directory base max_files_per_ss [] top [] in
    let bounds = scan_directory-bounds base max_files_per_ss top in
    (names, rw (file_items_lem owners size table names r) refl, bounds.0, bounds.1)
