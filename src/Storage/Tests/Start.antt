-- ===== src/Storage/Tests/Start.antt =====
-- A concrete storage directory, and the theorems on its scan applied.
use distributed_document_sys.Base.{
  All, arith, length, strcmp, codes, ◌≤◌, CString, ◌<◌, refl, [], ◌∷◌, ◌≡◌,
}
use distributed_document_sys.Protocol.{max_filename}
use distributed_document_sys.Storage.Start.{
  Entries, end, entry, file, directory, other, scan_directory, item_path,
}
use distributed_document_sys.Storage.Start.Listed.{
  IsFile, here, later, itself, inside, scan_directory-bounds,
}
use distributed_document_sys.Storage.Start.Complete.{Has, scan_directory_complete}

-- The metadata file, a folder with one file, and a pipe.
abbrev top : Entries
top = entry (codes ".metadata") file (
    entry (codes "docs") (directory (entry (codes "a.txt") file end))
      (entry (codes "pipe") other end))

scan_test : scan_directory 12 100 [] top [] ≡ codes "docs/a.txt" ∷ []
unfolding scan_directory item_path strcmp
scan_test = refl

a_found : IsFile 12 [] top (codes "docs/a.txt")
unfolding item_path strcmp
a_found =
    later (here (refl, omega arith) (inside (omega arith) (here (refl, omega arith) (itself refl))))

scan_directory-bounds_example :
    let listed = scan_directory 12 100 [] top [] in
    (length listed ≤ 100)
    × All (λ (path : CString). (length path < max_filename) × IsFile 12 [] top path) listed
scan_directory-bounds_example = scan_directory-bounds 12 100 top

scan_directory_complete_example : Has (codes "docs/a.txt") (scan_directory 12 100 [] top [])
unfolding scan_directory item_path strcmp
scan_directory_complete_example =
    scan_directory_complete 12 100 top (codes "docs/a.txt") a_found (omega arith) (omega arith)
