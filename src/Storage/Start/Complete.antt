-- ===== src/Storage/Start/Complete.antt =====
-- The scan of the storage directory passes over no file while there is room.
use distributed_document_sys.Protocol.{max_filename}
use distributed_document_sys.Base.{
  ap, subst, leb, not, ltb, arith, length, ℕ, List, inl, ◌∷◌, ◌+◌, CString, ◌&&◌, inr, ◌<◌, ◌≤◌,
  if◌then◌else◌, if_both, ◌++◌, ◌≡◌, refl, [], ◌⊎◌, length-append,
}
use distributed_document_sys.Storage.Start.{
  Entries, Item, end, entry, file, directory, other, full_length, scan_directory, scan_item,
  item_path, is_skipped,
}
use distributed_document_sys.Storage.Start.Listed.{IsFile, IsFileOf, here, later, itself, inside}

abbrev pub Has : CString → List CString → Type 0
Has p [] = ⊥
Has p (x ∷ xs) = (x ≡ p) ⊎ Has p xs

Has-append : (p : CString) (xs ys : List CString) → Has p xs → Has p (xs ++ ys)
Has-append p [] ys h = absurd h
Has-append p (x ∷ xs) ys (inl e) = inl e
Has-append p (x ∷ xs) ys (inr h) = inr (Has-append p xs ys h)

Has-last : (p : CString) (xs : List CString) → Has p (xs ++ p ∷ [])
Has-last p [] = inl refl
Has-last p (x ∷ xs) = inr (Has-last p xs)

-- A list that has all that another one has, and is no shorter.
abbrev Keeps : List CString → List CString → Type 0
Keeps xs ys = ((p : CString) → Has p xs → Has p ys) × (length xs ≤ length ys)

same : (xs : List CString) → Keeps xs xs
same xs = (λ p h. h, omega arith)

module _ (base max : ℕ) where
  mutual
    unfolding scan_directory scan_item

    scan_directory-Keeps :
        (relative : CString) (es : Entries) (listed : List CString)
        → Keeps listed (scan_directory base max relative es listed)
    scan_directory-Keeps relative end listed = same listed
    scan_directory-Keeps relative (entry name it rest) listed =
        let more =
          if ltb (length listed) max
            && not (is_skipped name)
            && leb (full_length base relative + (length name + 2)) 2048
          then scan_item base max relative name it listed
          else listed in
        let first : Keeps listed more =
          if_both (Keeps listed)
            (ltb (length listed) max
              && not (is_skipped name)
              && leb (full_length base relative + (length name + 2)) 2048)
            _ _ (λ _. scan_item-Keeps relative name it listed) (λ _. same listed) in
        let then_rest = scan_directory-Keeps relative rest more in
        (λ p h. then_rest.0 p (first.0 p h), omega (arith, first.1, then_rest.1))

    scan_item-Keeps :
        (relative name : CString) (it : Item) (listed : List CString)
        → Keeps listed (scan_item base max relative name it listed)
    scan_item-Keeps relative name other listed = same listed
    scan_item-Keeps relative name file listed =
        let path = item_path relative name in
        if_both (Keeps listed) (ltb (length path) max_filename) _ _
          (λ _. (
            λ p h. Has-append p listed (path ∷ []) h,
            omega (arith, length-append listed (path ∷ [])),
          ))
          (λ _. same listed)
    scan_item-Keeps relative name (directory es) listed =
        let path = item_path relative name in
        if_both (Keeps listed) (ltb (length path) 1024) _ _
          (λ _. scan_directory-Keeps path es listed) (λ _. same listed)

  mutual
    unfolding scan_directory scan_item

    scan_directory-Has :
        (relative : CString) (es : Entries) (listed : List CString) (path : CString)
        → IsFile base relative es path
        → length path < max_filename
        → length (scan_directory base max relative es listed) < max
        → Has path (scan_directory base max relative es listed)
    scan_directory-Has relative end listed path found fits room = elim found [ ]
    scan_directory-Has relative (entry name it rest) listed path (here pass there) fits room =
        let test =
          ltb (length listed) max
          && not (is_skipped name)
          && leb (full_length base relative + (length name + 2)) 2048 in
        let more = if test then scan_item base max relative name it listed else listed in
        let after = scan_directory-Keeps relative rest more in
        let found : length more < max → Has path more =
          if_both (λ (l : List CString). length l < max → Has path l) test _ _
            (λ e lt. scan_item-Has relative name it listed path there fits lt)
            (λ e lt. absurd (ground (arith, pass.0, pass.1))) in
        after.0 path (found (omega (arith, after.1)))
    scan_directory-Has relative (entry name it rest) listed path (later there) fits room =
        scan_directory-Has relative rest _ path there fits room

    scan_item-Has :
        (relative name : CString) (it : Item) (listed : List CString) (path : CString)
        → IsFileOf base (item_path relative name) it path
        → length path < max_filename
        → length (scan_item base max relative name it listed) < max
        → Has path (scan_item base max relative name it listed)
    scan_item-Has relative name other listed path found fits room = elim found [ ]
    scan_item-Has relative name file listed path (itself e) fits room =
        if_both (Has path) (ltb (length (item_path relative name)) max_filename) _ _
          (λ _. subst (λ (p : CString). Has path (listed ++ p ∷ [])) e (Has-last path listed))
          (λ long. absurd (ground (arith, ap length e)))
    scan_item-Has relative name (directory es) listed path (inside short there) fits room =
        let from = item_path relative name in
        if_both (λ (l : List CString). length l < max → Has path l) (ltb (length from) 1024) _ _
          (λ _ lt. scan_directory-Has from es listed path there fits lt)
          (λ long lt. absurd (ground arith)) room

-- Where the scan has not listed as many files as it may, it has listed each file that it comes
-- to and whose path has less than 100 bytes.
pub scan_directory_complete :
    (base max : ℕ) (top : Entries) (path : CString)
    → IsFile base [] top path
    → length path < max_filename
    → length (scan_directory base max [] top []) < max
    → Has path (scan_directory base max [] top [])
scan_directory_complete base max top path there fits room =
    scan_directory-Has base max [] top [] path there fits room
