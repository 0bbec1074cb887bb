-- ===== src/Storage/Stdio.antt =====
-- The formatted input and output of the C library as storage/metadata.c uses it, on what is left of
-- a file of text without NUL bytes. A read that fails leaves its variable with an unknown value, and
-- is `none`.
pub mod Scanned
use distributed_document_sys.Storage.Document.{isspace}
use distributed_document_sys.Base.{
  ◌>>=◌, length, leb, ltb, Bool, Option, ℕ, ◌&&◌, zero, ◌*◌, ◌%◌, none, ◌/◌, some, ◌||◌,
  if◌then◌else◌, ◌+◌, CString, suc, [], ◌-◌, ◌∷◌, ◌==◌,
}

-- A blank or '\n' of a format: the white space that comes is skipped.
unfoldable pub skip : CString → CString
skip [] = []
skip (c ∷ cs) = let rest = skip cs in if isspace c then rest else c ∷ cs

abbrev pub isdigit : ℕ → Bool
isdigit c = leb b'0' c && leb c b'9'

unfoldable pub scan_digits : ℕ → CString → ℕ × CString
scan_digits n [] = (n, [])
scan_digits n (c ∷ cs) =
    let rest = scan_digits (10 * n + (c - b'0')) cs in if isdigit c then rest else (n, c ∷ cs)

unfoldable pub scan_number : CString → Option (ℕ × CString)
scan_number [] = none
scan_number (c ∷ cs) = if isdigit c then some (scan_digits 0 (c ∷ cs)) else none

-- "%d\n", of a number without a sign that fits in an `int`, as the program prints it.
unfoldable pub scan_int : CString → Option (ℕ × CString)
scan_int s = do (n, rest) ← scan_number (skip s); some (n, skip rest)

unfoldable pub span_word : CString → CString × CString
span_word [] = ([], [])
span_word (c ∷ cs) =
    let (w, rest) = span_word cs in if isspace c then ([], c ∷ cs) else (c ∷ w, rest)

-- "%s " into a buffer of so many bytes; a longer word overruns it.
unfoldable pub scan_word : ℕ → CString → Option (CString × CString)
scan_word size s =
    let (w, rest) = span_word (skip s) in
    if length w == 0 || leb size (length w) then none else some (w, rest)

-- At most so many bytes, up to the end of the line, which is cut off by `strcspn`.
unfoldable pub line : ℕ → CString → CString × CString
line zero s = ([], s)
line (suc n) [] = ([], [])
line (suc n) (c ∷ cs) = let (w, rest) = line n cs in if c == b'\n' then ([], cs) else (c ∷ w, rest)

-- `fgets(buf, size, f); buf[strcspn(buf, "\n")] = 0`
unfoldable pub fgets : ℕ → CString → Option (CString × CString)
fgets size [] = none
fgets size (c ∷ cs) = some (line (size - 1) (c ∷ cs))

-- The digits of a number, in front of what follows; a number has at most `fuel` of them.
unfoldable pub digits : ℕ → ℕ → CString → CString
digits zero n rest = rest
digits (suc fuel) n rest =
    let more = digits fuel (n / 10) ((b'0' + n % 10) ∷ rest) in
    if ltb n 10 then (b'0' + n) ∷ rest else more

-- "%d"
unfoldable pub print_int : ℕ → CString
print_int n = digits (suc n) n []
