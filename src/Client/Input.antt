-- ===== src/Client/Input.antt =====
-- What the client reads from standard input: `fgets`, `strtok`, `strcspn` and `atoi` of the C
-- library, on text without NUL bytes.
pub mod Shorter
use distributed_document_sys.Base.{
  ℕ, ℤ, pos, negsuc, zero, suc, ◌-◌, ◌+◌, ◌*◌, ◌^◌, List, [], ◌∷◌, Bool, true, false, ◌||◌, Option,
  none, some, CString, if◌then◌else◌, ◌==◌, leb, ltb,
}
use distributed_document_sys.Storage.Stdio.{isdigit, skip, scan_digits}

-- At most so many bytes, with the '\n' that ends the line; and what is left.
unfoldable pub take_line : ℕ → CString → CString × CString
take_line zero s = ([], s)
take_line (suc n) [] = ([], [])
take_line (suc n) (c ∷ cs) =
    let (w, rest) = take_line n cs in if c == b'\n' then (c ∷ [], cs) else (c ∷ w, rest)

-- `fgets(buf, size, stdin)`
unfoldable pub read_line : ℕ → CString → Option (CString × CString)
read_line size [] = none
read_line size (c ∷ cs) = some (take_line (size - 1) (c ∷ cs))

-- `buf[strcspn(buf, "\n")] = 0`
unfoldable pub cut_line : CString → CString
cut_line [] = []
cut_line (c ∷ cs) = let rest = cut_line cs in if c == b'\n' then [] else c ∷ rest

-- The separators " \n" and "\n".
abbrev pub is_gap : ℕ → Bool
is_gap c = c == b' ' || c == b'\n'

abbrev pub is_newline : ℕ → Bool
is_newline c = c == b'\n'

-- Up to the next separator, which is cut off.
unfoldable pub span_token : (ℕ → Bool) → CString → CString × CString
span_token sep [] = ([], [])
span_token sep (c ∷ cs) =
    let (w, rest) = span_token sep cs in if sep c then ([], cs) else (c ∷ w, rest)

-- `strtok(s, separators)`: the next token, none for NULL, and what a next call goes on with.
unfoldable pub strtok : (ℕ → Bool) → CString → Option CString × CString
strtok sep [] = (none, [])
strtok sep (c ∷ cs) =
    let rest = strtok sep cs in
    let (w, after) = span_token sep cs in if sep c then rest else (some (c ∷ w), after)

-- `while (*user == ' ') user++;`
unfoldable pub skip_spaces : CString → CString
skip_spaces [] = []
skip_spaces (c ∷ cs) = let rest = skip_spaces cs in if c == b' ' then rest else c ∷ cs

-- `while (ulen > 0 && user[ulen - 1] == ' ') user[--ulen] = '\0';`
unfoldable pub cut_spaces : CString → CString
cut_spaces [] = []
cut_spaces (c ∷ cs) = elim (cut_spaces cs) [
  | [] ↦ if c == b' ' then [] else c ∷ []
  | d ∷ ds ↦ c ∷ d ∷ ds
]

abbrev pub int_max : ℕ
int_max = 2147483647

in_range : Bool → ℕ → Option ℤ
in_range false n = if leb n int_max then some (pos n) else none
in_range true zero = some (pos 0)
in_range true (suc n) = if leb n int_max then some (negsuc n) else none

-- `atoi(s)`; none, for undefined behaviour, where the number does not fit in an `int`.
unfoldable pub atoi : CString → Option ℤ
unfolding in_range
atoi s = elim (skip s) [
  | [] ↦ some (pos 0)
  | c ∷ cs ↦
      if c == b'-'
      then in_range true (scan_digits 0 cs).0
      else in_range false (scan_digits 0 (if c == b'+' then cs else c ∷ cs)).0
]
