-- ===== src/Storage/Stdio/Scanned.antt =====
-- Proofs about reading back what was printed.
use distributed_document_sys.Storage.Document.{isspace}
use distributed_document_sys.Storage.Stdio.{
  fgets, line, scan_int, scan_word, scan_number, span_word, print_int, digits, skip, scan_digits,
}
use distributed_document_sys.Base.{
  ◌-◌, leb, sym, length, All, ap, subst, some, true, ◌++◌, ◌==◌, [], ◌≢◌, arith, ltb, ℕ, ◌%◌, ◌≡◌,
  suc, zero, ◌<◌, ◌∙◌, inl, ◌∷◌, ◌*◌, Bool-cases, false, CString, ◌/◌, refl, ◌+◌, inr,
}

-- The text does not begin with white space.
abbrev pub Starts : CString → Type 0
Starts s = skip s ≡ s

pub Starts-cons : (c : ℕ) (cs : CString) → isspace c ≡ false → Starts (c ∷ cs)
unfolding skip
Starts-cons c cs e = rw (e, skip) refl

-- Numbers
digit_space : (n : ℕ) → n < 10 → isspace (b'0' + n) ≡ false
digit_space n lt = ground arith

digits-Starts : (fuel n : ℕ) (rest : CString) → n < fuel → Starts (digits fuel n rest)
unfolding digits
digits-Starts zero n rest lt = absurd (omega (arith, lt))
digits-Starts (suc fuel) n rest lt = elim (Bool-cases (ltb n 10)) [
  | inl small ↦
      rw (small, digits) (Starts-cons (b'0' + n) rest (digit_space n (ground (arith, small))))
  | inr big ↦
      rw (big, digits)
        (digits-Starts fuel (n / 10) ((b'0' + n % 10) ∷ rest) (ground (arith, big, lt)))
]

scan_digit :
    (v n m : ℕ) (rest : CString)
    → n < 10
    → 10 * v + n ≡ m
    → scan_digits v ((b'0' + n) ∷ rest) ≡ scan_digits m rest
unfolding scan_digits
scan_digit v n m rest lt e = ground (arith, lt, e)

scan_digits-digits :
    (fuel n : ℕ) (rest : CString)
    → n < fuel
    → scan_digits 0 (digits fuel n rest) ≡ scan_digits n rest
unfolding digits
scan_digits-digits zero n rest lt = absurd (omega (arith, lt))
scan_digits-digits (suc fuel) n rest lt = elim (Bool-cases (ltb n 10)) [
  | inl small ↦ rw (small, digits) (scan_digit 0 n n rest (ground (arith, small)) (omega arith))
  | inr big ↦
      rw (big, digits)
        (scan_digits-digits fuel (n / 10) ((b'0' + n % 10) ∷ rest) (ground (arith, big, lt))
          ∙ scan_digit (n / 10) (n % 10) n rest (omega arith) (omega arith))
]

digits-append : (fuel n : ℕ) (a b : CString) → digits fuel n a ++ b ≡ digits fuel n (a ++ b)
unfolding digits
digits-append zero n a b = refl
digits-append (suc fuel) n a b = elim (Bool-cases (ltb n 10)) [
  | inl small ↦ rw (small, digits) refl
  | inr big ↦ rw (big, digits) (digits-append fuel (n / 10) ((b'0' + n % 10) ∷ a) b)
]

scan_number-digits :
    (fuel n : ℕ) (rest : CString)
    → n < fuel
    → scan_number (digits fuel n rest) ≡ some (scan_digits 0 (digits fuel n rest))
unfolding digits scan_number
scan_number-digits zero n rest lt = absurd (omega (arith, lt))
scan_number-digits (suc fuel) n rest lt = elim (Bool-cases (ltb n 10)) [
  | inl small ↦ rw (small, digits) (ground (arith, small))
  | inr big ↦
      rw (big, digits)
        (scan_number-digits fuel (n / 10) ((b'0' + n % 10) ∷ rest) (ground (arith, big, lt)))
]

pub print_int-Starts : (n : ℕ) (rest : CString) → Starts (print_int n ++ b'\n' ∷ rest)
unfolding print_int
print_int-Starts n rest =
    subst Starts (sym (digits-append (suc n) n [] (b'\n' ∷ rest)))
      (digits-Starts (suc n) n (b'\n' ∷ rest) (omega arith))

pub scan_int-print_int :
    (n : ℕ) (rest : CString) → Starts rest → scan_int (print_int n ++ b'\n' ∷ rest) ≡ some (n, rest)
unfolding scan_int print_int scan_digits skip
scan_int-print_int n rest h =
    let s = digits (suc n) n (b'\n' ∷ rest) in
    let e : scan_number s ≡ some (n, b'\n' ∷ rest) =
      scan_number-digits (suc n) n (b'\n' ∷ rest) (omega arith)
      ∙ ap some (scan_digits-digits (suc n) n (b'\n' ∷ rest) (omega arith)) in
    let t : skip s ≡ s = digits-Starts (suc n) n (b'\n' ∷ rest) (omega arith) in
    rw (digits-append (suc n) n [] (b'\n' ∷ rest), t, e, h) refl

-- Words and lines
span_word-append :
    (w rest : CString) (c : ℕ)
    → All (λ d. isspace d ≡ false) w
    → isspace c ≡ true
    → span_word (w ++ c ∷ rest) ≡ (w, c ∷ rest)
unfolding span_word
span_word-append [] rest c all e = rw (e, span_word) refl
span_word-append (d ∷ w) rest c all e =
    rw (all.0, span_word-append w rest c all.1 e, span_word) refl

pub scan_word-append :
    (size : ℕ) (w rest : CString) (c : ℕ)
    → w ≢ []
    → length w < size
    → All (λ d. isspace d ≡ false) w
    → isspace c ≡ true
    → scan_word size (w ++ c ∷ rest) ≡ some (w, c ∷ rest)
unfolding scan_word
scan_word-append size [] rest c ne lt all e = absurd (ne refl)
scan_word-append size (d ∷ w) rest c ne lt all e =
    let u : leb size (length (d ∷ w)) ≡ false = ground (arith, lt) in
    let v : (length (d ∷ w) == 0) ≡ false = ground arith in
    rw (Starts-cons d (w ++ c ∷ rest) all.0, span_word-append (d ∷ w) rest c all e, u, v, scan_word)
      refl

pub line-append :
    (n : ℕ) (w rest : CString)
    → All (λ d. d ≢ b'\n') w
    → length w < n
    → line n (w ++ b'\n' ∷ rest) ≡ (w, rest)
unfolding line
line-append zero w rest all lt = absurd (omega (arith, lt))
line-append (suc n) [] rest all lt = refl
line-append (suc n) (c ∷ w) rest all lt =
    let e : (c == b'\n') ≡ false = ground (arith, all.0) in
    rw (e, line-append n w rest all.1 (omega (arith, lt)), line) refl

pub line_full :
    (w rest : CString) → All (λ d. d ≢ b'\n') w → line (length w) (w ++ rest) ≡ (w, rest)
unfolding line
line_full [] rest all = refl
line_full (c ∷ w) rest all =
    let e : (c == b'\n') ≡ false = ground (arith, all.0) in
    rw (e, line_full w rest all.1, line) refl

pub scan_int_space : (c : ℕ) (s : CString) → isspace c ≡ true → scan_int (c ∷ s) ≡ scan_int s
unfolding scan_int skip
scan_int_space c s e = rw (e, scan_int, skip) refl

fgets-line :
    (size : ℕ) (w rest : CString)
    → fgets size (w ++ b'\n' ∷ rest) ≡ some (line (size - 1) (w ++ b'\n' ∷ rest))
unfolding fgets
fgets-line size [] rest = refl
fgets-line size (c ∷ w) rest = refl

pub fgets-append :
    (size : ℕ) (w rest : CString)
    → length w + 1 < size
    → All (λ d. d ≢ b'\n') w
    → fgets size (w ++ b'\n' ∷ rest) ≡ some (w, rest)
fgets-append size w rest lt all =
    fgets-line size w rest ∙ ap some (line-append (size - 1) w rest all (omega (arith, lt)))

-- A line that fills the buffer leaves its end.
pub fgets_full :
    (w rest : CString)
    → All (λ d. d ≢ b'\n') w
    → fgets (suc (length w)) (w ++ b'\n' ∷ rest) ≡ some (w, b'\n' ∷ rest)
fgets_full w rest all =
    fgets-line (suc (length w)) w rest
    ∙ (ap (λ n. some (line n (w ++ b'\n' ∷ rest))) (omega arith)
        ∙ ap some (line_full w (b'\n' ∷ rest) all))
