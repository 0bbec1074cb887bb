-- ===== src/Client/Input/Shorter.antt =====
-- A read of a line leaves less than there was.
use mathlib.Core.Option.{some-injective}
use distributed_document_sys.Base.{
  ap, arith, length, ℕ, ◌≤◌, zero, suc, ◌≡◌, ◌∷◌, CString, some, [], ◌-◌, ◌<◌,
}
use distributed_document_sys.Client.Input.{read_line, take_line}

take_line-le : (n : ℕ) (s : CString) → length (take_line n s).1 ≤ length s
unfolding take_line
take_line-le zero s = omega arith
take_line-le (suc n) [] = omega arith
take_line-le (suc n) (c ∷ cs) = ground (arith, take_line-le n cs)

take_line-lt : (n : ℕ) (c : ℕ) (cs : CString) → length (take_line (suc n) (c ∷ cs)).1 ≤ length cs
unfolding take_line
take_line-lt n c cs = ground (arith, take_line-le n cs)

pub read_line-lt :
    (n : ℕ) (s line rest : CString)
    → read_line (suc (suc n)) s ≡ some (line, rest)
    → length rest < length s
unfolding read_line
read_line-lt n [] line rest h = absurd (ground arith)
read_line-lt n (c ∷ cs) line rest h =
    let q : suc (suc n) - 1 ≡ suc n = omega arith in
    let e : take_line (suc n) (c ∷ cs) ≡ (line, rest) = some-injective _ _ (rw q at h) in
    omega (arith, take_line-lt n c cs, ap (λ (p : CString × CString). length p.1) e)
