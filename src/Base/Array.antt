-- ===== src/Base/Array.antt =====
-- A C array of fixed size as a function of the index, and the loops that search one.
use Prim.Native.Nat.{ℕ, zero, suc, ◌+◌, ◌≤◌, ◌<◌}
use mathlib.Core.Path.{◌≡◌}
use mathlib.Core.Bool.{Bool, true, false}
use mathlib.Core.Option.{Option, none, some}
use native.Mathlib.Omega.{arith}
use distributed_document_sys.Base.Tests.{if◌then◌else◌, ◌==◌}

-- `a[i] = v`
abbrev pub update {ℓ} : {A : Type ℓ} → (ℕ → A) → ℕ → A → ℕ → A
update a i v j = if i == j then v else a j

-- `for (k = i; k < i + n; k++) if (p(k)) return k; return -1;`
unfoldable pub find_first : (ℕ → Bool) → ℕ → ℕ → Option ℕ
find_first p zero i = none
find_first p (suc n) i = let rest = find_first p n (suc i) in if p i then some i else rest

-- `for (k = i; k < i + n; k++) if (p(k)) count++;`
unfoldable pub count_from : (ℕ → Bool) → ℕ → ℕ → ℕ
count_from p zero i = 0
count_from p (suc n) i = (if p i then 1 else 0) + count_from p n (suc i)

-- What a search finds passes the test, lies in the range, and is the first such index.
pub find_first-eq-some :
    (p : ℕ → Bool) (n i k : ℕ) → find_first p n i ≡ some k → (p k ≡ true) × (i ≤ k) × (k < i + n)
unfolding find_first
find_first-eq-some p zero i k h = ground arith
find_first-eq-some p (suc n) i k h = ground (arith, find_first-eq-some p n (suc i) k)

pub find_first-lowest :
    (p : ℕ → Bool) (n i k j : ℕ) → find_first p n i ≡ some k → i ≤ j → j < k → p j ≡ false
unfolding find_first
find_first-lowest p zero i k j h lo hi = ground arith
find_first-lowest p (suc n) i k j h lo hi = ground (arith, find_first-lowest p n (suc i) k j)

pub find_first-eq-none :
    (p : ℕ → Bool) (n i j : ℕ) → find_first p n i ≡ none → i ≤ j → j < i + n → p j ≡ false
unfolding find_first
find_first-eq-none p zero i j h lo hi = ground arith
find_first-eq-none p (suc n) i j h lo hi = ground (arith, find_first-eq-none p n (suc i) j)
