-- ===== src/Base/Text.antt =====
-- C strings: the bytes before the terminating NUL, and the library calls on them.
use Prim.Native.Nat.{ℕ}
use Prim.Native.Char.{code}
use Prim.Native.String.{String}
use mathlib.Core.Path.{refl, ap₂}
use mathlib.Core.Bool.{Bool, true, false, ◌&&◌, ◌||◌}
use mathlib.Core.List.{List, [], ◌∷◌, ◌++◌}
use native.Mathlib.Decide.{ℕ_discrete}
use distributed_document_sys.Base.Tests.{is_yes, ◌==◌}

abbrev pub CString : Type 0
CString = List ℕ

-- The bytes of an ASCII text.
abbrev pub codes : String → CString
codes String.[] = []
codes (String.◌∷◌ c s) = code c ∷ codes s

-- `strcmp(a, b) == 0`, as a decision.
unfoldable pub strcmp : Discrete CString
unfolding ℕ_discrete
strcmp [] [] = yes refl
strcmp [] (y ∷ ys) = no (λ e. cc)
strcmp (x ∷ xs) [] = no (λ e. cc)
strcmp (x ∷ xs) (y ∷ ys) = elim (ℕ_discrete x y) [
  | no p ↦ no (λ e. p (cc))
  | yes p ↦ elim (strcmp xs ys) [ yes q ↦ yes (ap₂ ◌∷◌ p q) | no q ↦ no (λ e. q (cc)) ]
]

abbrev pub str_eq : CString → CString → Bool
str_eq a b = is_yes (strcmp a b)

is_prefix : CString → CString → Bool
is_prefix [] s = true
is_prefix (c ∷ cs) [] = false
is_prefix (c ∷ cs) (d ∷ ds) = c == d && is_prefix cs ds

-- `strstr(s, part) != NULL`
unfoldable pub strstr : CString → CString → Bool
unfolding is_prefix
strstr [] part = is_prefix part []
strstr (c ∷ cs) part = is_prefix part (c ∷ cs) || strstr cs part

-- A token is given when it is not empty.
abbrev pub emit : CString → List CString → List CString
emit [] rest = rest
emit (c ∷ cs) rest = (c ∷ cs) ∷ rest

-- What `strtok_r` gives one after the other, by the separators' test; `word` is the open token.
unfoldable pub tokens_by : (ℕ → Bool) → CString → CString → List CString
tokens_by sep word [] = emit word []
tokens_by sep word (c ∷ cs) = elim (sep c) [
  | true ↦ emit word (tokens_by sep [] cs)
  | false ↦ tokens_by sep (word ++ c ∷ []) cs
]
