-- ===== src/Client/Fueled.antt =====
-- The steps of the loops over what is typed, which run on fuel: `none` is that it has run out.
use distributed_document_sys.Base.{Option, some, none}
use distributed_document_sys.Client.Wire.{
  M, pure, and_then, Wire, Result, returned, exited, undefined,
}

abbrev pub T : Type 0 → Type 0
T A = Wire → Option (Result A)

abbrev pub out_of_fuel : {A : Type 0} → T A
out_of_fuel w = none

abbrev pub lift : {A : Type 0} → M A → T A
lift m w = some (m w)

abbrev pub finish : {A : Type 0} → A → T A
finish a w = some (returned a w)

abbrev pub go_on : {A B : Type 0} → Option (Result A) → (A → T B) → Option (Result B)
go_on none f = none
go_on (some (returned a w)) f = f a w
go_on (some (exited w)) f = some (exited w)
go_on (some undefined) f = some undefined

infixl 5 ◌>>=◌ ◌>>◌
abbrev pub ◌>>=◌ : {A B : Type 0} → T A → (A → T B) → T B
◌>>=◌ m f w = go_on (m w) f

abbrev pub ◌>>◌ : {B : Type 0} → T (Unit {0}) → T B → T B
m >> k = m >>= λ _. k

-- The fuel is enough, and what is returned satisfies P.
abbrev pub Enough : {A : Type 0} → (A → Type 0) → Option (Result A) → Type 0
Enough P none = ⊥
Enough P (some (returned a w)) = P a
Enough P (some (exited w)) = Unit
Enough P (some undefined) = Unit

pub go_on-Enough :
    {A B : Type 0} (P : A → Type 0) (Q : B → Type 0) (r : Option (Result A)) (f : A → T B)
    → Enough P r
    → ((a : A) → P a → (w : Wire) → Enough Q (f a w))
    → Enough Q (go_on r f)
go_on-Enough P Q none f h k = absurd h
go_on-Enough P Q (some (returned a w)) f h k = k a h w
go_on-Enough P Q (some (exited w)) f h k = tt
go_on-Enough P Q (some undefined) f h k = tt

-- A step that reads nothing of what is typed.
pub lift-Enough : {A : Type 0} (r : Result A) → Enough (λ (a : A). Unit {0}) (some r)
lift-Enough (returned a w) = tt
lift-Enough (exited w) = tt
lift-Enough undefined = tt

pub bind-Enough :
    {A B : Type 0} (P : A → Type 0) (Q : B → Type 0) (r : Result A) (f : A → M B)
    → Enough P (some r)
    → ((a : A) → P a → (w : Wire) → Enough Q (some (f a w)))
    → Enough Q (some (and_then r f))
bind-Enough P Q (returned a w) f h k = k a h w
bind-Enough P Q (exited w) f h k = tt
bind-Enough P Q undefined f h k = tt

pub and_then-Enough :
    {A B : Type 0} (Q : B → Type 0) (r : Result A) (f : A → M B)
    → ((a : A) (w : Wire) → Enough Q (some (f a w)))
    → Enough Q (some (and_then r f))
and_then-Enough Q (returned a w) f k = k a w
and_then-Enough Q (exited w) f k = tt
and_then-Enough Q undefined f k = tt

pub then_pure :
    {A : Type 0} (P : A → Type 0) (m : M (Unit {0})) (a : A) (w : Wire)
    → P a
    → Enough P (some (and_then (m w) (λ _. pure a)))
then_pure P m a w h = and_then-Enough P (m w) (λ _. pure a) λ _ w₁. h

-- A step that reads nothing, and then the rest.
pub lifted :
    {A B : Type 0} (Q : B → Type 0) (m : Result A) (f : A → T B)
    → ((a : A) (w : Wire) → Enough Q (f a w))
    → Enough Q (go_on (some m) f)
lifted Q m f k = go_on-Enough (λ _. Unit {0}) Q (some m) f (lift-Enough m) λ a _ w. k a w

pub lift_then_finish :
    {A : Type 0} (P : A → Type 0) (m : M (Unit {0})) (a : A) (w : Wire)
    → P a
    → Enough P (go_on (lift m w) (λ _. finish a))
lift_then_finish P m a w h = lifted P (m w) (λ _. finish a) λ _ w₁. h
