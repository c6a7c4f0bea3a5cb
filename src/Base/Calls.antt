-- ===== src/Base/Calls.antt =====
-- Calls that may fail, and calls that change a state.
use Prim.Native.String.{String}
use mathlib.Core.Path.{◌≡◌, refl}
use mathlib.Core.Logic.{◌⊎◌, inl, inr}

-- A Go `error` is kept as its text; `nil` is `none`.
abbrev pub Error : Type 0
Error = String

-- What a call returns that gives either a value or an error.
pub data Result {ℓ} (A : Type ℓ) : Type ℓ where
  ok : A → Result A
  err : Error → Result A

-- A call on a state `S`: its result and the state afterwards.
abbrev pub State : Type 0 → Type 0 → Type 0
State S A = S → A × S

infixl 5 ◌>>=◌ ◌>>◌
abbrev pub ◌>>=◌ : {S A B : Type 0} → State S A → (A → State S B) → State S B
◌>>=◌ m f s = let (a, s') = m s in f a s'

abbrev pub ◌>>◌ : {S A B : Type 0} → State S A → State S B → State S B
◌>>◌ m k s = let (a, s') = m s in k s'

abbrev pub pure : {S A : Type 0} → A → State S A
pure a s = (a, s)

-- A read leaves the state alone.
abbrev pub gets : {S A : Type 0} → (S → A) → State S A
gets f s = (f s, s)

pub Result-cases {ℓ} :
    {A : Type ℓ} (r : Result A) → ((a : A) × (r ≡ ok a)) ⊎ ((e : Error) × (r ≡ err e))
Result-cases (ok a) = inl (a, refl)
Result-cases (err e) = inr (e, refl)
