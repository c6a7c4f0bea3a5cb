-- ===== src/Base/Go.antt =====
-- Go code that may panic, over the state `S` of the process and its surroundings: a monad.
use mathlib.Core.Path.{◌≡◌, refl}
use mathlib.Core.Option.{Option, none, some}
use test_fabric.Base.Calls.{State, Error, Result, ok, err}

-- How a call ends: with a value, or by a panic. What was done before a panic stays done.
pub data Run (A : Type 0) : Type 0 where
  done : A → Run A
  panicked : Error → Run A

abbrev pub Go : Type 0 → Type 0 → Type 0
Go S A = State S (Run A)

abbrev pub then_run : {S A B : Type 0} → (A → Go S B) → Run A → Go S B
then_run f (done a) s = f a s
then_run f (panicked e) s = (panicked e, s)

infixl 5 ◌>>=◌ ◌>>◌
abbrev pub ◌>>=◌ : {S A B : Type 0} → Go S A → (A → Go S B) → Go S B
◌>>=◌ m f s = then_run f (m s).0 (m s).1

abbrev pub ◌>>◌ : {S A B : Type 0} → Go S A → Go S B → Go S B
◌>>◌ m k = m >>= λ _. k

abbrev pub pure : {S A : Type 0} → A → Go S A
pure a s = (done a, s)

abbrev pub panic : {S A : Type 0} → Error → Go S A
panic e s = (panicked e, s)

-- A call of the surroundings, which does not panic.
abbrev pub call : {S A : Type 0} → State S A → Go S A
call m s = (done (m s).0, (m s).1)

-- The run of an index or a pointer that may be absent.
abbrev pub or_panic : {S A : Type 0} → Option A → Error → Go S A
or_panic none e = panic e
or_panic (some a) e = pure a

-- A call that returns `nil, err`, or goes on with its value.
abbrev pub on_ok : {S A B : Type 0} → Result A → (A → Go S (Result B)) → Go S (Result B)
on_ok (ok a) f = f a
on_ok (err e) f = pure (err e)

-- What a run that ended with a value went through.
pub then_run-done :
    {S A B : Type 0} (r : Run A) (f : A → Go S B) (s : S) (b : B)
    → (then_run f r s).0 ≡ done b
    → (a : A) × (r ≡ done a) × ((f a s).0 ≡ done b)
then_run-done (done a) f s b e = (a, refl, e)
then_run-done (panicked p) f s b e = cc

pub on_ok-ok :
    {S A B : Type 0} (r : Result A) (f : A → Go S (Result B)) (s : S) (b : B)
    → (on_ok r f s).0 ≡ done (ok b)
    → (a : A) × (r ≡ ok a) × ((f a s).0 ≡ done (ok b))
on_ok-ok (ok a) f s b e = (a, refl, e)
on_ok-ok (err p) f s b e = cc

-- Two runs go on alike if what follows them does.
pub run-cong :
    {S A B : Type 0} (f g : A → Go S B) (r : Run A) (s : S)
    → ((a : A) (t : S) → f a t ≡ g a t)
    → then_run f r s ≡ then_run g r s
run-cong f g (done a) s h = h a s
run-cong f g (panicked e) s h = refl

pub bind-cong :
    {S A B : Type 0} (m : Go S A) (f g : A → Go S B) (s : S)
    → ((a : A) (t : S) → f a t ≡ g a t)
    → (m >>= f) s ≡ (m >>= g) s
bind-cong m f g s h = run-cong f g (m s).0 (m s).1 h

run_assoc :
    {S A B C : Type 0} (r : Run A) (f : A → Go S B) (g : B → Go S C) (s : S)
    → then_run g (then_run f r s).0 (then_run f r s).1 ≡ then_run (λ a. f a >>= g) r s
run_assoc (done a) f g s = refl
run_assoc (panicked e) f g s = refl

pub bind_assoc :
    {S A B C : Type 0} (m : Go S A) (f : A → Go S B) (g : B → Go S C) (s : S)
    → ((m >>= f) >>= g) s ≡ (m >>= λ a. f a >>= g) s
bind_assoc m f g s = run_assoc (m s).0 f g (m s).1

-- A value that a run ends with has a property.
abbrev pub After {ℓ} : {A : Type 0} → (A → Type ℓ) → Run A → Type ℓ
After Q (done a) = Q a
After Q (panicked e) = Unit

pub any-After : {A : Type 0} (r : Run A) → After (λ a. Unit {0}) r
any-After (done a) = tt
any-After (panicked e) = tt

pub then_run-After {ℓ κ} :
    {S A B : Type 0} (Q : A → Type ℓ) (R : B → Type κ) (r : Run A) (f : A → Go S B) (s : S)
    → After Q r
    → ((a : A) (t : S) → Q a → After R (f a t).0)
    → After R (then_run f r s).0
then_run-After Q R (done a) f s q h = h a s q
then_run-After Q R (panicked e) f s q h = tt

pub or_panic-After {ℓ} :
    {S A : Type 0} (Q : A → Type ℓ) (o : Option A) (e : Error) (s : S)
    → ((a : A) → o ≡ some a → Q a)
    → After Q (or_panic o e s).0
or_panic-After Q none e s h = tt
or_panic-After Q (some a) e s h = h a refl

pub bind-After {ℓ κ} :
    {S A B : Type 0} (Q : A → Type ℓ) (R : B → Type κ) (m : Go S A) (f : A → Go S B) (s : S)
    → After Q (m s).0
    → ((a : A) (t : S) → Q a → After R (f a t).0)
    → After R ((m >>= f) s).0
bind-After Q R m f s q h = then_run-After Q R (m s).0 f (m s).1 q h

-- Whatever the first run ends with.
pub bind_any-After {κ} :
    {S A B : Type 0} (R : B → Type κ) (m : Go S A) (f : A → Go S B) (s : S)
    → ((a : A) (t : S) → After R (f a t).0)
    → After R ((m >>= f) s).0
bind_any-After R m f s h = bind-After (λ a. Unit {0}) R m f s (any-After (m s).0) (λ a t u. h a t)

pub After-map {ℓ κ} :
    {A : Type 0} (Q : A → Type ℓ) (R : A → Type κ) (r : Run A)
    → After Q r
    → ((a : A) → Q a → R a)
    → After R r
After-map Q R (done a) q h = h a q
After-map Q R (panicked e) q h = tt
