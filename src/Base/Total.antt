-- ===== src/Base/Total.antt =====
-- Code of the monad Go that never panics: it returns, from every state.
use mathlib.Core.Path.{◌≡◌, refl}
use mathlib.Core.Logic.{◌≢◌}
use mathlib.Core.Option.{Option, none, some}
use test_fabric.Base.Calls.{State, Error, Result, ok, err}
use test_fabric.Base.Go.{Run, Go, done, panicked, ◌>>=◌, call, or_panic, on_ok, After}

-- Code that never panics, whatever the state.
abbrev pub IsTotal : {S A : Type 0} → Go S A → Type 0
IsTotal {S = S} {A = A} m = (s : S) → (a : A) × ((m s).0 ≡ done a)

pub call-IsTotal : {S A : Type 0} (m : State S A) → IsTotal (call m)
call-IsTotal m s = ((m s).0, refl)

pub bind-IsTotal :
    {S A B : Type 0} (m : Go S A) (f : A → Go S B)
    → IsTotal m
    → ((a : A) → IsTotal (f a))
    → IsTotal (m >>= f)
bind-IsTotal m f t h s = let (a, e) = t s in let (b, ended) = h a (m s).1 in (b, rw e ended)

pub on_ok-IsTotal :
    {S A B : Type 0} (r : Result A) (f : A → Go S (Result B))
    → ((a : A) → IsTotal (f a))
    → IsTotal (on_ok r f)
on_ok-IsTotal (ok a) f h s = h a s
on_ok-IsTotal (err e) f h s = (err e, refl)

-- What goes on with a value may use where the value is from.
pub on_ok_from-IsTotal :
    {S A B : Type 0} (r : Result A) (f : A → Go S (Result B))
    → ((a : A) → r ≡ ok a → IsTotal (f a))
    → IsTotal (on_ok r f)
on_ok_from-IsTotal (ok a) f h s = h a refl s
on_ok_from-IsTotal (err e) f h s = (err e, refl)

-- A run that ends has the property that it has if it ends.
pub done-After {ℓ} :
    {A : Type 0} (Q : A → Type ℓ) (r : Run A)
    → (a : A) × (r ≡ done a)
    → After Q r
    → (a : A) × (r ≡ done a) × Q a
done-After Q (done b) ended q = (b, refl, q)
done-After Q (panicked p) (a, e) q = cc

-- Code that never panics, and ends with a value that has a property.
abbrev pub Returns {ℓ} : {S A : Type 0} → (A → Type ℓ) → Go S A → Type ℓ
Returns {S = S} {A = A} Q m = (s : S) → (a : A) × ((m s).0 ≡ done a) × Q a

pub bind-Returns {ℓ κ} :
    {S A B : Type 0} (Q : A → Type ℓ) (R : B → Type κ) (m : Go S A) (f : A → Go S B)
    → Returns Q m
    → ((a : A) → Q a → Returns R (f a))
    → Returns R (m >>= f)
bind-Returns Q R m f t h s =
    let (a, e, q) = t s in let (b, ended, r) = h a q (m s).1 in (b, rw e ended, r)

pub any-Returns : {S A : Type 0} (m : Go S A) → IsTotal m → Returns (λ a. Unit {0}) m
any-Returns m t s = let (a, e) = t s in (a, e, tt)

-- Code that never panics has every property that it has if it ends.
pub total-Returns {ℓ} :
    {S A : Type 0} (Q : A → Type ℓ) (m : Go S A)
    → IsTotal m
    → ((s : S) → After Q (m s).0)
    → Returns Q m
total-Returns Q m t h s = done-After Q (m s).0 (t s) (h s)

pub or_panic-IsTotal :
    {S A : Type 0} (o : Option A) (e : Error) → o ≢ none → IsTotal (or_panic {S = S} o e)
or_panic-IsTotal none e h s = absurd (h refl)
or_panic-IsTotal (some a) e h s = (a, refl)

pub bind_from-IsTotal {ℓ} :
    {S A B : Type 0} (Q : A → Type ℓ) (m : Go S A) (f : A → Go S B)
    → Returns Q m
    → ((a : A) → Q a → IsTotal (f a))
    → IsTotal (m >>= f)
bind_from-IsTotal Q m f t h s =
    let (a, e, q) = t s in let (b, ended) = h a q (m s).1 in (b, rw e ended)

pub or_panic-Returns :
    {S A : Type 0} (o : Option A) (e : Error)
    → o ≢ none
    → Returns (λ a. o ≡ some a) (or_panic {S = S} o e)
or_panic-Returns none e h s = absurd (h refl)
or_panic-Returns (some a) e h s = (a, refl, refl)
