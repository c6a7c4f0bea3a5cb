-- ===== src/Apiserver/Sdk/Keys.antt =====
-- apiserver/sdk/sdk.go: checkAndRemove, which takes a key out of a slice in place.
pub mod Laws
pub mod Length
use test_fabric.Base.{ℕ, zero, suc, String, Option, none, some, List, [], ◌∷◌, ◌==◌, if◌then◌else◌}

-- A slice from the start of an array: the array's elements, and how many of them are the slice.
pub record Keys : Type 0 where
  pub array : List String
  pub len : ℕ

-- `append(xs[:i], xs[i+1:]...)` from the element `x` at `i` on, with `n` elements of the slice
-- behind it: they move up, and the last place keeps what it holds.
unfoldable pub shift : ℕ → String → List String → List String
shift zero x xs = x ∷ xs
shift (suc n) x [] = x ∷ []
shift (suc n) x (y ∷ ys) = y ∷ shift n y ys

abbrev pub behind : String → Option (List String) → Option (List String)
behind x none = none
behind x (some xs) = some (x ∷ xs)

-- The array after the removal, none if the key is not among the first `n` elements.
unfoldable pub remove_key : String → ℕ → List String → Option (List String)
unfolding shift
remove_key key zero xs = none
remove_key key (suc n) [] = none
remove_key key (suc n) (x ∷ xs) =
    if key == x then some (shift n x xs) else behind x (remove_key key n xs)

abbrev pub shorten : ℕ → Option (List String) → Option Keys
shorten zero removed = none
shorten (suc n) none = none
shorten (suc n) (some array) = some (record { array = array; len = n })

-- The slice after the removal, none if the key is not in it.
unfoldable pub check_and_remove : Keys → String → Option Keys
unfolding remove_key
check_and_remove keys key = shorten keys.len (remove_key key keys.len keys.array)
