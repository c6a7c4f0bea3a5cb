-- ===== src/Apiserver/Sdk/Keys/Length.antt =====
-- checkAndRemove never changes how long the array is.
use test_fabric.Base.{
  ℕ, zero, suc, String, ◌≡◌, refl, Option, none, some, List, [], ◌∷◌, length, arith, Bool-cases,
  ◌==◌, inl, inr,
}
use test_fabric.Apiserver.Sdk.Keys.{Keys, shift, behind, remove_key, shorten, check_and_remove}

length-shift : (n : ℕ) (x : String) (xs : List String) → length (shift n x xs) ≡ suc (length xs)
unfolding shift
length-shift zero x xs = refl
length-shift (suc n) x [] = refl
length-shift (suc n) x (y ∷ ys) = omega (arith, length-shift n y ys)

-- An array of that length, if there is one.
abbrev pub HasLength : ℕ → Option (List String) → Type 0
HasLength n none = Unit
HasLength n (some xs) = length xs ≡ n

behind-HasLength :
    (n : ℕ) (x : String) (o : Option (List String)) → HasLength n o → HasLength (suc n) (behind x o)
behind-HasLength n x none h = tt
behind-HasLength n x (some xs) h = omega (arith, h)

remove_key-HasLength :
    (key : String) (n : ℕ) (xs : List String) → HasLength (length xs) (remove_key key n xs)
unfolding remove_key
remove_key-HasLength key zero xs = tt
remove_key-HasLength key (suc n) [] = tt
remove_key-HasLength key (suc n) (x ∷ xs) = elim (Bool-cases (key == x)) [
  | inl same ↦ rw same (length-shift n x xs)
  | inr other ↦
      rw other
        (behind-HasLength (length xs) x (remove_key key n xs) (remove_key-HasLength key n xs))
]

-- Keys in an array of that length, if there are any.
abbrev pub KeepsLength : ℕ → Option Keys → Type 0
KeepsLength n none = Unit
KeepsLength n (some keys) = length keys.array ≡ n

shorten-KeepsLength :
    (m n : ℕ) (o : Option (List String)) → HasLength n o → KeepsLength n (shorten m o)
shorten-KeepsLength zero n o h = tt
shorten-KeepsLength (suc m) n none h = tt
shorten-KeepsLength (suc m) n (some xs) h = h

pub check_and_remove-KeepsLength :
    (keys : Keys) (key : String) → KeepsLength (length keys.array) (check_and_remove keys key)
unfolding check_and_remove
check_and_remove-KeepsLength keys key =
    shorten-KeepsLength keys.len (length keys.array) (remove_key key keys.len keys.array)
      (remove_key-HasLength key keys.len keys.array)
