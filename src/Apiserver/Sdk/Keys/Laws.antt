-- ===== src/Apiserver/Sdk/Keys/Laws.antt =====
-- What checkAndRemove does to the slice, and to the array that a loop over it still reads.
use test_fabric.Base.{
  ℕ, zero, suc, ◌<◌, ◌≤◌, String, ◌≡◌, refl, ap, sym, ◌∙◌, inl, inr, true, false, Option, none,
  some, List, [], ◌∷◌, In, take, get_elem?, length, ◌==◌, Bool-cases, ◌≢◌, eq-false_of_ne,
  if◌then◌else◌, arith, eq_iff,
}
use test_fabric.Apiserver.Sdk.Keys.{Keys, shift, behind, remove_key, shorten, check_and_remove}

-- The elements of a slice.
abbrev pub elements : Keys → List String
elements keys = take keys.len keys.array

-- A list without the first place where a key stands, none if it stands nowhere.
abbrev pub without_first : String → List String → Option (List String)
without_first key [] = none
without_first key (x ∷ xs) = if key == x then some xs else behind x (without_first key xs)

take-shift :
    (n : ℕ) (x : String) (xs : List String) → n ≤ length xs → take n (shift n x xs) ≡ take n xs
unfolding shift
take-shift zero x xs h = refl
take-shift (suc n) x [] h = absurd (omega (arith, h))
take-shift (suc n) x (y ∷ ys) h = ap (λ zs. y ∷ zs) (take-shift n y ys (omega (arith, h)))

-- The first places of an array after a removal.
abbrev pub kept : ℕ → Option (List String) → Option (List String)
kept n none = none
kept n (some xs) = some (take n xs)

kept-behind :
    (n : ℕ) (x : String) (o : Option (List String))
    → kept (suc n) (behind x o) ≡ behind x (kept n o)
kept-behind n x none = refl
kept-behind n x (some xs) = refl

remove_key-without_first :
    (key : String) (n : ℕ) (xs : List String)
    → suc n ≤ length xs
    → kept n (remove_key key (suc n) xs) ≡ without_first key (take (suc n) xs)
unfolding remove_key
remove_key-without_first key n [] h = absurd (omega (arith, h))
remove_key-without_first key zero (x ∷ xs) h = elim (Bool-cases (key == x)) [
  | inl same ↦ rw same refl
  | inr other ↦ rw other refl
]
remove_key-without_first key (suc n) (x ∷ xs) h = elim (Bool-cases (key == x)) [
  | inl same ↦ rw same (ap (λ zs. some zs) (take-shift (suc n) x xs (omega (arith, h))))
  | inr other ↦ rw other (
      kept-behind n x (remove_key key (suc n) xs)
      ∙ ap (behind x) (remove_key-without_first key n xs (omega (arith, h))))
]

-- The slice after the removal, as a list.
abbrev pub elements_of : Option Keys → Option (List String)
elements_of none = none
elements_of (some keys) = some (elements keys)

elements_of-shorten :
    (n : ℕ) (o : Option (List String)) → elements_of (shorten (suc n) o) ≡ kept n o
elements_of-shorten n none = refl
elements_of-shorten n (some xs) = refl

shorten-without_first :
    (key : String) (n : ℕ) (xs : List String)
    → n ≤ length xs
    → elements_of (shorten n (remove_key key n xs)) ≡ without_first key (take n xs)
shorten-without_first key zero xs h = refl
shorten-without_first key (suc n) xs h =
    elements_of-shorten n (remove_key key (suc n) xs) ∙ remove_key-without_first key n xs h

-- On a slice that lies in its array, checkAndRemove tells whether the key is among the slice's
-- elements, and leaves the slice without the first place where the key stands.
pub check_and_remove-without_first :
    (keys : Keys) (key : String)
    → keys.len ≤ length keys.array
    → elements_of (check_and_remove keys key) ≡ without_first key (elements keys)
unfolding check_and_remove
check_and_remove-without_first keys key h = shorten-without_first key keys.len keys.array h

-- The key was in the array, and what is in the array afterwards was there before.
abbrev pub WasIn : String → List String → Option (List String) → Type 0
WasIn key xs none = Unit
WasIn key xs (some ys) = In key xs × ((z : String) → In z ys → In z xs)

shift-In :
    (n : ℕ) (x : String) (xs : List String) (z : String) → In z (shift n x xs) → In z (x ∷ xs)
unfolding shift
shift-In zero x xs z i = i
shift-In (suc n) x [] z i = i
shift-In (suc n) x (y ∷ ys) z (inl e) = inr (inl e)
shift-In (suc n) x (y ∷ ys) z (inr i) = inr (shift-In n y ys z i)

behind-WasIn :
    (key x : String) (xs : List String) (o : Option (List String))
    → WasIn key xs o
    → WasIn key (x ∷ xs) (behind x o)
behind-WasIn key x xs none h = tt
behind-WasIn key x xs (some ys) (was, all) =
    (inr was, λ z i. elim i [ inl e ↦ inl e | inr j ↦ inr (all z j) ])

remove_key-WasIn : (key : String) (n : ℕ) (xs : List String) → WasIn key xs (remove_key key n xs)
unfolding remove_key
remove_key-WasIn key zero xs = tt
remove_key-WasIn key (suc n) [] = tt
remove_key-WasIn key (suc n) (x ∷ xs) = elim (Bool-cases (key == x)) [
  | inl same ↦ rw same (inl (ground (arith, eq_iff key x)), shift-In n x xs)
  | inr other ↦ rw other (behind-WasIn key x xs (remove_key key n xs) (remove_key-WasIn key n xs))
]

abbrev pub array_of : Option Keys → Option (List String)
array_of none = none
array_of (some keys) = some keys.array

shorten-WasIn :
    (key : String) (xs : List String) (n : ℕ) (o : Option (List String))
    → WasIn key xs o
    → WasIn key xs (array_of (shorten n o))
shorten-WasIn key xs zero o h = tt
shorten-WasIn key xs (suc n) none h = tt
shorten-WasIn key xs (suc n) (some ys) h = h

pub check_and_remove-WasIn :
    (keys : Keys) (key : String) → WasIn key keys.array (array_of (check_and_remove keys key))
unfolding check_and_remove
check_and_remove-WasIn keys key =
    shorten-WasIn key keys.array keys.len (remove_key key keys.len keys.array)
      (remove_key-WasIn key keys.len keys.array)

shift-next :
    (n : ℕ) (x : String) (xs : List String) (j : ℕ)
    → n ≤ length xs
    → j < n
    → get_elem? (shift n x xs) j ≡ get_elem? xs j
unfolding shift
shift-next zero x xs j h i = absurd (omega (arith, i))
shift-next (suc n) x [] j h i = absurd (omega (arith, h))
shift-next (suc n) x (y ∷ ys) zero h i = refl
shift-next (suc n) x (y ∷ ys) (suc j) h i =
    shift-next n y ys j (omega (arith, h)) (omega (arith, i))

-- From the place `i` on, each place holds what stood behind it.
abbrev pub IsShifted : ℕ → ℕ → List String → List String → Type 0
IsShifted i n xs ys = (j : ℕ) → i ≤ j → suc j < n → get_elem? ys j ≡ get_elem? xs (suc j)

IsShifted-cons :
    (i n : ℕ) (x : String) (xs ys : List String)
    → IsShifted i n xs ys
    → IsShifted (suc i) (suc n) (x ∷ xs) (x ∷ ys)
IsShifted-cons i n x xs ys moved zero low high = absurd (omega (arith, low))
IsShifted-cons i n x xs ys moved (suc j) low high =
    moved j (omega (arith, low)) (omega (arith, high))

remove_key-IsShifted :
    (key : String) (n : ℕ) (xs : List String) (i : ℕ)
    → n ≤ length xs
    → i < n
    → get_elem? xs i ≡ some key
    → ((j : ℕ) → j < i → get_elem? xs j ≢ some key)
    → (ys : List String) × (remove_key key n xs ≡ some ys) × IsShifted i n xs ys
unfolding remove_key
remove_key-IsShifted key zero xs i long inside at first = absurd (omega (arith, inside))
remove_key-IsShifted key (suc n) [] i long inside at first = cc
remove_key-IsShifted key (suc n) (x ∷ xs) zero long inside at first =
    let same : (key == x) ≡ true = ground (arith, eq_iff key x, at) in
    (
      shift n x xs,
      rw same refl,
      λ j low high. shift-next n x xs j (omega (arith, long)) (omega (arith, high)),
    )
remove_key-IsShifted key (suc n) (x ∷ xs) (suc i) long inside at first =
    let other : (key == x) ≡ false =
      eq-false_of_ne key x (λ e. first 0 (omega arith) (ap (λ s. some s) (sym e))) in
    let (ys, e, moved) =
      remove_key-IsShifted key n xs i (omega (arith, long)) (omega (arith, inside)) at
        (λ j low. first (suc j) (omega (arith, low))) in
    (x ∷ ys, rw (other, e) refl, IsShifted-cons i n x xs ys moved)

shorten-some :
    (n i : ℕ) (o : Option (List String)) (ys : List String)
    → i < n
    → o ≡ some ys
    → (left : Keys) × (shorten n o ≡ some left) × (left.array ≡ ys)
shorten-some zero i o ys h e = absurd (omega (arith, h))
shorten-some (suc n) i o ys h e = (record { array = ys; len = n }, rw e refl, refl)

-- When the key that first stands at the place `i` of a slice is removed, every later element of the
-- slice moves up one place in the array. So a loop over the array that stands at `i`, and goes on
-- with the place behind it, finds there the element after the next one: the next one is passed over.
pub check_and_remove-IsShifted :
    (keys : Keys) (key : String) (i : ℕ)
    → keys.len ≤ length keys.array
    → i < keys.len
    → get_elem? keys.array i ≡ some key
    → ((j : ℕ) → j < i → get_elem? keys.array j ≢ some key)
    → (left : Keys) × (check_and_remove keys key ≡ some left)
      × IsShifted i keys.len keys.array left.array
unfolding check_and_remove
check_and_remove-IsShifted keys key i long inside at first =
    let (ys, e, moved) = remove_key-IsShifted key keys.len keys.array i long inside at first in
    let (left, f, same) =
      shorten-some keys.len i (remove_key key keys.len keys.array) ys inside e in
    (left, f, rw same moved)
