-- ===== src/Base/Dict.antt =====
-- A Go map with texts as keys: an association list in which a key stands once. A range over a map
-- goes in the order of the list; Go fixes no order.
use Prim.Native.String.{String}
use mathlib.Core.Path.{◌≡◌, refl, subst}
use mathlib.Core.Option.{Option, none, some}
use mathlib.Core.List.{List, [], ◌∷◌}
use native.Mathlib.Omega.{arith}
use text.Mathlib.TextEquality.{eq_iff}
use mathlib.Core.Logic.{inl, inr}
use test_fabric.Base.Lists.{All}
use test_fabric.Base.Tests.{Bool-cases, ◌==◌, if◌then◌else◌}

module _ {V : Type 0} where
  -- `value, ok := m[name]`
  unfoldable pub lookup : String → List (String × V) → Option V
  lookup name [] = none
  lookup name (entry ∷ dict) = if entry.0 == name then some entry.1 else lookup name dict

  -- `m[name] = value`
  unfoldable pub insert : String → V → List (String × V) → List (String × V)
  insert name value [] = (name, value) ∷ []
  insert name value (entry ∷ dict) =
      if entry.0 == name then (name, value) ∷ dict else entry ∷ insert name value dict

  -- An entry is found under its own name, and hides no other.
  pub lookup-insert :
      (name other : String) (value : V) (dict : List (String × V))
      → lookup other (insert name value dict)
        ≡ (if name == other then some value else lookup other dict)
  unfolding lookup insert
  lookup-insert name other value [] = refl
  lookup-insert name other value (entry ∷ dict) =
      let first = entry.0 in
      ground (
        arith,
        eq_iff first name,
        eq_iff first other,
        eq_iff name other,
        lookup-insert name other value dict,
      )

  pub insert-All :
      (P : String × V → Type 0) (name : String) (value : V) (dict : List (String × V))
      → P (name, value)
      → All P dict
      → All P (insert name value dict)
  unfolding insert
  insert-All P name value [] new all = (new, tt)
  insert-All P name value (entry ∷ dict) new (first, all) = elim (Bool-cases (entry.0 == name)) [
    | inl same ↦ rw same (new, all)
    | inr other ↦ rw other (first, insert-All P name value dict new all)
  ]

  pub lookup-All :
      (P : String × V → Type 0) (name : String) (value : V) (dict : List (String × V))
      → All P dict
      → lookup name dict ≡ some value
      → P (name, value)
  unfolding lookup
  lookup-All P name value [] all e = cc
  lookup-All P name value ((k, v) ∷ dict) (first, all) e = elim (Bool-cases (k == name)) [
    | inl same ↦
        let key : k ≡ name = ground (arith, eq_iff k name) in
        let val : v ≡ value = ground arith in
        subst (λ n. P (n, value)) key (subst (λ x. P (k, x)) val first)
    | inr other ↦ lookup-All P name value dict all (ground arith)
  ]
