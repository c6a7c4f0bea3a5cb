-- ===== src/Apiserver/Sdk/Peers/Choice.antt =====
-- Which peers and which orderer a call is sent to.
use test_fabric.Base.{
  ℕ, zero, suc, ◌+◌, ◌-◌, ◌<◌, String, ◌≡◌, refl, ◌≢◌, inl, inr, true, false, some, List, [], ◌∷◌,
  In, All, get_elem?, length, nat_eq, Bool-cases, ◌==◌, eq_iff, arith, subst, sym, ◌∙◌,
}
use test_fabric.Base.Go.{done, call}
use test_fabric.Apiserver.Sdk.Peers.{
  Policy, Sdk, Network, is_empty, generate_range_num, pick_name, pick_each, get_send_peer_name,
}
use test_fabric.Apiserver.Sdk.Peers.Ready.{IsFilled, IsReady, length-pos}

-- `rand.Intn` draws below a positive bound.
pub record DrawsBelow {World : Type 0} (network : Network World) : Type 0 where
  pub drawn : (n : ℕ) (w : World) → 0 < n → (network.intn n w).0 < n

-- One name out of each entry's list, in the order of the entries.
abbrev pub PickedFrom : List (String × List String) → List String → Type 0
PickedFrom [] [] = Unit
PickedFrom ((org, names) ∷ m) (x ∷ xs) = In x names × PickedFrom m xs
PickedFrom _ _ = ⊥

get_elem?-In :
    (names : List String) (i : ℕ)
    → i < length names
    → (name : String) × (get_elem? names i ≡ some name) × In name names
get_elem?-In [] i h = absurd (omega (arith, h))
get_elem?-In (x ∷ xs) zero h = (x, refl, inl refl)
get_elem?-In (x ∷ xs) (suc i) h =
    let (name, e, m) = get_elem?-In xs i (omega (arith, h)) in (name, e, inr m)

All_at :
    (P : String → Type 0) (names : List String) (name : String)
    → All P names
    → In name names
    → P name
All_at P [] name all i = absurd i
All_at P (x ∷ xs) name (px, pxs) (inl e) = subst P e px
All_at P (x ∷ xs) name (px, pxs) (inr m) = All_at P xs name pxs m

PickedFrom-All :
    (P : String → Type 0) (m : List (String × List String)) (names : List String)
    → All (IsFilled P) m
    → PickedFrom m names
    → All P names
PickedFrom-All P [] [] filled picked = tt
PickedFrom-All P [] (x ∷ xs) filled picked = absurd picked
PickedFrom-All P ((org, from) ∷ m) [] filled picked = absurd picked
PickedFrom-All P ((org, from) ∷ m) (x ∷ xs) (entry, rest) (here, picked) =
    (All_at P from x entry.1 here, PickedFrom-All P m xs rest picked)

is_empty-length : (xs : List String) → is_empty xs ≡ true → length xs ≡ 0
is_empty-length [] e = refl
is_empty-length (x ∷ xs) e = cc

module _ (P : String → Type 0) (policy : Policy) (orders : List String) (sdk : Sdk)
    (ready : IsReady P policy orders sdk) where
  not_or : is_empty sdk.or_rule_peer_names ≡ true → policy.rule ≢ "or"
  not_or nobody rule_or =
      omega (arith, ready.chosen rule_or, is_empty-length sdk.or_rule_peer_names nobody)

  not_and : is_empty sdk.or_rule_peer_names ≡ false → policy.rule ≢ "and"
  not_and somebody rule_and =
      let other : policy.rule ≢ "or" =
        λ rule_or. ground (arith, eq_iff "and" "or", sym rule_and ∙ rule_or) in
      let nobody = ready.unchosen other in ground (arith, nobody)

module _ {World : Type 0} (network : Network World) (draws : DrawsBelow network) where
  generate_range_num-call :
      (n : ℕ) (w : World) → 0 < n → generate_range_num network 0 n w ≡ call (network.intn n) w
  unfolding generate_range_num
  generate_range_num-call n w h =
      let positive : nat_eq (n - 0) 0 ≡ false = ground arith in
      let bound : n - 0 ≡ n = omega arith in
      let shift : (network.intn n w).0 + 0 ≡ (network.intn n w).0 = omega arith in
      rw (positive, bound, shift) refl

  pub generate_range_num-below :
      (n : ℕ) (w : World)
      → 0 < n
      → (i : ℕ) × ((generate_range_num network 0 n w).0 ≡ done i) × (i < n)
  generate_range_num-below n w h =
      ((network.intn n w).0, rw (generate_range_num-call n w h) refl, draws.drawn n w h)

  pub pick_name-In :
      (names : List String) (w : World)
      → 0 < length names
      → (name : String) × ((pick_name network names w).0 ≡ done name) × In name names
  unfolding pick_name
  pick_name-In names w h =
      let i = (network.intn (length names) w).0 in
      let (name, e, m) = get_elem?-In names i (draws.drawn (length names) w h) in
      (name, rw (generate_range_num-call (length names) w h, e) refl, m)

  pick_each-PickedFrom :
      (P : String → Type 0) (m : List (String × List String)) (w : World)
      → All (IsFilled P) m
      → (names : List String) × ((pick_each network m w).0 ≡ done names) × PickedFrom m names
  unfolding pick_each
  pick_each-PickedFrom P [] w filled = ([], refl, tt)
  pick_each-PickedFrom P ((org, from) ∷ m) w (entry, rest) =
      let (name, e, i) = pick_name-In from w entry.0 in
      let (names, f, all) = pick_each-PickedFrom P m (pick_name network from w).1 rest in
      (name ∷ names, rw (e, f) refl, (i, all))

  pub get_send_peer_name-picked :
      (P : String → Type 0) (policy : Policy) (orders : List String) (sdk : Sdk) (w : World)
      → IsReady P policy orders sdk
      → (names : List String) × ((get_send_peer_name network policy sdk w).0 ≡ done names)
        × All P names
        × (policy.rule ≡ "or" → length names ≡ 1)
        × (policy.rule ≡ "and" → PickedFrom sdk.org_map names)
  unfolding get_send_peer_name
  get_send_peer_name-picked P policy orders sdk w ready =
      elim (Bool-cases (is_empty sdk.or_rule_peer_names)) [
        | inl nobody ↦ elim (Bool-cases (policy.rule == "and")) [
          | inl rule_and ↦
              let (names, e, all) = pick_each-PickedFrom P sdk.org_map w ready.filled in
              (
                names,
                rw (nobody, rule_and) e,
                PickedFrom-All P sdk.org_map names ready.filled all,
                λ h. absurd (not_or P policy orders sdk ready nobody h),
                λ h. all,
              )
          | inr rule_other ↦ (
            [],
            rw (nobody, rule_other) refl,
            tt,
            λ h. absurd (not_or P policy orders sdk ready nobody h),
            λ h. absurd (ground (arith, eq_iff policy.rule "and")),
          )
        ]
        | inr some_names ↦
            let (name, e, i) =
              pick_name-In sdk.or_rule_peer_names w
                (length-pos sdk.or_rule_peer_names some_names) in
            (
              name ∷ [],
              rw (some_names, e) refl,
              (All_at P sdk.or_rule_peer_names name ready.eligible i, tt),
              λ h. refl,
              λ h. absurd (not_and P policy orders sdk ready some_names h),
            )
      ]
