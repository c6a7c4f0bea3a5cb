-- ===== src/Apiserver/Sdk/Peers/Ready.antt =====
-- What SetSendPeerOrder leaves behind when it returns no error.
use test_fabric.Base.{
  ◌||◌, ◌<◌, String, ◌≡◌, refl, ◌≢◌, inl, inr, true, false, none, List, [], ◌∷◌, ◌++◌, ok, In, All,
  All-append, length, length-append, Bool-cases, ◌==◌, eq_iff, arith,
}
use test_fabric.Base.Dict.{lookup, insert, insert-All}
use test_fabric.Apiserver.Sdk.Peers.{
  PeerConfig, ClientConfig, Policy, Sdk, contains_str, peers_of, add_peers, all_names, set_peers,
  is_empty, first_or, set_send_peer_order,
}

-- The package's variables when the server starts.
abbrev pub empty_sdk : Sdk
empty_sdk = record { event_names = ""; orders_names = []; or_rule_peer_names = []; org_map = [] }

-- The name of a configured peer whose organisation the policy names.
abbrev pub IsEligible : Policy → ClientConfig → String → Type 0
IsEligible policy config name =
    (v : PeerConfig) × In v config.peers
    × (contains_str policy.orgs v.org_name ≡ true)
    × (v.name ≡ name)

module _ (P : String → Type 0) where
  -- An organisation has peers, and all of them have the property.
  abbrev pub IsFilled : String × List String → Type 0
  IsFilled (org, names) = (0 < length names) × All P names

  -- What the server can choose peers and an orderer from.
  pub record IsReady (policy : Policy) (orders : List String) (sdk : Sdk) : Type 0 where
    pub ordered : 0 < length orders
    pub same_orders : sdk.orders_names ≡ orders
    pub filled : All IsFilled sdk.org_map
    pub eligible : All P sdk.or_rule_peer_names
    pub chosen : policy.rule ≡ "or" → 0 < length sdk.or_rule_peer_names
    pub unchosen : policy.rule ≢ "or" → sdk.or_rule_peer_names ≡ []

  peers_of-All :
      (host : String) (m : List (String × List String)) → All IsFilled m → All P (peers_of host m)
  unfolding lookup
  peers_of-All host [] filled = tt
  peers_of-All host ((org, names) ∷ m) (entry, rest) = elim (Bool-cases (org == host)) [
    | inl same ↦ rw (same, All) entry.1
    | inr other ↦ rw (other, All) (peers_of-All host m rest)
  ]

  all_names-All : (m : List (String × List String)) → All IsFilled m → All P (all_names m)
  all_names-All [] filled = tt
  all_names-All ((org, names) ∷ m) (entry, rest) =
      All-append P names (all_names m) entry.1 (all_names-All m rest)

  add_peers-All :
      (orgs : List String) (peers : List PeerConfig) (m : List (String × List String))
      → ((v : PeerConfig) → In v peers → contains_str orgs v.org_name ≡ true → P v.name)
      → All IsFilled m
      → All IsFilled (add_peers orgs peers m)
  unfolding add_peers
  add_peers-All orgs [] m has filled = filled
  add_peers-All orgs (v ∷ peers) m has filled = elim (Bool-cases (contains_str orgs v.org_name)) [
    | inl named ↦
        let names = peers_of v.host m ++ v.name ∷ [] in
        let entry : IsFilled (v.org_name, names) = (
          omega (arith, length-append (peers_of v.host m) (v.name ∷ [])),
          All-append P (peers_of v.host m) (v.name ∷ []) (peers_of-All v.host m filled)
              (has v (inl refl) named, tt),
        ) in
        rw named (
          add_peers-All orgs peers (insert v.org_name names m) (λ x i. has x (inr i))
            (insert-All IsFilled v.org_name names m entry filled))
    | inr other ↦ rw other (add_peers-All orgs peers m (λ x i. has x (inr i)) filled)
  ]

pub length-pos : {A : Type 0} (xs : List A) → is_empty xs ≡ false → 0 < length xs
length-pos [] e = cc
length-pos (x ∷ xs) e = omega arith

module _ (policy : Policy) (config : ClientConfig) where
  abbrev org_map_of : List (String × List String)
  org_map_of = add_peers policy.orgs config.peers []

  org_map_of-All : All (IsFilled (IsEligible policy config)) org_map_of
  org_map_of-All =
      add_peers-All (IsEligible policy config) policy.orgs config.peers []
        (λ v i named. (v, i, named, refl)) tt

  set_peers-IsReady :
      (event : String) (orders : List String)
      → 0 < length orders
      → (set_peers policy config
          (record empty_sdk { event_names = event; orders_names = orders })).0
        ≡ none
      → IsReady
          (IsEligible policy config)
          policy
          orders
          (set_peers policy config
            (record empty_sdk { event_names = event; orders_names = orders })).1
  unfolding set_peers
  set_peers-IsReady event orders ordered h = elim (Bool-cases (policy.rule == "or")) [
    | inl rule_or ↦ elim (Bool-cases (is_empty (all_names org_map_of))) [
      | inl none_found ↦ ground arith
      | inr found ↦ rw rule_or (record {
        ordered = ordered;
        same_orders = refl;
        filled = org_map_of-All;
        eligible = all_names-All (IsEligible policy config) org_map_of org_map_of-All;
        chosen = λ e. length-pos (all_names org_map_of) found;
        unchosen = λ ne. absurd (ne (ground (arith, eq_iff policy.rule "or")));
      })
    ]
    | inr rule_other ↦ rw rule_other (record {
      ordered = ordered;
      same_orders = refl;
      filled = org_map_of-All;
      eligible = tt;
      chosen = λ e. ground (arith, eq_iff policy.rule "or");
      unchosen = λ ne. refl;
    })
  ]

  pub set_send_peer_order-IsReady :
      (set_send_peer_order policy (ok config) empty_sdk).0 ≡ none
      → IsReady
          (IsEligible policy config)
          policy
          config.orderers
          (set_send_peer_order policy (ok config) empty_sdk).1
  unfolding set_send_peer_order
  set_send_peer_order-IsReady h = elim (Bool-cases (is_empty policy.orgs || policy.rule == "")) [
    | inl bad ↦ ground arith
    | inr good ↦ elim (Bool-cases (is_empty config.orderers)) [
      | inl unordered ↦ ground arith
      | inr ordered ↦
          rw (good, ordered)
            (set_peers-IsReady (first_or "" config.event_peers) config.orderers
              (length-pos config.orderers ordered) (ground arith))
    ]
  ]
