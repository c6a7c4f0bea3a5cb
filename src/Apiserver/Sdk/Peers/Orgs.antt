-- ===== src/Apiserver/Sdk/Peers/Orgs.antt =====
-- The table of organisations that SetSendPeerOrder makes, and the peers that are chosen from it.
use test_fabric.Base.{
  String, ◌≡◌, refl, sym, subst, ◌⊎◌, inl, inr, Bool, true, false, Bool-cases, ◌||◌, if◌then◌else◌,
  Option, none, Error, List, [], ◌∷◌, ◌++◌, In, All, ok, length, ◌==◌, eq_iff, arith, map,
}
use test_fabric.Base.Dict.{insert}
use test_fabric.Base.Go.{done}
use test_fabric.Apiserver.Sdk.Peers.{
  PeerConfig, ClientConfig, is_empty, Policy, Sdk, Network, contains_str, peers_of, add_peers,
  set_peers, set_send_peer_order, get_send_peer_name,
}
use test_fabric.Apiserver.Sdk.Peers.Ready.{empty_sdk, IsEligible}
use test_fabric.Apiserver.Sdk.Peers.Choice.{DrawsBelow, PickedFrom}
use test_fabric.Apiserver.Sdk.Peers.Calls.{started, get_send_peer_name-IsEligible}

abbrev pub keys : List (String × List String) → List String
keys m = map (λ entry. entry.0) m

abbrev pub NoTwice : List String → Type 0
NoTwice [] = Unit
NoTwice (x ∷ xs) = (¬ In x xs) × NoTwice xs

-- An organisation of the policy that has a configured peer.
abbrev pub HasPeer : List String → List PeerConfig → String → Type 0
HasPeer orgs peers org =
    (v : PeerConfig) × In v peers × (contains_str orgs v.org_name ≡ true) × (v.org_name ≡ org)

module _ (name : String) (value : List String) where
  keys-insert :
      (org : String) (m : List (String × List String))
      → In org (keys (insert name value m))
      → (name ≡ org) ⊎ In org (keys m)
  unfolding insert
  keys-insert org [] i = i
  keys-insert org (entry ∷ m) i = elim (Bool-cases (entry.0 == name)) [
    | inl same ↦
        let here : (name ≡ org) ⊎ In org (keys m) = rw same at i in
        elim here [ inl e ↦ inl e | inr j ↦ inr (inr j) ]
    | inr other ↦
        let here : (entry.0 ≡ org) ⊎ In org (keys (insert name value m)) = rw other at i in
        elim here [
          | inl e ↦ inr (inl e)
          | inr j ↦ elim (keys-insert org m j) [ inl e ↦ inl e | inr k ↦ inr (inr k) ]
        ]
  ]

  insert-keys :
      (org : String) (m : List (String × List String))
      → (name ≡ org) ⊎ In org (keys m)
      → In org (keys (insert name value m))
  unfolding insert
  insert-keys org [] i = i
  insert-keys org (entry ∷ m) i = elim (Bool-cases (entry.0 == name)) [
    | inl same ↦
        let first : entry.0 ≡ name = (eq_iff entry.0 name).0 same in
        rw same (elim i [
          | inl e ↦ inl e
          | inr (inl e) ↦ inl (subst (λ n. n ≡ org) first e)
          | inr (inr j) ↦ inr j
        ])
    | inr other ↦ rw other (elim i [
      | inl e ↦ inr (insert-keys org m (inl e))
      | inr (inl e) ↦ inl e
      | inr (inr j) ↦ inr (insert-keys org m (inr j))
    ])
  ]

  insert-NoTwice :
      (m : List (String × List String)) → NoTwice (keys m) → NoTwice (keys (insert name value m))
  unfolding insert
  insert-NoTwice [] once = ((λ i. i), tt)
  insert-NoTwice (entry ∷ m) (new, once) = elim (Bool-cases (entry.0 == name)) [
    | inl same ↦
        let first : entry.0 ≡ name = (eq_iff entry.0 name).0 same in
        rw same (subst (λ n. ¬ In n (keys m)) first new, once)
    | inr other ↦ rw other (
      (λ i. elim (keys-insert entry.0 m i) [
        | inl e ↦ absurd (ground (arith, eq_iff entry.0 name, sym e))
        | inr j ↦ absurd (new j)
      ]),
      insert-NoTwice m once,
    )
  ]

module _ (orgs : List String) where
  -- An organisation stands in the table if it did before, or is one of the policy with a peer.
  add_peers-HasPeer :
      (peers : List PeerConfig) (m : List (String × List String)) (org : String)
      → In org (keys (add_peers orgs peers m))
      → In org (keys m) ⊎ HasPeer orgs peers org
  unfolding add_peers
  add_peers-HasPeer [] m org i = inl i
  add_peers-HasPeer (v ∷ peers) m org i = elim (Bool-cases (contains_str orgs v.org_name)) [
    | inl named ↦
        let names = peers_of v.host m ++ v.name ∷ [] in
        elim (add_peers-HasPeer peers (insert v.org_name names m) org (rw named at i)) [
          | inl j ↦ elim (keys-insert v.org_name names org m j) [
            | inl e ↦ inr (v, inl refl, named, e)
            | inr k ↦ inl k
          ]
          | inr (x, j, has, same) ↦ inr (x, inr j, has, same)
        ]
    | inr dropped ↦ elim (add_peers-HasPeer peers m org (rw dropped at i)) [
      | inl j ↦ inl j
      | inr (x, j, has, same) ↦ inr (x, inr j, has, same)
    ]
  ]

  HasPeer-add_peers :
      (peers : List PeerConfig) (m : List (String × List String)) (org : String)
      → In org (keys m) ⊎ HasPeer orgs peers org
      → In org (keys (add_peers orgs peers m))
  unfolding add_peers
  HasPeer-add_peers [] m org (inl i) = i
  HasPeer-add_peers [] m org (inr (v, i, has, same)) = absurd i
  HasPeer-add_peers (v ∷ peers) m org i = elim (Bool-cases (contains_str orgs v.org_name)) [
    | inl named ↦
        let names = peers_of v.host m ++ v.name ∷ [] in
        let later = HasPeer-add_peers peers (insert v.org_name names m) org in
        let put = insert-keys v.org_name names org m in
        rw named (elim i [
          | inl j ↦ later (inl (put (inr j)))
          | inr (x, inl e, has, same) ↦
              later (inl (put (inl (subst (λ y. y.org_name ≡ org) (sym e) same))))
          | inr (x, inr j, has, same) ↦ later (inr (x, j, has, same))
        ])
    | inr dropped ↦ rw dropped (elim i [
      | inl j ↦ HasPeer-add_peers peers m org (inl j)
      | inr (x, inl e, has, same) ↦
          let named : contains_str orgs v.org_name ≡ true =
            subst (λ y. contains_str orgs y.org_name ≡ true) (sym e) has in
          cc
      | inr (x, inr j, has, same) ↦ HasPeer-add_peers peers m org (inr (x, j, has, same))
    ])
  ]

  add_peers-NoTwice :
      (peers : List PeerConfig) (m : List (String × List String))
      → NoTwice (keys m)
      → NoTwice (keys (add_peers orgs peers m))
  unfolding add_peers
  add_peers-NoTwice [] m once = once
  add_peers-NoTwice (v ∷ peers) m once = elim (Bool-cases (contains_str orgs v.org_name)) [
    | inl named ↦
        let names = peers_of v.host m ++ v.name ∷ [] in
        rw named (
          add_peers-NoTwice peers (insert v.org_name names m)
            (insert-NoTwice v.org_name names m once))
    | inr dropped ↦ rw dropped (add_peers-NoTwice peers m once)
  ]

-- The table has each organisation of the policy with a configured peer, once, and no others.
abbrev pub AreOrgs : Policy → ClientConfig → List (String × List String) → Type 0
AreOrgs policy config m =
    NoTwice (keys m)
    × ((org : String) → In org (keys m) → HasPeer policy.orgs config.peers org)
    × ((org : String) → HasPeer policy.orgs config.peers org → In org (keys m))

module _ (policy : Policy) (config : ClientConfig) where
  add_peers-AreOrgs : AreOrgs policy config (add_peers policy.orgs config.peers [])
  add_peers-AreOrgs = (
    add_peers-NoTwice policy.orgs config.peers [] tt,
    λ org i. elim (add_peers-HasPeer policy.orgs config.peers [] org i) [
      | inl j ↦ absurd j
      | inr has ↦ has
    ],
    λ org has. HasPeer-add_peers policy.orgs config.peers [] org (inr has),
  )

  branch-org_map :
      (table : List (String × List String)) (b : Bool) (x y : Option Error × Sdk)
      → (b ≡ true → table ≡ x.1.org_map)
      → (b ≡ false → table ≡ y.1.org_map)
      → table ≡ (if b then x else y).1.org_map
  branch-org_map table true x y h k = h refl
  branch-org_map table false x y h k = k refl

  started-org_map :
      (set_send_peer_order policy (ok config) empty_sdk).0 ≡ none
      → add_peers policy.orgs config.peers [] ≡ (started policy config).org_map
  unfolding set_send_peer_order set_peers
  started-org_map accepted =
      let table = add_peers policy.orgs config.peers [] in
      branch-org_map table (is_empty policy.orgs || policy.rule == "") _ _ (λ bad. ground arith)
        (λ good.
          branch-org_map table (is_empty config.orderers) _ _ (λ unordered. ground arith)
            (λ ordered.
              branch-org_map table (policy.rule == "or") _ _ (λ rule_or. refl) (λ other. refl)))

module _ {World : Type 0} (network : Network World) (draws : DrawsBelow network) (policy : Policy)
    (config : ClientConfig)
    (accepted : (set_send_peer_order policy (ok config) empty_sdk).0 ≡ none) where
  -- If SetSendPeerOrder accepts the configuration and `rand.Intn` draws below its bound,
  -- GetSendPeerName never panics and returns only configured peers of organisations of the policy:
  -- one under the rule "or". Under the rule "and" it returns one from each entry of a table that has
  -- every organisation of the policy with a configured peer once, and no other.
  pub get_send_peer_name-AreOrgs :
      (w : World)
      → (names : List String) × ((get_send_peer_name network policy (started policy config) w).0
          ≡ done names)
        × All (IsEligible policy config) names
        × (policy.rule ≡ "or" → length names ≡ 1)
        × (policy.rule ≡ "and"
            → PickedFrom (started policy config).org_map names
              × AreOrgs policy config (started policy config).org_map)
  get_send_peer_name-AreOrgs w =
      let (names, e, all, single, each) =
        get_send_peer_name-IsEligible network draws policy config accepted w in
      (
        names,
        e,
        all,
        single,
        λ rule_and. (
          each rule_and,
          subst (AreOrgs policy config) (started-org_map policy config accepted)
              (add_peers-AreOrgs policy config),
        ),
      )
