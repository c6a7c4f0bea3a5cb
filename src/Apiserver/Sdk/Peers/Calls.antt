-- ===== src/Apiserver/Sdk/Peers/Calls.antt =====
-- The calls that the server makes after SetSendPeerOrder has read its configuration.
use test_fabric.Base.{
  String, ◌≡◌, refl, ◌≢◌, none, List, [], ◌∷◌, ok, err, In, All, length, eq-false_of_ne, arith,
  Bool-cases, inl, inr, ◌||◌, ◌==◌,
}
use test_fabric.Base.Go.{done, panicked, call, ◌>>=◌}
use test_fabric.Base.Total.{IsTotal, bind-IsTotal, call-IsTotal}
use test_fabric.Apiserver.Sdk.Peers.{
  ClientConfig, Policy, Sdk, Network, set_send_peer_order, get_send_order_name, get_send_peer_name,
  invoke, is_empty, is_reached, peer_keepalive,
}
use test_fabric.Apiserver.Sdk.Peers.Ready.{
  empty_sdk, IsEligible, IsReady, set_send_peer_order-IsReady,
}
use test_fabric.Apiserver.Sdk.Peers.Choice.{
  DrawsBelow, PickedFrom, get_send_peer_name-picked, pick_name-In,
}

-- The package's variables after SetSendPeerOrder, called once with this configuration.
abbrev pub started : Policy → ClientConfig → Sdk
started policy config = (set_send_peer_order policy (ok config) empty_sdk).1

module _ {World : Type 0} (network : Network World) (draws : DrawsBelow network) (policy : Policy)
    (config : ClientConfig)
    (accepted : (set_send_peer_order policy (ok config) empty_sdk).0 ≡ none) where
  ready : IsReady (IsEligible policy config) policy config.orderers (started policy config)
  ready = set_send_peer_order-IsReady policy config accepted

  -- If SetSendPeerOrder accepts the configuration, GetSendPeerName never panics and returns only
  -- configured peers of organisations of the policy: one under the rule "or", and under the rule
  -- "and" one for each organisation that has peers.
  pub get_send_peer_name-IsEligible :
      (w : World)
      → (names : List String) × ((get_send_peer_name network policy (started policy config) w).0
          ≡ done names)
        × All (IsEligible policy config) names
        × (policy.rule ≡ "or" → length names ≡ 1)
        × (policy.rule ≡ "and" → PickedFrom (started policy config).org_map names)
  get_send_peer_name-IsEligible w =
      get_send_peer_name-picked network draws (IsEligible policy config) policy config.orderers
        (started policy config) w ready

  get_send_order_name-In :
      (w : World)
      → (order : String) × ((get_send_order_name network (started policy config) w).0 ≡ done order)
        × In order config.orderers
  unfolding get_send_order_name
  get_send_order_name-In w =
      rw ready.same_orders (pick_name-In network draws config.orderers w ready.ordered)

  pub get_send_peer_name-IsTotal :
      IsTotal (get_send_peer_name network policy (started policy config))
  get_send_peer_name-IsTotal w =
      let (names, e, all, single, each) = get_send_peer_name-IsEligible w in (names, e)

  pub invoke-IsTotal :
      (function request : String)
      → IsTotal (invoke network policy (started policy config) function request)
  unfolding invoke
  invoke-IsTotal function request =
      bind-IsTotal (get_send_peer_name network policy (started policy config)) _
        get_send_peer_name-IsTotal
        λ names.
          bind-IsTotal (get_send_order_name network (started policy config)) _
            (λ w. let (order, e, i) = get_send_order_name-In w in (order, e))
            λ order. elim (Bool-cases (is_empty names || order == "")) [
              | inl missing ↦ rw missing (λ w. (_, refl))
              | inr there ↦ rw there (call-IsTotal (network.invoke _ names order))
            ]

  pub one_name :
      (names : List String)
      → length names ≡ 1
      → All (IsEligible policy config) names
      → (name : String) × (names ≡ name ∷ []) × IsEligible policy config name
  one_name [] one eligible = absurd (omega (arith, one))
  one_name (x ∷ []) one eligible = (x, refl, eligible.0)
  one_name (x ∷ y ∷ xs) one eligible = absurd (omega (arith, one))

  -- If SetSendPeerOrder accepts the configuration, the rule is "or" and no orderer has an empty
  -- name, Invoke sends the function and the request, through one configured orderer, to one
  -- configured peer of an organisation of the policy, and returns what the network answers.
  pub invoke_sent :
      (function request : String) (w : World)
      → policy.rule ≡ "or"
      → ((order : String) → In order config.orderers → order ≢ "")
      → (peer order : String) × (w' : World) × IsEligible policy config peer
        × In order config.orderers
        × (invoke network policy (started policy config) function request w
            ≡ call (network.invoke (function ∷ "txid" ∷ request ∷ []) (peer ∷ []) order) w')
  unfolding invoke
  invoke_sent function request w rule_or named =
      let (names, e, all, single, each) = get_send_peer_name-IsEligible w in
      let (peer, only, eligible) = one_name names (single rule_or) all in
      let w1 = (get_send_peer_name network policy (started policy config) w).1 in
      let (order, f, i) = get_send_order_name-In w1 in
      let w2 = (get_send_order_name network (started policy config) w1).1 in
      (peer, order, w2, eligible, i, rw (e, only, f, eq-false_of_ne order "" (named order i)) refl)

  -- If SetSendPeerOrder accepts the configuration and the rule is "or", PeerKeepalive asks one
  -- configured peer of an organisation of the policy, and judges the answer of that one.
  pub peer_keepalive_asked :
      (function : String) (w : World)
      → policy.rule ≡ "or"
      → (peer : String) × (w' : World) × IsEligible policy config peer
        × (peer_keepalive network policy (started policy config) function w
            ≡ (call (network.query (function ∷ "reduPara" ∷ "reduPara" ∷ []) (peer ∷ []))
                  >>= is_reached network)
                w')
  unfolding peer_keepalive
  peer_keepalive_asked function w rule_or =
      let (names, e, all, single, each) = get_send_peer_name-IsEligible w in
      let (peer, only, eligible) = one_name names (single rule_or) all in
      let w1 = (get_send_peer_name network policy (started policy config) w).1 in
      (peer, w1, eligible, rw (e, only) refl)

  -- If SetSendPeerOrder accepts the configuration, and the rule is neither "or" nor "and", no peer
  -- is ever chosen: PeerKeepalive panics, and Invoke returns an error.
  pub peer_keepalive_peerless :
      (function request : String) (w : World)
      → policy.rule ≢ "or"
      → policy.rule ≢ "and"
      → (peer_keepalive network policy (started policy config) function w
          ≡ (panicked "index out of range", w))
        × ((invoke network policy (started policy config) function request w).0
            ≡ done (err "config peer order is err"))
  unfolding peer_keepalive get_send_peer_name invoke
  peer_keepalive_peerless function request w not_or not_and =
      let nobody = ready.unchosen not_or in
      let other = eq-false_of_ne policy.rule "and" not_and in
      let (order, f, i) = get_send_order_name-In w in
      (rw (nobody, other) refl, rw (nobody, other, f) refl)
