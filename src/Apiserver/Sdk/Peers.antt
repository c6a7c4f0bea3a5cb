-- ===== src/Apiserver/Sdk/Peers.antt =====
-- apiserver/sdk/sdk.go: which peers and which orderer a call goes to (SetSendPeerOrder,
-- GetSendPeerName, getSendOrderName), Invoke and PeerKeepalive.
pub mod Ready
pub mod Choice
pub mod Calls
pub mod Orgs
pub mod Last
use test_fabric.Base.{
  ℕ, ◌+◌, ◌-◌, String, Bool, true, false, ◌||◌, Option, none, some, List, [], ◌∷◌, ◌++◌, Error,
  Result, ok, err, State, length, get_elem?, nat_eq, ◌==◌, if◌then◌else◌,
}
use test_fabric.Base.Go.{Go, done, panicked, ◌>>=◌, pure, panic, call, or_panic}
use test_fabric.Base.Dict.{lookup, insert}

-- What is read of the client's configuration (gohfc.NewClientConfig); a map is a list of entries
-- in the order in which a range goes through it.
pub record PeerConfig : Type 0 where
  pub name : String
  pub host : String
  pub org_name : String

pub record ClientConfig : Type 0 where
  pub orderers : List String
  pub event_peers : List String
  pub peers : List PeerConfig

-- "policy.orgs" and "policy.rule" of viper.
pub record Policy : Type 0 where
  pub orgs : List String
  pub rule : String

-- The package's variables.
pub record Sdk : Type 0 where
  pub event_names : String
  pub orders_names : List String
  pub or_rule_peer_names : List String
  pub org_map : List (String × List String)

unfoldable pub contains_str : List String → String → Bool
contains_str [] str = false
contains_str (v ∷ str_list) str = v == str || contains_str str_list str

-- A missing key reads as the nil slice.
abbrev pub or_nil : Option (List String) → List String
or_nil none = []
or_nil (some names) = names

abbrev pub peers_of : String → List (String × List String) → List String
peers_of org org_map = or_nil (lookup org org_map)

-- The loop over `config.Peers`: the list of an org's name is replaced by that of the peer's host
-- with the peer behind it.
unfoldable pub add_peers :
    List String → List PeerConfig → List (String × List String) → List (String × List String)
unfolding contains_str
add_peers policy_orgs [] org_map = org_map
add_peers policy_orgs (v ∷ peers) org_map = add_peers policy_orgs peers (
    if contains_str policy_orgs v.org_name
    then insert v.org_name (peers_of v.host org_map ++ v.name ∷ []) org_map
    else org_map)

-- All names of a map, entry by entry.
abbrev pub all_names : List (String × List String) → List String
all_names [] = []
all_names ((org, names) ∷ org_map) = names ++ all_names org_map

abbrev pub first_or : String → List String → String
first_or old [] = old
first_or old (k ∷ ks) = k

abbrev pub is_empty : {A : Type 0} → List A → Bool
is_empty [] = true
is_empty (x ∷ xs) = false

-- SetSendPeerOrder from the loop over the peers on.
unfoldable pub set_peers : Policy → ClientConfig → State Sdk (Option Error)
unfolding add_peers
set_peers policy config sdk =
    let org_map = add_peers policy.orgs config.peers sdk.org_map in
    let names = sdk.or_rule_peer_names ++ all_names org_map in
    if policy.rule == "or"
    then (
      if is_empty names then some "peer config is err" else none,
      record sdk { org_map = org_map; or_rule_peer_names = names },
    )
    else (none, record sdk { org_map = org_map })

abbrev set_orders : Policy → ClientConfig → State Sdk (Option Error)
set_orders policy config sdk =
    let orders = sdk.orders_names ++ config.orderers in
    if is_empty orders
    then (some "order config is err", sdk)
    else set_peers policy config (record sdk {
      orders_names = orders;
      event_names = first_or sdk.event_names config.event_peers;
    })

unfoldable pub set_send_peer_order : Policy → Result ClientConfig → State Sdk (Option Error)
unfolding set_peers
set_send_peer_order policy (err e) sdk = (some e, sdk)
set_send_peer_order policy (ok config) sdk =
    if is_empty policy.orgs || policy.rule == ""
    then (some "policy config is err", sdk)
    else set_orders policy config sdk

-- InitSDK, from the outcome of gohfc's own InitSDK on.
unfoldable pub init_sdk : Option Error → Policy → Result ClientConfig → State Sdk (Option Error)
unfolding set_send_peer_order
init_sdk (some e) policy config sdk = (some e, sdk)
init_sdk none policy config sdk = set_send_peer_order policy config sdk

-- The network: `rand.Intn`, and `Invoke`, `QueryByQscc` and `Query` of gohfc's handler. A response is the payload
-- of its `Response`, none if that is nil.
pub record Network (World : Type 0) : Type 0 where
  pub intn : ℕ → State World ℕ
  pub invoke : List String → List String → String → State World (Result String)
  pub query_by_qscc : List String → List String → State World (Result (List (Option String)))
  pub query : List String → List String → State World (Result (List (Option String)))

module _ {World : Type 0} (network : Network World) where
  open network use {intn, query}

  -- `rand.Intn` panics if its bound is not positive.
  unfoldable pub generate_range_num : ℕ → ℕ → Go World ℕ
  generate_range_num min max =
      if nat_eq (max - min) 0
      then panic "invalid argument to Intn"
      else (do n ← call (intn (max - min)); pure (n + min))

  -- `names[generateRangeNum(0, len(names))]`
  unfoldable pub pick_name : List String → Go World String
  unfolding generate_range_num
  pick_name names = do
    i ← generate_range_num 0 (length names)
    or_panic (get_elem? names i) "index out of range"

  unfoldable pub get_send_order_name : Sdk → Go World String
  unfolding pick_name
  get_send_order_name sdk = pick_name sdk.orders_names

  -- The loop over `orgMap` under the rule "and".
  unfoldable pub pick_each : List (String × List String) → Go World (List String)
  unfolding pick_name
  pick_each [] = pure []
  pick_each ((org, names) ∷ org_map) = do
    name ← pick_name names
    rest ← pick_each org_map
    pure (name ∷ rest)

  unfoldable pub get_send_peer_name : Policy → Sdk → Go World (List String)
  unfolding pick_each
  get_send_peer_name policy sdk =
      if is_empty sdk.or_rule_peer_names
      then (if policy.rule == "and" then pick_each sdk.org_map else pure [])
      else (do name ← pick_name sdk.or_rule_peer_names; pure (name ∷ []))

  unfoldable pub invoke : Policy → Sdk → String → String → Go World (Result String)
  unfolding get_send_peer_name get_send_order_name
  invoke policy sdk function request = do
    peer_names ← get_send_peer_name policy sdk
    order_name ← get_send_order_name sdk
    (if is_empty peer_names || order_name == ""
        then pure (err "config peer order is err")
        else call (network.invoke (function ∷ "txid" ∷ request ∷ []) peer_names order_name))

  -- An error is not told from an empty list; the payload of a nil `Response` panics.
  abbrev pub is_reached : Result (List (Option String)) → Go World Bool
  is_reached (err e) = pure false
  is_reached (ok []) = pure false
  is_reached (ok (none ∷ rest)) = panic "invalid memory address or nil pointer dereference"
  is_reached (ok (some payload ∷ rest)) = pure (payload == "Reached")

  -- The error for an empty list of peers is made and dropped: the index panics.
  unfoldable pub peer_keepalive : Policy → Sdk → String → Go World Bool
  unfolding get_send_peer_name
  peer_keepalive policy sdk function = do
    peer_names ← get_send_peer_name policy sdk
    peer ← or_panic (get_elem? peer_names 0) "index out of range"
    response ← call (query (function ∷ "reduPara" ∷ "reduPara" ∷ []) (peer ∷ []))
    is_reached response
