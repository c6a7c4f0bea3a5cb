-- ===== src/Apiserver/Sdk/Tests.antt =====
-- A network of three peers, runs on it, and the theorems at concrete inputs.
use test_fabric.Base.{
  ℕ, suc, String, ◌≡◌, refl, ◌≢◌, inl, inr, none, some, List, [], ◌∷◌, ok, err, In, All, length,
  arith, eq_iff, sym, ap, ◌∙◌,
}
use test_fabric.Base.Go.{done, panicked, call}
use test_fabric.Base.Dict.{lookup, insert}
use test_fabric.Apiserver.Sdk.Peers.{
  PeerConfig, ClientConfig, Policy, Network, set_send_peer_order, contains_str, peers_of, add_peers,
  get_send_peer_name, invoke, peer_keepalive,
}
use test_fabric.Apiserver.Sdk.Peers.Ready.{empty_sdk, IsEligible}
use test_fabric.Apiserver.Sdk.Peers.Orgs.{AreOrgs, get_send_peer_name-AreOrgs}
use test_fabric.Apiserver.Sdk.Peers.Choice.{DrawsBelow, PickedFrom}
use test_fabric.Apiserver.Sdk.Peers.Calls.{started, invoke_sent, peer_keepalive_peerless}
use test_fabric.Apiserver.Sdk.Peers.Last.{add_peers-last_peer}

-- A network that draws the first name, and counts the calls.
abbrev network : Network ℕ
network = record {
  intn = λ n w. (0, w);
  invoke = λ args peers order w. (ok "tx1", suc w);
  query_by_qscc = λ args peers w. (err "no block", w);
  query = λ args peers w. (ok (some "Reached" ∷ []), suc w);
}

draws : DrawsBelow network
draws = record { drawn = λ n w h. h }

abbrev peer : String → String → String → PeerConfig
peer name host org = record { name = name; host = host; org_name = org }

abbrev config : ClientConfig
config = record {
  orderers = "orderer0" ∷ [];
  event_peers = "peer1" ∷ [];
  peers =
      peer "peer0" "10.0.0.1" "org1"
      ∷ peer "peer1" "10.0.0.2" "org1"
      ∷ peer "peer2" "10.0.0.3" "org2"
      ∷ [];
}

abbrev policy : String → Policy
policy rule = record { orgs = "org1" ∷ "org2" ∷ []; rule = rule }

accepted_or : (set_send_peer_order (policy "or") (ok config) empty_sdk).0 ≡ none
unfolding set_send_peer_order insert lookup
accepted_or = refl

accepted_and : (set_send_peer_order (policy "and") (ok config) empty_sdk).0 ≡ none
unfolding set_send_peer_order
accepted_and = refl

accepted_any : (set_send_peer_order (policy "any") (ok config) empty_sdk).0 ≡ none
unfolding set_send_peer_order
accepted_any = refl

started_run : (started (policy "or") config).or_rule_peer_names ≡ "peer1" ∷ "peer2" ∷ []
unfolding set_send_peer_order insert lookup
started_run = refl

ordered : (order : String) → In order config.orderers → order ≢ ""
ordered order (inl e) = ground (arith, eq_iff order "", eq_iff "orderer0" "", e)
ordered order (inr i) = absurd i

get_send_peer_name-AreOrgs_example :
    (names : List String) × ((get_send_peer_name network
        (policy "and")
        (started (policy "and") config)
        7).0
      ≡ done names)
    × All (IsEligible (policy "and") config) names
    × ((policy "and").rule ≡ "or" → length names ≡ 1)
    × ((policy "and").rule ≡ "and"
        → PickedFrom (started (policy "and") config).org_map names
          × AreOrgs (policy "and") config (started (policy "and") config).org_map)
get_send_peer_name-AreOrgs_example =
    get_send_peer_name-AreOrgs network draws (policy "and") config accepted_and 7

invoke_sent_example :
    (peer order : String) × (w' : ℕ) × IsEligible (policy "or") config peer
    × In order config.orderers
    × (invoke network (policy "or") (started (policy "or") config) "SaveData" "{}" 7
        ≡ call (network.invoke ("SaveData" ∷ "txid" ∷ "{}" ∷ []) (peer ∷ []) order) w')
invoke_sent_example =
    invoke_sent network draws (policy "or") config accepted_or "SaveData" "{}" 7 refl ordered

peer_keepalive_peerless_example :
    (peer_keepalive network (policy "any") (started (policy "any") config) "KeepaliveQuery" 7
      ≡ (panicked "index out of range", 7))
    × ((invoke network (policy "any") (started (policy "any") config) "KeepaliveQuery" "{}" 7).0
        ≡ done (err "config peer order is err"))
peer_keepalive_peerless_example =
    peer_keepalive_peerless network draws (policy "any") config accepted_any "KeepaliveQuery" "{}" 7
      (ground (arith, eq_iff "any" "or")) (ground (arith, eq_iff "any" "and"))

abbrev org1_peers : List PeerConfig
org1_peers = peer "peer0" "10.0.0.1" "org1" ∷ peer "peer1" "10.0.0.2" "org1" ∷ []

org_of : (w : PeerConfig) → In w org1_peers → w.org_name ≡ "org1"
org_of w (inl e) = sym (ap (λ v. v.org_name) e)
org_of w (inr (inl e)) = sym (ap (λ v. v.org_name) e)
org_of w (inr (inr i)) = absurd i

host_of : (v : PeerConfig) → In v org1_peers → v.host ≢ "org1"
host_of v (inl e) h = ground (arith, eq_iff "10.0.0.1" "org1", ap (λ v. v.host) e ∙ h)
host_of v (inr (inl e)) h = ground (arith, eq_iff "10.0.0.2" "org1", ap (λ v. v.host) e ∙ h)
host_of v (inr (inr i)) h = absurd i

apart : (v w : PeerConfig) → In v org1_peers → In w org1_peers → v.host ≢ w.org_name
apart v w i j e = host_of v i (e ∙ org_of w j)

add_peers-last_peer_example : peers_of "org1" (add_peers ("org1" ∷ []) org1_peers []) ≡ "peer1" ∷ []
unfolding contains_str
add_peers-last_peer_example = add_peers-last_peer ("org1" ∷ []) "org1" refl org1_peers apart
