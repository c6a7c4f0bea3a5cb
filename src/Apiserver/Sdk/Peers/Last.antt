-- ===== src/Apiserver/Sdk/Peers/Last.antt =====
-- Which peers of an organisation SetSendPeerOrder keeps.
use test_fabric.Base.{
  String, ◌≡◌, refl, ◌≢◌, inl, inr, true, false, List, [], ◌∷◌, In, Bool-cases, ◌==◌,
  eq-false_of_ne, arith, if◌then◌else◌, ap, subst, sym, ◌∙◌,
}
use test_fabric.Base.Dict.{lookup, insert, lookup-insert}
use test_fabric.Apiserver.Sdk.Peers.{PeerConfig, contains_str, or_nil, peers_of, add_peers}

-- The last peer of an organisation, behind those that were found before.
abbrev pub last_peer : String → List String → List PeerConfig → List String
last_peer org found [] = found
last_peer org found (v ∷ peers) =
    last_peer org (if v.org_name == org then v.name ∷ [] else found) peers

peers_of-insert :
    (k org : String) (names : List String) (m : List (String × List String))
    → peers_of org (insert k names m) ≡ (if k == org then names else peers_of org m)
peers_of-insert k org names m = elim (Bool-cases (k == org)) [
  | inl same ↦ ap or_nil (lookup-insert k org names m) ∙ rw same refl
  | inr other ↦ ap or_nil (lookup-insert k org names m) ∙ rw other refl
]

module _ (orgs : List String) (org : String) (named : contains_str orgs org ≡ true) where
  add_peers-last_peer_from :
      (peers : List PeerConfig) (m : List (String × List String))
      → ((v w : PeerConfig) → In v peers → In w peers → v.host ≢ w.org_name)
      → ((v : PeerConfig) → In v peers → peers_of v.host m ≡ [])
      → peers_of org (add_peers orgs peers m) ≡ last_peer org (peers_of org m) peers
  unfolding add_peers
  add_peers-last_peer_from [] m apart absent = refl
  add_peers-last_peer_from (v ∷ peers) m apart absent =
      elim (Bool-cases (contains_str orgs v.org_name)) [
        | inl kept ↦
            let m' = insert v.org_name (v.name ∷ []) m in
            let still : (x : PeerConfig) → In x peers → peers_of x.host m' ≡ [] = λ x i.
              rw
                (
                  peers_of-insert v.org_name x.host (v.name ∷ []) m,
                  eq-false_of_ne v.org_name x.host (λ e. apart x v (inr i) (inl refl) (sym e)),
                )
                (absent x (inr i)) in
            rw (kept, absent v (inl refl), sym (peers_of-insert v.org_name org (v.name ∷ []) m))
              (add_peers-last_peer_from peers m' (λ x y i j. apart x y (inr i) (inr j)) still)
        | inr dropped ↦
            let other : v.org_name ≢ org =
              λ e. ground (arith, subst (λ o. contains_str orgs o ≡ false) e dropped) in
            rw (dropped, eq-false_of_ne v.org_name org other)
              (add_peers-last_peer_from peers m (λ x y i j. apart x y (inr i) (inr j))
                (λ x i. absent x (inr i)))
      ]

  -- If no peer's host is spelled like an organisation of a peer, the table of organisations keeps,
  -- for an organisation of the policy, only the last of its peers that the loop meets.
  pub add_peers-last_peer :
      (peers : List PeerConfig)
      → ((v w : PeerConfig) → In v peers → In w peers → v.host ≢ w.org_name)
      → peers_of org (add_peers orgs peers []) ≡ last_peer org [] peers
  unfolding lookup
  add_peers-last_peer peers apart = add_peers-last_peer_from peers [] apart (λ v i. refl)
