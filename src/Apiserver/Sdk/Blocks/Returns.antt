-- ===== src/Apiserver/Sdk/Blocks/Returns.antt =====
-- GetBlockByTxids always returns, on messages that are whole.
use test_fabric.Base.{
  ℕ, zero, suc, ◌+◌, ◌≤◌, String, ◌≡◌, refl, Option, none, some, List, [], ◌∷◌, Error, Result, ok,
  err, length, get_elem?-some, arith, Bool-cases, ◌==◌, inl, inr, All,
}
use test_fabric.Base.Int.{ℤ}
use test_fabric.Base.Dict.{lookup, insert}
use test_fabric.Base.Go.{Go, done, or_panic}
use test_fabric.Base.Total.{
  IsTotal, or_panic-IsTotal, Returns, bind-Returns, any-Returns, bind_from-IsTotal, total-Returns,
  or_panic-Returns,
}
use test_fabric.Apiserver.Sdk.Peers.{
  ClientConfig, Policy, Sdk, Network, set_send_peer_order, get_send_peer_name,
}
use test_fabric.Apiserver.Sdk.Peers.Ready.{empty_sdk}
use test_fabric.Apiserver.Sdk.Peers.Choice.{DrawsBelow}
use test_fabric.Apiserver.Sdk.Peers.Calls.{started, get_send_peer_name-IsTotal}
use test_fabric.Apiserver.Message.{wrap}
use test_fabric.Apiserver.Sdk.Keys.{Keys, check_and_remove}
use test_fabric.Apiserver.Sdk.Keys.Length.{KeepsLength, check_and_remove-KeepsLength}
use test_fabric.Apiserver.Sdk.Events.{Protos, ChaincodeEvent, nil_pointer, get_chain_code_events}
use test_fabric.Apiserver.Sdk.Events.Whole.{
  IsWholePayload, IsWholeEnvelope, IsWholeBlock, get_chain_code_events-IsTotal,
}
use test_fabric.Apiserver.Sdk.Blocks.{
  BlockData, Infos, keep_event, take_events, known_or, take_found, answered_block, ask_peer,
  get_block_by_txid, new_block_data, take_channel, take_payload, take_transactions, take_block,
  or_return, walk, get_block_by_txids,
}
use test_fabric.Apiserver.Sdk.Blocks.Requested.{IsFound, get_block_by_txids-IsFound}

module _ (protos : Protos) where
  -- A block that was found is whole.
  abbrev pub IsWholeFound : Result protos.Block → Type 0
  IsWholeFound (err e) = Unit
  IsWholeFound (ok block) = IsWholeBlock protos block

  -- An answer of peers whose first response is not nil, and has a whole block if it has one.
  abbrev pub HasResponse : Result (List (Option String)) → Type 0
  HasResponse (err e) = Unit
  HasResponse (ok []) = Unit
  HasResponse (ok (none ∷ rest)) = ⊥
  HasResponse (ok (some payload ∷ rest)) =
      (block : protos.Block) → protos.unmarshal_block payload ≡ ok block → IsWholeBlock protos block

  wrap-IsWholeFound :
      (text : String) (found : Result protos.Block)
      → ((block : protos.Block) → found ≡ ok block → IsWholeBlock protos block)
      → IsWholeFound (wrap text found)
  wrap-IsWholeFound text (err e) whole = tt
  wrap-IsWholeFound text (ok block) whole = whole block refl

-- The keys stay in an array of that length.
abbrev InArray : {A : Type 0} → ℕ → Keys × A → Type 0
InArray n s = length s.0.array ≡ n

keep_event-InArray :
    (n : ℕ) (y : ChaincodeEvent) (removed : Option Keys) (s : Keys × BlockData)
    → KeepsLength n removed
    → InArray n s
    → InArray n (keep_event y removed s)
keep_event-InArray n y none s kept h = h
keep_event-InArray n y (some keys) s kept h = kept

take_events-InArray :
    (n : ℕ) (events : List ChaincodeEvent) (s : Keys × BlockData)
    → InArray n s
    → InArray n (take_events events s)
unfolding take_events
take_events-InArray n [] s h = h
take_events-InArray n (y ∷ events) s h =
    let kept : KeepsLength n (check_and_remove s.0 y.tx_id) =
      rw (← h) (check_and_remove-KeepsLength s.0 y.tx_id) in
    take_events-InArray n events (keep_event y (check_and_remove s.0 y.tx_id) s)
      (keep_event-InArray n y (check_and_remove s.0 y.tx_id) s kept h)

take_found-InArray :
    (n : ℕ) (found : Result (List ChaincodeEvent)) (s : Keys × BlockData)
    → InArray n s
    → InArray n (take_found found s)
take_found-InArray n (err e) s h = h
take_found-InArray n (ok events) s h = take_events-InArray n events s h

module _ {World : Type 0} (network : Network World) (draws : DrawsBelow network) (protos : Protos)
    (policy : Policy) (config : ClientConfig)
    (accepted : (set_send_peer_order policy (ok config) empty_sdk).0 ≡ none) (chain_id : String)
    (answered : (txid : String) (peers : List String) (w : World)
      → HasResponse protos
          (network.query_by_qscc ("GetBlockByTxID" ∷ chain_id ∷ txid ∷ []) peers w).0) where
  abbrev sdk : Sdk
  sdk = started policy config

  answered_block-Returns :
      (response : Result (List (Option String)))
      → HasResponse protos response
      → Returns (IsWholeFound protos) (answered_block network protos policy sdk chain_id response)
  answered_block-Returns (err e) h = λ w. (_, refl, tt)
  answered_block-Returns (ok []) h = λ w. (_, refl, tt)
  answered_block-Returns (ok (none ∷ rest)) h = absurd h
  answered_block-Returns (ok (some payload ∷ rest)) h =
      λ w. (_, refl, wrap-IsWholeFound protos _ (protos.unmarshal_block payload) h)

  ask_peer-Returns :
      (txid : String) (peers : List String)
      → Returns (IsWholeFound protos) (ask_peer network protos policy sdk chain_id txid peers)
  ask_peer-Returns txid [] = λ w. (_, refl, tt)
  ask_peer-Returns txid (peer ∷ peers) = λ w.
      let asked = network.query_by_qscc ("GetBlockByTxID" ∷ chain_id ∷ txid ∷ []) (peer ∷ []) w in
      answered_block-Returns asked.0 (answered txid (peer ∷ []) w) asked.1

  get_block_by_txid-Returns :
      (txid : String)
      → Returns (IsWholeFound protos) (get_block_by_txid network protos policy sdk chain_id txid)
  unfolding get_block_by_txid
  get_block_by_txid-Returns txid =
      bind-Returns (λ a. Unit {0}) (IsWholeFound protos) (get_send_peer_name network policy sdk) _
        (any-Returns (get_send_peer_name network policy sdk)
          (get_send_peer_name-IsTotal network draws policy config accepted))
        λ names u. ask_peer-Returns txid names

  take_channel-Returns :
      (n : ℕ) (tx : protos.Payload) (kind : Result ℤ) (s : Keys × BlockData)
      → IsWholePayload protos tx
      → InArray n s
      → Returns (InArray n) (take_channel network protos policy sdk chain_id tx kind s)
  take_channel-Returns n tx (err e) s whole h = λ w. (s, refl, h)
  take_channel-Returns n tx (ok kind) s whole h =
      bind-Returns (λ a. Unit {0}) (InArray n) (get_chain_code_events protos tx) _
        (any-Returns (get_chain_code_events protos tx)
          (get_chain_code_events-IsTotal protos World tx whole))
        λ events u w. (take_found events s, refl, take_found-InArray n events s h)

  take_payload-Returns :
      (n : ℕ) (payload : Option protos.Payload) (s : Keys × BlockData)
      → ((tx : protos.Payload) → payload ≡ some tx → IsWholePayload protos tx)
      → InArray n s
      → Returns (InArray n) (take_payload network protos policy sdk chain_id payload s)
  take_payload-Returns n none s whole h = λ w. (s, refl, h)
  take_payload-Returns n (some tx) s whole h =
      bind-Returns (λ a. Unit {0}) (InArray n) (or_panic (protos.channel_header tx) nil_pointer) _
        (any-Returns (or_panic (protos.channel_header tx) nil_pointer)
          (or_panic-IsTotal (protos.channel_header tx) nil_pointer (whole tx refl).channelled))
        λ bytes u.
          take_channel-Returns n tx (protos.unmarshal_channel_header bytes) s (whole tx refl) h

  take_transactions-Returns :
      (n : ℕ) (rs : List String) (s : Keys × BlockData)
      → All (IsWholeEnvelope protos) rs
      → InArray n s
      → Returns (InArray n) (take_transactions network protos policy sdk chain_id rs s)
  unfolding take_transactions
  take_transactions-Returns n [] s whole h = λ w. (s, refl, h)
  take_transactions-Returns n (r ∷ rs) s (first, whole) h =
      bind-Returns (InArray n) (InArray n)
        (take_payload network protos policy sdk chain_id (protos.get_tx_payload r) s)
        (take_transactions network protos policy sdk chain_id rs)
        (take_payload-Returns n (protos.get_tx_payload r) s first h)
        (λ t kept. take_transactions-Returns n rs t whole kept)

  take_block-Returns :
      (n : ℕ) (block : protos.Block) (s : Keys × Infos)
      → IsWholeBlock protos block
      → InArray n s
      → Returns (InArray n) (take_block network protos policy sdk chain_id block s)
  unfolding take_block
  take_block-Returns n block (keys, infos) whole h =
      bind-Returns (λ a. Unit {0}) (InArray n) (or_panic (protos.header block) nil_pointer) _
        (any-Returns (or_panic (protos.header block) nil_pointer)
          (or_panic-IsTotal (protos.header block) nil_pointer whole.headed))
        λ head u.
          let hash = protos.hex head.data_hash in
          elim (Bool-cases (hash == "")) [
            | inl empty ↦ rw empty (λ w. ((keys, infos), refl, h))
            | inr full ↦ rw full (
                bind-Returns (λ rs. protos.envelopes block ≡ some rs) (InArray n)
                  (or_panic (protos.envelopes block) nil_pointer) _
                  (or_panic-Returns (protos.envelopes block) nil_pointer whole.filled)
                  λ rs there.
                    bind-Returns (InArray n) (InArray n)
                      (take_transactions network protos policy sdk chain_id rs (
                        keys,
                        known_or (new_block_data network protos policy sdk chain_id block hash head)
                            (lookup hash infos),
                      ))
                      _ (take_transactions-Returns n rs _ (whole.enveloped rs there) h)
                      λ taken kept w. ((taken.0, insert hash taken.1 infos), refl, kept))
          ]

  or_return-IsTotal :
      (infos : Infos) (found : Result protos.Block)
      (next : protos.Block → Go World (Infos × Option Error))
      → IsWholeFound protos found
      → ((block : protos.Block) → IsWholeBlock protos block → IsTotal (next block))
      → IsTotal (or_return network protos policy sdk chain_id infos found next)
  or_return-IsTotal infos (err e) next whole h = λ w. (_, refl)
  or_return-IsTotal infos (ok block) next whole h = h block whole

  walk-IsTotal :
      (rounds i n : ℕ) (s : Keys × Infos)
      → InArray n s
      → i + rounds ≤ n
      → IsTotal (walk network protos policy sdk chain_id rounds i s)
  unfolding walk
  walk-IsTotal zero i n (keys, infos) h few = λ w. (_, refl)
  walk-IsTotal (suc rounds) i n (keys, infos) h few =
      let (txid, there) = get_elem?-some keys.array i (omega (arith, h, few)) in
      elim (Bool-cases (txid == "")) [
        | inl empty ↦ rw (there, empty) (λ w. (_, refl))
        | inr full ↦
            rw (there, full)
              (bind_from-IsTotal (IsWholeFound protos)
                (get_block_by_txid network protos policy sdk chain_id txid) _
                (get_block_by_txid-Returns txid)
                λ found whole. or_return-IsTotal infos found _ whole λ block is_whole.
                  bind_from-IsTotal (InArray n)
                    (take_block network protos policy sdk chain_id block (keys, infos))
                    (walk network protos policy sdk chain_id rounds (suc i))
                    (take_block-Returns n block (keys, infos) is_whole h)
                    λ s kept. walk-IsTotal rounds (suc i) n s kept (omega (arith, few)))
      ]

  -- If SetSendPeerOrder accepts the configuration, `rand.Intn` draws below its bound, and no
  -- pointer that the server follows in the peers' answers to GetBlockByTxID, and in the blocks that
  -- these decode to, is nil, then GetBlockByTxids returns, for any list of transactions, although
  -- the array is shifted under its loop. Every block that it found stands under its own hash, which
  -- is not empty, and every event of a block stands under its own transaction, which is one of
  -- those that were asked for.
  pub get_block_by_txids-done :
      (txids : List String) (w : World)
      → (found : Infos × Option Error) × ((get_block_by_txids network protos policy
            (started policy config)
            chain_id
            txids
            w).0
          ≡ done found)
        × All (IsFound txids) found.0
  unfolding get_block_by_txids
  get_block_by_txids-done txids w =
      total-Returns (λ r. All (IsFound txids) r.0)
        (get_block_by_txids network protos policy sdk chain_id txids)
        (walk-IsTotal (length txids) 0 (length txids)
          (record { array = txids; len = length txids }, []) refl (omega arith))
        (get_block_by_txids-IsFound txids network protos policy sdk chain_id) w
