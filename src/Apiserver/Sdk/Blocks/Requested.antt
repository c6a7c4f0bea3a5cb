-- ===== src/Apiserver/Sdk/Blocks/Requested.antt =====
-- GetBlockByTxids on any answers of the network: what it can return.
use test_fabric.Base.{
  ℕ, zero, suc, String, ◌≡◌, refl, ◌≢◌, inl, inr, Option, none, some, List, [], ◌∷◌, Error, Result,
  ok, err, In, All, Bool-cases, Option-cases, get_elem?, length, ◌==◌, arith, eq_iff,
}
use test_fabric.Base.Int.{ℤ}
use test_fabric.Base.Go.{Go, After, any-After, then_run-After, or_panic, ◌>>=◌, pure}
use test_fabric.Base.Dict.{lookup, insert, insert-All, lookup-All}
use test_fabric.Apiserver.Sdk.Peers.{Policy, Sdk, Network}
use test_fabric.Apiserver.Sdk.Keys.{Keys, check_and_remove}
use test_fabric.Apiserver.Sdk.Keys.Laws.{WasIn, array_of, check_and_remove-WasIn}
use test_fabric.Apiserver.Sdk.Events.{ChaincodeEvent, Protos, nil_pointer, get_chain_code_events}
use test_fabric.Apiserver.Sdk.Blocks.{
  BlockData, Infos, keep_event, take_events, known_or, new_block_data, take_found, take_channel,
  take_payload, take_transactions, take_block, or_return, get_block_by_txid, walk,
  get_block_by_txids,
}

module _ (txids : List String) where
  -- An event stands under its own transaction, which was asked for.
  abbrev pub IsRequested : String × ChaincodeEvent → Type 0
  IsRequested (k, y) = (y.tx_id ≡ k) × In k txids

  -- A block stands under its own hash, and its events were asked for.
  abbrev pub IsFound : String × BlockData → Type 0
  IsFound (hash, info) =
      (info.fabric_block_hash ≡ hash) × (hash ≢ "") × All IsRequested info.event_map

  abbrev Within : Keys → Type 0
  Within keys = (z : String) → In z keys.array → In z txids

  abbrev IsSound : String → Keys × BlockData → Type 0
  IsSound hash (keys, info) = Within keys × IsFound (hash, info)

  keep_event-IsSound :
      (hash : String) (y : ChaincodeEvent) (left : Option Keys) (s : Keys × BlockData)
      → WasIn y.tx_id s.0.array (array_of left)
      → IsSound hash s
      → IsSound hash (keep_event y left s)
  keep_event-IsSound hash y none s was sound = sound
  keep_event-IsSound hash y (some keys) (old, info) (was, all) (within, (same, full, events)) = (
    λ z i. within z (all z i),
    (same, full, insert-All IsRequested y.tx_id y info.event_map (refl, within y.tx_id was) events),
  )

  take_events-IsSound :
      (hash : String) (events : List ChaincodeEvent) (s : Keys × BlockData)
      → IsSound hash s
      → IsSound hash (take_events events s)
  unfolding take_events
  take_events-IsSound hash [] s sound = sound
  take_events-IsSound hash (y ∷ events) s sound =
      let left = check_and_remove s.0 y.tx_id in
      take_events-IsSound hash events (keep_event y left s)
        (keep_event-IsSound hash y left s (check_and_remove-WasIn s.0 y.tx_id) sound)

  take_found-IsSound :
      (hash : String) (events : Result (List ChaincodeEvent)) (s : Keys × BlockData)
      → IsSound hash s
      → IsSound hash (take_found events s)
  take_found-IsSound hash (err e) s sound = sound
  take_found-IsSound hash (ok events) s sound = take_events-IsSound hash events s sound

  abbrev AreSound : Keys × Infos → Type 0
  AreSound (keys, infos) = Within keys × All IsFound infos

  known_or-IsFound :
      (hash : String) (new : BlockData) (infos : Infos) (known : Option BlockData)
      → lookup hash infos ≡ known
      → IsFound (hash, new)
      → All IsFound infos
      → IsFound (hash, known_or new known)
  known_or-IsFound hash new infos none e fresh all = fresh
  known_or-IsFound hash new infos (some info) e fresh all = lookup-All IsFound hash info infos all e

  module _ {World : Type 0} (network : Network World) (protos : Protos) (policy : Policy)
      (sdk : Sdk) (chain_id : String) where
    take_channel-IsSound :
        (hash : String) (tx : protos.Payload) (kind : Result ℤ) (s : Keys × BlockData) (w : World)
        → IsSound hash s
        → After (IsSound hash) (take_channel network protos policy sdk chain_id tx kind s w).0
    take_channel-IsSound hash tx (err e) s w sound = sound
    take_channel-IsSound hash tx (ok kind) s w sound =
        then_run-After (λ a. Unit {0}) (IsSound hash) (get_chain_code_events protos tx w).0
          (λ events. pure (take_found events s)) (get_chain_code_events protos tx w).1 (any-After _)
          (λ events t u. take_found-IsSound hash events s sound)

    take_payload-IsSound :
        (hash : String) (tx : Option protos.Payload) (s : Keys × BlockData) (w : World)
        → IsSound hash s
        → After (IsSound hash) (take_payload network protos policy sdk chain_id tx s w).0
    take_payload-IsSound hash none s w sound = sound
    take_payload-IsSound hash (some tx) s w sound =
        then_run-After (λ a. Unit {0}) (IsSound hash)
          (or_panic (protos.channel_header tx) nil_pointer w).0
          (λ bytes.
            take_channel network protos policy sdk chain_id tx
              (protos.unmarshal_channel_header bytes) s)
          (or_panic (protos.channel_header tx) nil_pointer w).1 (any-After _)
          (λ bytes t u.
            take_channel-IsSound hash tx (protos.unmarshal_channel_header bytes) s t sound)

    take_transactions-IsSound :
        (hash : String) (rs : List String) (s : Keys × BlockData) (w : World)
        → IsSound hash s
        → After (IsSound hash) (take_transactions network protos policy sdk chain_id rs s w).0
    unfolding take_transactions
    take_transactions-IsSound hash [] s w sound = sound
    take_transactions-IsSound hash (r ∷ rs) s w sound =
        let run = take_payload network protos policy sdk chain_id (protos.get_tx_payload r) s w in
        then_run-After (IsSound hash) (IsSound hash) run.0
          (take_transactions network protos policy sdk chain_id rs) run.1
          (take_payload-IsSound hash (protos.get_tx_payload r) s w sound)
          (λ left t u. take_transactions-IsSound hash rs left t u)

    take_block-AreSound :
        (block : protos.Block) (s : Keys × Infos) (w : World)
        → AreSound s
        → After AreSound (take_block network protos policy sdk chain_id block s w).0
    unfolding take_block
    take_block-AreSound block (keys, infos) w (within, all) =
        elim (Option-cases (protos.header block)) [
          | inl missing ↦ rw missing tt
          | inr (head, present) ↦ elim (Bool-cases (protos.hex head.data_hash == "")) [
            | inl empty ↦ rw (present, empty) (within, all)
            | inr full ↦ elim (Option-cases (protos.envelopes block)) [
              | inl missing ↦ rw (present, full, missing) tt
              | inr (rs, listed) ↦
                  let hash = protos.hex head.data_hash in
                  let new = new_block_data network protos policy sdk chain_id block hash head in
                  let ne : hash ≢ "" = λ e. ground (arith, eq_iff hash "") in
                  let known = lookup hash infos in
                  let s : Keys × BlockData = (keys, known_or new known) in
                  let run = take_transactions network protos policy sdk chain_id rs s w in
                  rw (present, full, listed)
                    (then_run-After (IsSound hash) AreSound run.0
                      (λ taken. pure (taken.0, insert hash taken.1 infos)) run.1
                      (take_transactions-IsSound hash rs s w
                        (within, known_or-IsFound hash new infos known refl (refl, ne, tt) all))
                      (λ taken t sound.
                        (sound.0, insert-All IsFound hash taken.1 infos sound.1 all)))
            ]
          ]
        ]

    walk-IsFound :
        (rounds i : ℕ) (s : Keys × Infos) (w : World)
        → AreSound s
        → After (λ r. All IsFound r.0) (walk network protos policy sdk chain_id rounds i s w).0
    unfolding walk
    walk-IsFound zero i (keys, infos) w sound = sound.1
    walk-IsFound (suc rounds) i (keys, infos) w sound =
        elim (Option-cases (get_elem? keys.array i)) [
          | inl outside ↦ rw outside tt
          | inr (txid, at) ↦ elim (Bool-cases (txid == "")) [
            | inl empty ↦ rw (at, empty) sound.1
            | inr full ↦
                let run = get_block_by_txid network protos policy sdk chain_id txid w in
                let s : Keys × Infos = (keys, infos) in
                let next : protos.Block → Go World (Infos × Option Error) = λ block.
                  take_block network protos policy sdk chain_id block s
                  >>= walk network protos policy sdk chain_id rounds (suc i) in
                rw (at, full)
                  (then_run-After (λ a. Unit {0}) (λ r. All IsFound r.0) run.0
                    (λ found. or_return network protos policy sdk chain_id infos found next) run.1
                    (any-After _)
                    (λ found t u.
                      elim found
                        as (λ x.
                          After (λ r. All IsFound r.0)
                            (or_return network protos policy sdk chain_id infos x next t).0) [
                              | err e ↦ sound.1
                              | ok block ↦
                                  let taken =
                                    take_block network protos policy sdk chain_id block s t in
                                  then_run-After AreSound (λ r. All IsFound r.0) taken.0
                                    (walk network protos policy sdk chain_id rounds (suc i)) taken.1
                                    (take_block-AreSound block s t sound)
                                    (λ left t' v. walk-IsFound rounds (suc i) left t' v)
                            ]))
          ]
        ]

    -- Whatever the network answers, if GetBlockByTxids returns at all, with an error or without,
    -- then every block stands under its own hash, which is not empty, and every event of a block
    -- stands under its own transaction, which is one of those that were asked for.
    pub get_block_by_txids-IsFound :
        (w : World)
        → After
            (λ r. All IsFound r.0)
            (get_block_by_txids network protos policy sdk chain_id txids w).0
    unfolding get_block_by_txids
    get_block_by_txids-IsFound w =
        walk-IsFound (length txids) 0 (record { array = txids; len = length txids }, []) w
          ((λ z i. i), tt)
