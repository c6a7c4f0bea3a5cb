-- ===== src/Apiserver/Sdk/BlockQuery/Rows.antt =====
-- What BlockQuery and BlockQueryEx can answer, whatever the network answers to them.
use test_fabric.Base.{
  map, String, ◌≡◌, refl, ◌≢◌, ◌⊎◌, inl, inr, Option, none, some, List, [], ◌∷◌, Error, In, All,
  All-append, subst, sym,
}
use test_fabric.Base.Int.{pos}
use test_fabric.Base.Go.{After, then_run-After, pure}
use test_fabric.Apiserver.Define.{
  BlockchainData, BlockDataObj, Payload, nil, rows, blocks, factors, texts,
}
use test_fabric.Apiserver.Sdk.Peers.{Policy, Sdk, Network}
use test_fabric.Apiserver.Sdk.Events.{ChaincodeEvent, Protos}
use test_fabric.Apiserver.Sdk.Blocks.{BlockData, Infos, get_block_by_txids}
use test_fabric.Apiserver.Sdk.Blocks.Requested.{IsRequested, IsFound, get_block_by_txids-IsFound}
use test_fabric.Apiserver.Sdk.BlockQuery.{
  analysis_cc_event, cal_hash, EventCodec, Answer, row_of, event_rows, info_rows, all_rows,
  row_answer, decoded_event, event_of, events_in, Temp, Taken, make_event, taken_blocks,
  read_blocks, all_blocks, block_answer, block_query, block_query_ex,
}

-- A failure without a payload, or a success with a payload that has the property; the error that
-- is returned beside it is nil.
abbrev pub IsAnswer : (Payload → Type 0) → Answer → Type 0
IsAnswer Q (contents, status, page, e) =
    (e ≡ none)
    × (((status.status_code ≡ pos 1) × (contents.payload ≡ nil))
        ⊎ ((status.status_code ≡ pos 0) × Q contents.payload))

module _ (codec : EventCodec) (txids : List String) where
  -- A row of a transaction that was asked for, in a block with a hash. What it calls the hash of
  -- the transaction is the hash of the text of the whole block.
  abbrev pub IsRow : BlockchainData → Type 0
  IsRow row =
      In row.tx_id txids × (row.block_hash ≢ "") × (row.tx_hash ≡ cal_hash codec row.block_data)

  abbrev pub HasRows : Payload → Type 0
  HasRows nil = ⊥
  HasRows (rows list) = All IsRow list
  HasRows (blocks list) = ⊥
  HasRows (factors list) = ⊥
  HasRows (texts list) = ⊥

  abbrev pub IsBlock : BlockDataObj → Type 0
  IsBlock block = (block.block_hash ≢ "") × All (λ event. In event.tx_id txids) block.events

  abbrev pub HasBlocks : Payload → Type 0
  HasBlocks nil = ⊥
  HasBlocks (rows list) = ⊥
  HasBlocks (factors list) = ⊥
  HasBlocks (texts list) = ⊥
  HasBlocks (blocks list) = All IsBlock list

  requested : (k : String) (v : ChaincodeEvent) → IsRequested txids (k, v) → In v.tx_id txids
  requested k v (same, asked) = subst (λ t. In t txids) (sym same) asked

  full :
      (hash : String) (info : BlockData) → IsFound txids (hash, info) → info.fabric_block_hash ≢ ""
  full hash info (same, ne, all) = subst (λ h. h ≢ "") (sym same) ne

  row_of-IsRow :
      (info : BlockData) (v : ChaincodeEvent) (decoded : BlockchainData × Option Error)
      → info.fabric_block_hash ≢ ""
      → In v.tx_id txids
      → All IsRow (row_of codec info v decoded)
  row_of-IsRow info v (temp_data, some e) ne asked = tt
  row_of-IsRow info v (temp_data, none) ne asked = ((asked, ne, refl), tt)

  event_rows-IsRow :
      (info : BlockData) (v : ChaincodeEvent) (messages : List String × Option Error)
      → info.fabric_block_hash ≢ ""
      → In v.tx_id txids
      → All IsRow (event_rows codec info v messages)
  event_rows-IsRow info v (ms, some e) ne asked = tt
  event_rows-IsRow info v ([], none) ne asked = tt
  event_rows-IsRow info v (m ∷ [], none) ne asked =
      row_of-IsRow info v (codec.decode_row m) ne asked
  event_rows-IsRow info v (m ∷ n ∷ ms, none) ne asked = tt

  info_rows-IsRow :
      (info : BlockData) (m : List (String × ChaincodeEvent))
      → info.fabric_block_hash ≢ ""
      → All (IsRequested txids) m
      → All IsRow (info_rows codec info m)
  unfolding info_rows
  info_rows-IsRow info [] ne all = tt
  info_rows-IsRow info ((k, v) ∷ m) ne (first, all) =
      All-append IsRow (event_rows codec info v (analysis_cc_event codec v.payload))
        (info_rows codec info m)
        (event_rows-IsRow info v (analysis_cc_event codec v.payload) ne (requested k v first))
        (info_rows-IsRow info m ne all)

  all_rows-IsRow : (infos : Infos) → All (IsFound txids) infos → All IsRow (all_rows codec infos)
  unfolding all_rows
  all_rows-IsRow [] all = tt
  all_rows-IsRow ((hash, info) ∷ infos) (first, all) =
      All-append IsRow (info_rows codec info info.event_map) (all_rows codec infos)
        (info_rows-IsRow info info.event_map (full hash info first) first.2)
        (all_rows-IsRow infos all)

  pub row_answer-IsAnswer :
      (found : Infos × Option Error)
      → All (IsFound txids) found.0
      → IsAnswer HasRows (row_answer codec found)
  row_answer-IsAnswer (infos, some e) all = (refl, inl (refl, refl))
  row_answer-IsAnswer (infos, none) all = (refl, inr (refl, all_rows-IsRow infos all))

  abbrev IsAsked : Taken codec → Type 0
  IsAsked (v, factor) = In v.tx_id txids

  decoded_event-IsAsked :
      (v : ChaincodeEvent) (decoded : codec.FactorValue × codec.Memory × Option Error)
      → In v.tx_id txids
      → All IsAsked (decoded_event codec v decoded).1
  decoded_event-IsAsked v (factor, memory, some e) asked = tt
  decoded_event-IsAsked v (factor, memory, none) asked = (asked, tt)

  event_of-IsAsked :
      (v : ChaincodeEvent) (messages : List String × Option Error) (temp : Temp codec)
      → In v.tx_id txids
      → All IsAsked (event_of codec v messages temp).1
  event_of-IsAsked v (ms, some e) temp asked = tt
  event_of-IsAsked v ([], none) temp asked = tt
  event_of-IsAsked v (m ∷ ms, none) (factor, memory) asked =
      decoded_event-IsAsked v (codec.decode_factor m factor memory) asked

  events_in-IsAsked :
      (m : List (String × ChaincodeEvent)) (temp : Temp codec)
      → All (IsRequested txids) m
      → All IsAsked (events_in codec m temp).1
  unfolding events_in
  events_in-IsAsked [] temp all = tt
  events_in-IsAsked ((k, v) ∷ m) temp (first, all) =
      let here = event_of codec v (analysis_cc_event codec v.payload) temp in
      All-append IsAsked here.1 (events_in codec m here.0).1
        (event_of-IsAsked v (analysis_cc_event codec v.payload) temp (requested k v first))
        (events_in-IsAsked m here.0 all)

  make_event-IsAsked :
      (memory : codec.Memory) (taken : List (Taken codec))
      → All IsAsked taken
      → All (λ event. In event.tx_id txids) (map (make_event codec memory) taken)
  make_event-IsAsked memory [] all = tt
  make_event-IsAsked memory ((v, factor) ∷ taken) (first, all) =
      (first, make_event-IsAsked memory taken all)

  taken_blocks-IsBlock :
      (infos : Infos) (temp : Temp codec) (memory : codec.Memory)
      → All (IsFound txids) infos
      → All IsBlock (read_blocks codec memory (taken_blocks codec infos temp).1)
  unfolding taken_blocks
  taken_blocks-IsBlock [] temp memory all = tt
  taken_blocks-IsBlock ((hash, info) ∷ infos) temp memory (first, all) =
      let taken = events_in codec info.event_map temp in
      (
        (
          full hash info first,
          make_event-IsAsked memory taken.1 (events_in-IsAsked info.event_map temp first.2),
        ),
        taken_blocks-IsBlock infos taken.0 memory all,
      )

  all_blocks-IsBlock :
      (infos : Infos) → All (IsFound txids) infos → All IsBlock (all_blocks codec infos)
  unfolding all_blocks
  all_blocks-IsBlock infos all =
      let temp : Temp codec = (codec.empty_factor, codec.start) in
      taken_blocks-IsBlock infos temp (taken_blocks codec infos temp).0.1 all

  pub block_answer-IsAnswer :
      (found : Infos × Option Error)
      → All (IsFound txids) found.0
      → IsAnswer HasBlocks (block_answer codec found)
  block_answer-IsAnswer (infos, some e) all = (refl, inl (refl, refl))
  block_answer-IsAnswer (infos, none) all = (refl, inr (refl, all_blocks-IsBlock infos all))

  module _ {World : Type 0} (network : Network World) (protos : Protos) (policy : Policy)
      (sdk : Sdk) (chain_id : String) (w : World) where
    -- Whatever the network answers, if BlockQuery returns at all, its error is nil; either its
    -- status is 1 and it has no payload, or its status is 0 and each row of its payload is about a
    -- transaction that was asked for, in a block with a hash that is not empty.
    pub block_query-IsAnswer :
        After (IsAnswer HasRows) (block_query codec network protos policy sdk chain_id txids w).0
    unfolding block_query
    block_query-IsAnswer =
        let run = get_block_by_txids network protos policy sdk chain_id txids w in
        then_run-After (λ r. All (IsFound txids) r.0) (IsAnswer HasRows) run.0
          (λ info. pure (row_answer codec info)) run.1
          (get_block_by_txids-IsFound txids network protos policy sdk chain_id w)
          (λ info t all. row_answer-IsAnswer info all)

    -- Whatever the network answers, if BlockQueryEx returns at all, its error is nil; either its
    -- status is 1 and it has no payload, or its status is 0 and each block of its payload has a
    -- hash that is not empty and only events of transactions that were asked for.
    pub block_query_ex-IsAnswer :
        After
          (IsAnswer HasBlocks)
          (block_query_ex codec network protos policy sdk chain_id txids w).0
    unfolding block_query_ex
    block_query_ex-IsAnswer =
        let run = get_block_by_txids network protos policy sdk chain_id txids w in
        then_run-After (λ r. All (IsFound txids) r.0) (IsAnswer HasBlocks) run.0
          (λ info. pure (block_answer codec info)) run.1
          (get_block_by_txids-IsFound txids network protos policy sdk chain_id w)
          (λ info t all. block_answer-IsAnswer info all)
