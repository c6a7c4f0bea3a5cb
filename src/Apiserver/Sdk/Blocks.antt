-- ===== src/Apiserver/Sdk/Blocks.antt =====
-- apiserver/sdk/sdk.go: GetBlockByTxids, which asks for the blocks of transactions and gathers
-- their events.
pub mod Requested
pub mod Returns
mod Tests
use Prim.Native.String.{◌++◌ as str_append}
use test_fabric.Base.{
  ℕ, zero, suc, String, Option, none, some, List, [], ◌∷◌, Error, Result, ok, err, get_elem?,
  length, ◌==◌, if◌then◌else◌,
}
use test_fabric.Base.Int.{ℤ}
use test_fabric.Base.Go.{Go, ◌>>=◌, pure, panic, call, or_panic}
use test_fabric.Base.Dict.{lookup, insert}
use test_fabric.Apiserver.Message.{wrap}
use test_fabric.Apiserver.Sdk.Peers.{Policy, Sdk, Network, get_send_peer_name}
use test_fabric.Apiserver.Sdk.Keys.{Keys, check_and_remove}
use test_fabric.Apiserver.Sdk.Events.{
  ChaincodeEvent, BlockHeader, Protos, nil_pointer, get_chain_code_events,
}

pub record BlockData : Type 0 where
  pub fabric_block_data : String
  pub fabric_block_pre : String
  pub fabric_block_hash : String
  pub fabric_block_height : ℕ
  pub event_map : List (String × ChaincodeEvent)

-- `blockInfos`, and the variable `txids`.
abbrev pub Infos : Type 0
Infos = List (String × BlockData)

-- The body of the loop over a transaction's events.
abbrev pub keep_event : ChaincodeEvent → Option Keys → Keys × BlockData → Keys × BlockData
keep_event y none s = s
keep_event y (some keys) (old, info) =
    (keys, record info { event_map = insert y.tx_id y info.event_map })

unfoldable pub take_events : List ChaincodeEvent → Keys × BlockData → Keys × BlockData
unfolding check_and_remove
take_events [] s = s
take_events (y ∷ events) s = take_events events (keep_event y (check_and_remove s.0 y.tx_id) s)

abbrev pub known_or : BlockData → Option BlockData → BlockData
known_or new none = new
known_or new (some info) = info

abbrev pub take_found : Result (List ChaincodeEvent) → Keys × BlockData → Keys × BlockData
take_found (err e) s = s
take_found (ok events) s = take_events events s

module _ {World : Type 0} (network : Network World) (protos : Protos) (policy : Policy) (sdk : Sdk)
    (chain_id : String) where
  open network use {query_by_qscc}
  open protos use {
    Block, unmarshal_block, block_string, header, envelopes, hex, Payload, get_tx_payload,
    channel_header, unmarshal_channel_header,
  }

  -- What getBlockByTxid makes of the peer's answer.
  abbrev pub answered_block : Result (List (Option String)) → Go World (Result Block)
  answered_block (err e) =
      pure (err (str_append "Can not get installed chaincodes%!(EXTRA string=" (str_append e ")")))
  answered_block (ok []) = pure (err "Get empty responce from peer!")
  answered_block (ok (none ∷ resps)) = panic nil_pointer
  answered_block (ok (some payload ∷ resps)) =
      pure (wrap "Unmarshal from payload failed: " (unmarshal_block payload))

  abbrev pub ask_peer : String → List String → Go World (Result Block)
  ask_peer txid [] = pure (err "peerName is nil")
  ask_peer txid (peer ∷ peers) = do
    resps ← call (query_by_qscc ("GetBlockByTxID" ∷ chain_id ∷ txid ∷ []) (peer ∷ []))
    answered_block resps

  unfoldable pub get_block_by_txid : String → Go World (Result Block)
  unfolding get_send_peer_name
  get_block_by_txid txid = do
    peer_names ← get_send_peer_name network policy sdk
    ask_peer txid peer_names

  -- `new(BlockData)` and its fields.
  abbrev pub new_block_data : Block → String → BlockHeader → BlockData
  new_block_data block block_hash head = record {
    fabric_block_data = block_string block;
    fabric_block_pre = hex head.previous_hash;
    fabric_block_hash = block_hash;
    fabric_block_height = head.number;
    event_map = [];
  }

  abbrev pub take_channel : Payload → Result ℤ → Keys × BlockData → Go World (Keys × BlockData)
  take_channel tx (err e) s = pure s
  take_channel tx (ok kind) s = do
    events ← get_chain_code_events protos tx
    pure (take_found events s)

  abbrev pub take_payload : Option Payload → Keys × BlockData → Go World (Keys × BlockData)
  take_payload none s = pure s
  take_payload (some tx) s = do
    bytes ← or_panic (channel_header tx) nil_pointer
    take_channel tx (unmarshal_channel_header bytes) s

  -- The loop over `block.Data.Data`.
  unfoldable pub take_transactions : List String → Keys × BlockData → Go World (Keys × BlockData)
  unfolding take_events
  take_transactions [] s = pure s
  take_transactions (r ∷ rs) s = do s ← take_payload (get_tx_payload r) s; take_transactions rs s

  -- The body of the loop over `txids` from the block's hash on.
  unfoldable pub take_block : Block → Keys × Infos → Go World (Keys × Infos)
  unfolding take_transactions
  take_block block (keys, infos) = do
    head ← or_panic (header block) nil_pointer
    let block_hash = hex head.data_hash
    (if block_hash == "" then pure (keys, infos) else do
      rs ← or_panic (envelopes block) nil_pointer
      taken ←
          take_transactions rs
            (keys, known_or (new_block_data block block_hash head) (lookup block_hash infos))
      pure (taken.0, insert block_hash taken.1 infos))

  abbrev pub or_return :
      Infos
      → Result Block
      → (Block → Go World (Infos × Option Error))
      → Go World (Infos × Option Error)
  or_return infos (err e) next = pure (infos, some e)
  or_return infos (ok block) next = next block

  -- The loop over `txids`, for the rounds that are left: its element is read from the array, which
  -- the removals have changed; the number of rounds is the length that the slice had at first.
  unfoldable pub walk : ℕ → ℕ → Keys × Infos → Go World (Infos × Option Error)
  unfolding take_block get_block_by_txid
  walk zero i (keys, infos) = pure (infos, none)
  walk (suc rounds) i (keys, infos) = do
    txid ← or_panic (get_elem? keys.array i) "index out of range"
    (if txid == "" then pure (infos, none) else do
      found ← get_block_by_txid txid
      or_return infos found λ block. do s ← take_block block (keys, infos); walk rounds (suc i) s)

  unfoldable pub get_block_by_txids : List String → Go World (Infos × Option Error)
  unfolding walk
  get_block_by_txids txids =
      walk (length txids) 0 (record { array = txids; len = length txids }, [])
