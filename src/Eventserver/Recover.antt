-- ===== src/Eventserver/Recover.antt =====
-- eventserver/handle/handleevent.go: the height of the ledger, and the blocks that were missed.
pub mod Missed
pub mod Restart
use Prim.Native.String.{◌++◌}
use test_fabric.Base.{
  ℕ, zero, suc, ◌+◌, ◌-◌, String, Bool, true, false, Option, none, some, List, [], ◌∷◌, Error,
  Result, ok, err, State,
}
use test_fabric.Base.Go.{Go, ◌>>=◌, ◌>>◌, pure, panic, call, or_panic}
use test_fabric.Eventserver.Progress.{
  BlockInfo, BlockInfoAll, Disk, get_block_info, start_number, record_events,
}

-- A peer's response of gohfc: its error, and the payload behind its two pointers, none if one of
-- them is nil.
pub record PeerResponse : Type 0 where
  pub error : Option Error
  pub payload : Option String

-- gohfc's QueryByQscc, and the protocol buffers that are unmarshalled.
pub record Chain (World : Type 0) : Type 1 where
  pub query_by_qscc : List String → List String → State World (Result (List PeerResponse))
  pub format_uint : ℕ → String
  pub Block : Type 0
  pub unmarshal_block : String → Result Block
  -- `block.Header.Number`
  pub number : Block → Option ℕ
  pub unmarshal_height : String → Result ℕ

abbrev pub nil_pointer : Error
nil_pointer = "invalid memory address or nil pointer dereference"

module _ {World : Type 0} (chain : Chain World) where
  open chain use {query_by_qscc, format_uint, Block, unmarshal_block, number, unmarshal_height}

  abbrev pub unmarshalled : Result Block → Result Block
  unmarshalled (ok block) = ok block
  unmarshalled (err e) = err ("GetBlockByNumber Unmarshal from payload failed: " ++ e)

  -- The first response's error, or the block in its payload.
  abbrev pub block_in : Option Error → Option String → Go World (Result Block)
  block_in (some e) payload = pure (err e)
  block_in none payload = do
    bytes ← or_panic payload nil_pointer
    pure (unmarshalled (unmarshal_block bytes))

  abbrev pub block_of : Result (List PeerResponse) → Go World (Result Block)
  block_of (err e) = pure (err ("can not get installed chaincodes :" ++ e))
  block_of (ok []) = pure (err "GetBlockByNumber empty response from peer")
  block_of (ok (resp ∷ resps)) = block_in resp.error resp.payload

  unfoldable pub get_block_by_number : String → ℕ → Go World (Result Block)
  get_block_by_number chain_id block_num = do
    resps ←
        call (
          query_by_qscc ("GetBlockByNumber" ∷ chain_id ∷ format_uint block_num ∷ []) ("peer0" ∷ []))
    block_of resps

  abbrev pub known_height : Result ℕ → Option ℕ
  known_height (ok height) = some height
  known_height (err e) = none

  abbrev pub height_in : Option Error → Option String → Go World (Option ℕ)
  height_in (some e) payload = pure none
  height_in none payload = do
    bytes ← or_panic payload nil_pointer
    pure (known_height (unmarshal_height bytes))

  abbrev pub height_of : Result (List PeerResponse) → Go World (Option ℕ)
  height_of (err e) = pure none
  height_of (ok []) = pure none
  height_of (ok (resp ∷ resps)) = height_in resp.error resp.payload

  -- GetBlockHeight: the height that it stores, none if it returns false.
  unfoldable pub get_block_height : String → Go World (Option ℕ)
  get_block_height chain_id = do
    resps ← call (query_by_qscc ("GetChainInfo" ∷ chain_id ∷ []) ("peer" ∷ []))
    height_of resps

  -- A block that came is only printed; `true` stands for the loop's going on.
  abbrev pub print_number : Result Block → Go World Bool
  print_number (err e) = pure false
  print_number (ok block) = do n ← or_panic (number block) nil_pointer; pure true

  abbrev pub if_true : Bool → Go World Bool → Go World Bool
  if_true true next = next
  if_true false next = pure false

  -- The loop over the blocks from a number on, for the rounds that are left.
  unfoldable pub recover : String → ℕ → ℕ → Go World Bool
  recover chain_id zero current = pure true
  recover chain_id (suc rounds) current = do
    block ← get_block_by_number chain_id current
    came ← print_number block
    if_true came (recover chain_id rounds (current + 1))

  abbrev pub listen_if : Disk World → List BlockInfoAll → Bool → Go World (Unit {0})
  listen_if disk from_listen true = call (record_events disk from_listen)
  listen_if disk from_listen false = pure tt

  -- CheckAndRecoverEvent with the messages that come while it runs. The loop's counter goes from
  -- the stored number up to the height, so it has as many rounds as lie between them.
  unfoldable pub check_and_recover :
      Disk World → Bool → String → ℕ → BlockInfo → List BlockInfoAll → Go World (Unit {0})
  unfolding recover get_block_info record_events
  check_and_recover disk false chain_id height info from_listen = pure tt
  check_and_recover disk true chain_id height info from_listen = do
    read ← call (get_block_info disk info)
    let start = start_number disk read
    came ← recover chain_id (height - start) start
    listen_if disk from_listen came
