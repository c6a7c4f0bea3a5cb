-- ===== src/Apiserver/Sdk/BlockQuery.antt =====
-- apiserver/sdk/sdk.go: BlockQuery and BlockQueryEx, which make answers of the blocks that
-- GetBlockByTxids found.
pub mod Rows
pub mod Returns
use test_fabric.Base.{
  ℕ, String, Option, none, some, List, [], ◌∷◌, ◌++◌, Error, nat_eq, length, map, if◌then◌else◌,
}
use test_fabric.Base.Int.{pos}
use test_fabric.Base.Go.{Go, ◌>>=◌, pure}
use test_fabric.Apiserver.Define.{
  Page, ResponseStatus, Factor, BlockchainData, Events, BlockDataObj, Payload, nil, rows, blocks,
  QueryResponse, QueryContents,
}
use test_fabric.Apiserver.Sdk.Peers.{Policy, Sdk, Network}
use test_fabric.Apiserver.Sdk.Events.{ChaincodeEvent, Protos}
use test_fabric.Apiserver.Sdk.Blocks.{BlockData, Infos, get_block_by_txids}

-- `json.Unmarshal` at the types that are read here, SHA3-224, and bytes in hexadecimal. A response
-- and a factor are written into the one that is there, also when the text does not decode to its
-- end. A factor has a slice, and decoding into it can write into the array behind it, which copies of
-- the factor share: a factor is a value together with the memory that it is read in.
pub record EventCodec : Type 1 where
  pub decode_response : String → QueryResponse → QueryResponse × Option Error
  pub decode_row : String → BlockchainData × Option Error
  pub Memory : Type 0
  pub FactorValue : Type 0
  pub start : Memory
  pub empty_factor : FactorValue
  pub decode_factor : String → FactorValue → Memory → FactorValue × Memory × Option Error
  pub read_factor : Memory → FactorValue → Factor
  pub sha3_224 : String → String
  pub hex : String → String

-- What the two functions return, their error included.
abbrev pub Answer : Type 0
Answer = QueryContents × ResponseStatus × Page × Option Error

abbrev pub no_page : Page
no_page = record { current_page = 0; page_size = 0; total_records = 0 }

-- `define.QueryResponse{}`, with no messages.
abbrev pub empty_response : QueryResponse
empty_response = record {
  track_id = "";
  response_status = record { status_code = pos 0; status_msg = "" };
  page = no_page;
  payload = [];
}

abbrev pub failed : Error → Answer
failed e = (
  record { schema = ""; payload = nil },
  record { status_code = pos 1; status_msg = e },
  no_page,
  none,
)

abbrev pub found : Payload → Answer
found payload = (
  record { schema = "/schema/blockList.json"; payload = payload },
  record { status_code = pos 0; status_msg = "SUCCESS" },
  no_page,
  none,
)

module _ (codec : EventCodec) where
  open codec use {
    decode_response, decode_row, Memory, FactorValue, start, empty_factor, decode_factor,
    read_factor, sha3_224, hex,
  }

  -- The texts that the response's payload points to, and the error of decoding it.
  abbrev pub analysed : QueryResponse × Option Error → List String × Option Error
  analysed (response_data, some e) = (response_data.payload, some e)
  analysed (response_data, none) = (response_data.payload, none)

  abbrev pub analysis_cc_event : String → List String × Option Error
  analysis_cc_event payload = analysed (decode_response payload empty_response)

  abbrev pub cal_hash : String → String
  cal_hash msg = hex (sha3_224 msg)

  abbrev pub make_row : BlockData → ChaincodeEvent → BlockchainData → BlockchainData
  make_row info v temp_data = record temp_data {
    tx_id = v.tx_id;
    tx_hash = cal_hash info.fabric_block_data;
    block_data = info.fabric_block_data;
    block_hash = info.fabric_block_hash;
    block_height = info.fabric_block_height;
  }

  abbrev pub row_of :
      BlockData → ChaincodeEvent → BlockchainData × Option Error → List BlockchainData
  row_of info v (temp_data, some e) = []
  row_of info v (temp_data, none) = make_row info v temp_data ∷ []

  -- The rows that an event adds to the list: only one message is taken.
  abbrev pub event_rows :
      BlockData → ChaincodeEvent → List String × Option Error → List BlockchainData
  event_rows info v (business_data, some e) = []
  event_rows info v (message ∷ [], none) = row_of info v (decode_row message)
  event_rows info v (business_data, none) = []

  unfoldable pub info_rows : BlockData → List (String × ChaincodeEvent) → List BlockchainData
  info_rows info [] = []
  info_rows info ((k, v) ∷ event_map) =
      event_rows info v (analysis_cc_event v.payload) ++ info_rows info event_map

  unfoldable pub all_rows : Infos → List BlockchainData
  unfolding info_rows
  all_rows [] = []
  all_rows ((hash, info) ∷ infos) = info_rows info info.event_map ++ all_rows infos

  abbrev pub row_answer : Infos × Option Error → Answer
  row_answer (infos, some e) = failed e
  row_answer (infos, none) = found (rows (all_rows infos))

  -- `tempFactor`, which is one variable for all events, and the memory.
  abbrev pub Temp : Type 0
  Temp = FactorValue × Memory

  -- An event's copy of the variable, and the event of the answer, which is read in the end.
  abbrev pub Taken : Type 0
  Taken = ChaincodeEvent × FactorValue

  abbrev pub make_event : Memory → Taken → Events
  make_event memory (v, temp_factor) = record {
    chaincode_id = v.chaincode_id;
    tx_id = v.tx_id;
    event_name = v.event_name;
    payload = read_factor memory temp_factor;
  }

  abbrev pub decoded_event :
      ChaincodeEvent → FactorValue × Memory × Option Error → Temp × List Taken
  decoded_event v (temp_factor, memory, some e) = ((temp_factor, memory), [])
  decoded_event v (temp_factor, memory, none) = ((temp_factor, memory), (v, temp_factor) ∷ [])

  -- The first message of an event.
  abbrev pub event_of : ChaincodeEvent → List String × Option Error → Temp → Temp × List Taken
  event_of v (business_data, some e) temp = (temp, [])
  event_of v ([], none) temp = (temp, [])
  event_of v (message ∷ messages, none) (temp_factor, memory) =
      decoded_event v (decode_factor message temp_factor memory)

  unfoldable pub events_in : List (String × ChaincodeEvent) → Temp → Temp × List Taken
  events_in [] temp = (temp, [])
  events_in ((k, v) ∷ event_map) temp =
      let first = event_of v (analysis_cc_event v.payload) temp in
      let rest = events_in event_map first.0 in (rest.0, first.1 ++ rest.1)

  abbrev pub make_block : BlockData → List Events → BlockDataObj
  make_block info events = record {
    block_hash = info.fabric_block_hash;
    block_height = info.fabric_block_height;
    previous_hash = info.fabric_block_pre;
    events = events;
  }

  -- The loop over the blocks: each one's events.
  unfoldable pub taken_blocks : Infos → Temp → Temp × List (BlockData × List Taken)
  unfolding events_in
  taken_blocks [] temp = (temp, [])
  taken_blocks ((hash, info) ∷ infos) temp =
      let taken = events_in info.event_map temp in
      let rest = taken_blocks infos taken.0 in (rest.0, (info, taken.1) ∷ rest.1)

  -- The blocks as they are read when all events have been decoded.
  abbrev pub read_blocks : Memory → List (BlockData × List Taken) → List BlockDataObj
  read_blocks memory [] = []
  read_blocks memory ((info, taken) ∷ list) =
      make_block info (map (make_event memory) taken) ∷ read_blocks memory list

  unfoldable pub all_blocks : Infos → List BlockDataObj
  unfolding taken_blocks
  all_blocks infos =
      let taken = taken_blocks infos (empty_factor, start) in read_blocks taken.0.1 taken.1

  abbrev pub block_answer : Infos × Option Error → Answer
  block_answer (infos, some e) = failed e
  block_answer (infos, none) = found (blocks (all_blocks infos))

  module _ {World : Type 0} (network : Network World) (protos : Protos) (policy : Policy)
      (sdk : Sdk) (chain_id : String) where
    unfoldable pub block_query : List String → Go World Answer
    unfolding all_rows get_block_by_txids
    block_query tx_id_list = do
      info ← get_block_by_txids network protos policy sdk chain_id tx_id_list
      pure (row_answer info)

    unfoldable pub block_query_ex : List String → Go World Answer
    unfolding all_blocks get_block_by_txids
    block_query_ex tx_id_list = do
      info ← get_block_by_txids network protos policy sdk chain_id tx_id_list
      pure (block_answer info)
