-- ===== src/Apiserver/Define.antt =====
-- apiserver/define: the records of the business, and the types that the server shares with the
-- chaincode. A string and a []byte are both a `String`, read byte by byte.
use test_fabric.Base.{ℕ, String, Bool, List}
use test_fabric.Base.Int.{ℤ}

pub record InvokeRequest : Type 0 where
  pub key : String
  pub value : String

pub record Page : Type 0 where
  pub current_page : ℕ
  pub page_size : ℕ
  pub total_records : ℕ

pub record ResponseStatus : Type 0 where
  pub status_code : ℤ
  pub status_msg : String

pub record QueryRequest : Type 0 where
  pub dsl_syntax : String
  pub split_page : Page
  pub block_flag : Bool

pub record Factor : Type 0 where
  pub create_by : String
  pub create_time : ℕ
  pub sender : String
  pub receiver : List String
  pub tx_data : String
  pub last_update_time : ℕ
  pub last_update_by : String
  pub crypto_flag : ℤ
  pub crypto_algorithm : String
  pub doc_type : String
  pub fabric_tx_id : String
  pub business_no : String
  pub expand1 : String
  pub expand2 : String
  pub data_version : String

-- A map from a user to the key of a message, encrypted for that user. A key stands once.
pub record PeersafeData : Type 0 where
  pub keys : List (String × String)

-- A Go struct embeds the factor: `message.TxData` is `message.Factor.TxData`.
pub record Message : Type 0 where
  pub factor : Factor
  pub peersafe_data : PeersafeData

abbrev pub crypto_path : String
crypto_path = "./crypto/"

pub record StateEntity : Type 0 where
  pub change_event : String
  pub pre_state : String
  pub curr_state : String

pub record BlockchainData : Type 0 where
  pub tx_id : String
  pub tx_hash : String
  pub block_hash : String
  pub block_height : ℕ
  pub bidbond : String
  pub bid : String
  pub progress : String
  pub create_by : String
  pub create_time : ℕ
  pub sender : String
  pub receiver : List String
  pub last_update_time : ℕ
  pub last_update_by : String
  pub block_data : String
  pub remark : String
  pub status : StateEntity

-- The payload of an event is a factor.
pub record Events : Type 0 where
  pub chaincode_id : String
  pub tx_id : String
  pub event_name : String
  pub payload : Factor

pub record BlockDataObj : Type 0 where
  pub block_hash : String
  pub block_height : ℕ
  pub previous_hash : String
  pub events : List Events

-- The `interface{}` of an answer: nil, one of the two lists of blocks, a list of factors,
-- or a list of texts.
pub data Payload : Type 0 where
  nil : Payload
  rows : List BlockchainData → Payload
  blocks : List BlockDataObj → Payload
  factors : List Factor → Payload
  texts : List String → Payload

pub record QueryContents : Type 0 where
  pub schema : String
  pub payload : Payload

-- The payload is what the `interface{}` points to: a list of texts.
pub record QueryResponse : Type 0 where
  pub track_id : String
  pub response_status : ResponseStatus
  pub page : Page
  pub payload : List String

-- The payload is what the `interface{}` points to: a list of texts.
pub record InvokeResponse : Type 0 where
  pub track_id : String
  pub res_status : ResponseStatus
  pub payload : List String
