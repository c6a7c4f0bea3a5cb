-- ===== src/Chaincode/Define.antt =====
-- chaincode/define/define.go: the requests and responses that travel as JSON. A Go string and a
-- []byte are both a `String`, read byte by byte: the conversions between them change no byte.
use test_fabric.Base.{ℕ, String, Bool, List}
use test_fabric.Base.Int.{ℤ}

pub record InvokeRequest : Type 0 where
  pub key : String
  pub value : String

-- `uint` has 64 bits on the platforms that the peers run on.
abbrev pub uint_size : ℕ
uint_size = 18446744073709551616

pub record Page : Type 0 where
  pub current_page : ℕ
  pub page_size : ℕ
  pub total_records : ℕ

pub record ResponseStatus : Type 0 where
  pub status_code : ℤ
  pub status_msg : String

-- The values that the chaincode stores in an `interface{}` payload.
pub data Payload : Type 0 where
  nil : Payload
  strings : List String → Payload

pub record InvokeResponse : Type 0 where
  pub track_id : String
  pub res_status : ResponseStatus
  pub payload : Payload

pub record QueryRequest : Type 0 where
  pub dsl_syntax : String
  pub split_page : Page
  pub block_flag : Bool

pub record QueryResponse : Type 0 where
  pub track_id : String
  pub res_status : ResponseStatus
  pub page : Page
  pub payload : Payload
