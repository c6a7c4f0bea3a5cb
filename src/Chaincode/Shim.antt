-- ===== src/Chaincode/Shim.antt =====
-- What the chaincode takes from outside: the shim of the peer (ChaincodeStubInterface) and
-- encoding/json at the types that chaincode/ passes to it. Both are parameters of the model.
use test_fabric.Base.{String, List, Option, Error, Result, State}
use test_fabric.Chaincode.Define.{InvokeRequest, InvokeResponse, QueryRequest, QueryResponse}

-- One record of a query's result.
pub record Kv : Type 0 where
  pub key : String
  pub value : String

-- The stub of one transaction. `Stub` is its state: the writes so far, the event, the open
-- iterators. A result iterator is the list of what its calls of `Next` return.
pub record Shim : Type 1 where
  pub Stub : Type 0
  pub put_state : String → String → State Stub (Option Error)
  pub get_state : String → Stub → String × Option Error
  pub get_query_result : String → State Stub (Result (List (Result Kv)))
  pub close_iterator : State Stub (Unit {0})
  pub set_event : String → String → State Stub (Option Error)

-- `json.Unmarshal` writes into a given value, also when it fails half way; `json.Marshal` returns
-- the text and an error.
pub record Codec : Type 0 where
  pub decode_invoke : String → InvokeRequest → InvokeRequest × Option Error
  pub decode_query : String → QueryRequest → QueryRequest × Option Error
  pub encode_invoke : InvokeResponse → String × Option Error
  pub encode_query : QueryResponse → String × Option Error

-- What `shim.Success` and `shim.Error` make, the peer's response.
pub data Response : Type 0 where
  success : String → Response
  failure : Error → Response
