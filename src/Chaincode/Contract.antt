-- ===== src/Chaincode/Contract.antt =====
-- chaincode/chaincode.go: Init and Invoke.
pub mod Writes
pub mod Save
pub mod Iterators
pub mod Refuse
pub mod Alive
pub mod Stored
pub mod Query
use test_fabric.Base.{
  String, Option, none, some, List, ◌∷◌, Error, State, ◌>>=◌, pure, ◌==◌, if◌then◌else◌,
}
use test_fabric.Chaincode.Shim.{Shim, Codec, Response, success, failure}
use test_fabric.Chaincode.Handler.{Args, keepalive_test, save_data, dsl_query, keepalive_query}

-- `len(args) < 2 || len(args[1]) == 0` is the refusal; else the two arguments that are used.
unfoldable pub check_args : List String → Option Args
check_args (track_id ∷ request ∷ rest) =
    if request == "" then none else some (record { track_id = track_id; request = request })
check_args _ = none

-- The two ends of `Init` and of `Invoke`.
abbrev pub init_response : Option Error → Response
init_response none = success "SUCCESS"
init_response (some e) = failure e

abbrev pub respond : String × Option Error → Response
respond (payload, none) = success payload
respond (payload, some e) = failure e

module _ (shim : Shim) where
  open shim use {Stub, put_state}

  unfoldable pub init : State Stub Response
  init = do failed ← put_state keepalive_test keepalive_test; pure (init_response failed)

module _ (shim : Shim) (codec : Codec) where
  open shim use {Stub}

  abbrev pub HandlerFunc : Type 0
  HandlerFunc = String → Args → State Stub (String × Option Error)

  -- `funcHandler[function]`
  unfoldable pub func_handler : String → Option HandlerFunc
  func_handler function =
      if function == "SaveData"
      then some (save_data shim codec)
      else if function == "DslQuery"
      then some (dsl_query shim codec)
      else if function == "KeepaliveQuery"
      then some (keepalive_query shim codec)
      else none

  abbrev pub call : Option HandlerFunc → String → Args → State Stub Response
  call none function args = pure (failure "the function name not exist!!")
  call (some handler) function args = do result ← handler function args; pure (respond result)

  abbrev pub invoke_checked : Option Args → String → State Stub Response
  invoke_checked none function = pure (failure "the invoke args length < 2 or arg[1] is empty")
  invoke_checked (some args) function = call (func_handler function) function args

  unfoldable pub invoke : String → List String → State Stub Response
  unfolding check_args func_handler
  invoke function args = invoke_checked (check_args args) function
