-- ===== src/Chaincode/Handler.antt =====
-- chaincode/handler/handler.go: the three functions that a transaction can call. `Args` holds the
-- two arguments that they index, `args[0]` and `args[1]`.
use Prim.Native.String.{◌++◌}
use test_fabric.Base.{
  String, true, false, Option, none, some, [], ◌∷◌, Error, State, ◌>>=◌, pure, gets, ◌==◌,
  if◌then◌else◌,
}
use test_fabric.Chaincode.Define.{InvokeRequest, QueryRequest, nil, strings}
use test_fabric.Chaincode.Shim.{Shim, Codec}
use test_fabric.Chaincode.Reply.{invoke_response, query_response}
use test_fabric.Chaincode.Paging.{Found, get_value_by_dsl}

abbrev pub keepalive_test : String
keepalive_test = "test"

-- `&define.InvokeRequest{}` and `&define.QueryRequest{}`.
abbrev pub no_invoke : InvokeRequest
no_invoke = record { key = ""; value = "" }

abbrev pub no_query : QueryRequest
no_query = record {
  dsl_syntax = "";
  split_page = record { current_page = 0; page_size = 0; total_records = 0 };
  block_flag = false;
}

pub record Args : Type 0 where
  pub track_id : String
  pub request : String

module _ (shim : Shim) (codec : Codec) where
  open shim use {Stub, put_state, get_state}
  open codec use {decode_invoke, decode_query}

  -- `SaveData` from `PutState` on.
  abbrev pub report_saved :
      String → Args → String → Option Error → State Stub (String × Option Error)
  report_saved function args value (some e) =
      invoke_response shim codec (some e) function nil false args.track_id
  report_saved function args value none =
      invoke_response shim codec none function (strings (value ∷ [])) true args.track_id

  abbrev pub save_decoded :
      String → Args → InvokeRequest × Option Error → State Stub (String × Option Error)
  save_decoded function args (request, some e) =
      invoke_response shim codec (some e) function nil false args.track_id
  save_decoded function args (request, none) = do
    failed ← put_state request.key request.value
    report_saved function args request.value failed

  unfoldable pub save_data : String → Args → State Stub (String × Option Error)
  unfolding invoke_response
  save_data function args = save_decoded function args (decode_invoke args.request no_invoke)

  -- `DslQuery` behind its decoding.
  abbrev pub reply_found : Args → Found → String × Option Error
  reply_found args (result, some e, request) =
      query_response codec (some e) nil request.split_page args.track_id
  reply_found args (result, none, request) =
      query_response codec none result request.split_page args.track_id

  abbrev pub query_decoded : Args → QueryRequest × Option Error → State Stub (String × Option Error)
  query_decoded args (request, some e) = pure (
      query_response codec (some ("DslQuery json decode args failed, err = " ++ e)) nil
        request.split_page args.track_id)
  query_decoded args (request, none) = do
    found ← get_value_by_dsl shim request
    pure (reply_found args found)

  unfoldable pub dsl_query : String → Args → State Stub (String × Option Error)
  unfolding query_response get_value_by_dsl
  dsl_query function args = query_decoded args (decode_query args.request no_query)

  abbrev pub keepalive_reply : String × Option Error → String × Option Error
  keepalive_reply (value, some e) =
      ("UnReached", some ("ERROR! KeepaliveQuery get failed, err = " ++ e))
  keepalive_reply (value, none) =
      if value == keepalive_test
      then ("Reached", none)
      else ("UnReached", some ("ERROR! KeepaliveQuery get result is " ++ value))

  unfoldable pub keepalive_query : String → Args → State Stub (String × Option Error)
  keepalive_query function args = gets (λ s. keepalive_reply (get_state keepalive_test s))
