-- ===== src/Chaincode/Reply.antt =====
-- chaincode/utils/utils.go, InvokeResponse and QueryResponse: the two envelopes.
use test_fabric.Base.{String, Bool, Option, none, some, Error, State, ◌>>◌, pure, if◌then◌else◌}
use test_fabric.Base.Int.{pos}
use test_fabric.Chaincode.Define.{Page, Payload, ResponseStatus}
use test_fabric.Chaincode.Shim.{Shim, Codec}

-- The code and message that both functions compute from their error.
unfoldable pub status_of : Option Error → ResponseStatus
status_of none = record { status_code = pos 0; status_msg = "Success" }
status_of (some e) = record { status_code = pos 1; status_msg = e }

module _ (shim : Shim) (codec : Codec) where
  open shim use {Stub, set_event}
  open codec use {encode_invoke}

  -- A failed encoding and a failed `SetEvent` are only logged.
  unfoldable pub invoke_response :
      Option Error → String → Payload → Bool → String → State Stub (String × Option Error)
  unfolding status_of
  invoke_response error function payload event_flag trackid =
      let (text, _) =
        encode_invoke
          (record { track_id = trackid; payload = payload; res_status = status_of error }) in
      if event_flag then (do set_event function text; pure (text, error)) else pure (text, error)

module _ (codec : Codec) where
  open codec use {encode_query}

  -- `payload, err := json.Marshal(response)` stands in the block of the parameter `err` and
  -- assigns it: what is returned is the error of the encoding.
  unfoldable pub query_response : Option Error → Payload → Page → String → String × Option Error
  unfolding status_of
  query_response error payload page_item trackid = encode_query (record {
    track_id = trackid;
    payload = payload;
    res_status = status_of error;
    page = page_item;
  })
