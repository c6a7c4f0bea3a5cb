-- ===== src/Chaincode/Contract/Save.antt =====
-- What an invocation of SaveData does, on every branch.
use test_fabric.Base.{◌≡◌, ◌≢◌, String, Option, none, some, List, [], ◌∷◌, Error, eq-false_of_ne}
use test_fabric.Chaincode.Define.{InvokeRequest, InvokeResponse, Payload, strings}
use test_fabric.Chaincode.Shim.{Shim, Codec, success, failure}
use test_fabric.Chaincode.Reply.{status_of}
use test_fabric.Chaincode.Handler.{no_invoke, save_data}
use test_fabric.Chaincode.Contract.{invoke}

-- The envelope of a SaveData.
abbrev pub envelope : String → Option Error → Payload → InvokeResponse
envelope track_id error payload = record {
  track_id = track_id;
  res_status = status_of error;
  payload = payload;
}

module _ (shim : Shim) (codec : Codec) (track_id text : String) (rest : List String)
    (request : InvokeRequest) (s s' : shim.Stub) (given : text ≢ "") where
  open shim use {put_state, set_event}
  open codec use {decode_invoke, encode_invoke}

  -- A SaveData whose request is not empty and decodes, and whose write succeeds, is a success: the
  -- value is put under the key, and the event SaveData carries the same envelope as the response,
  -- with the value as its payload.
  pub invoke-save :
      decode_invoke text no_invoke ≡ (request, none)
      → put_state request.key request.value s ≡ (none, s')
      → let reply = (encode_invoke (envelope track_id none (strings (request.value ∷ [])))).0 in
        invoke shim codec "SaveData" (track_id ∷ text ∷ rest) s
        ≡ (success reply, (set_event "SaveData" reply s').1)
  unfolding invoke save_data
  invoke-save decoded written = rw (eq-false_of_ne text "" given, decoded, written)

  -- A request that does not decode is refused with the decoder's error: nothing is written and no
  -- event is set.
  pub invoke-save_undecoded :
      (e : Error)
      → decode_invoke text no_invoke ≡ (request, some e)
      → invoke shim codec "SaveData" (track_id ∷ text ∷ rest) s ≡ (failure e, s)
  unfolding invoke save_data
  invoke-save_undecoded e undecoded = rw (eq-false_of_ne text "" given, undecoded)

  -- A request whose write fails is refused with that error, and no event is set.
  pub invoke-save_unwritten :
      (e : Error)
      → decode_invoke text no_invoke ≡ (request, none)
      → put_state request.key request.value s ≡ (some e, s')
      → invoke shim codec "SaveData" (track_id ∷ text ∷ rest) s ≡ (failure e, s')
  unfolding invoke save_data
  invoke-save_unwritten e decoded unwritten = rw (eq-false_of_ne text "" given, decoded, unwritten)
