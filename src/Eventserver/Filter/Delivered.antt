-- ===== src/Eventserver/Filter/Delivered.antt =====
-- From the server over the chaincode to the event server: a factor that one node saves is what the
-- filter of another gives to its user.
use test_fabric.Base.{String, ◌≡◌, none, [], ◌∷◌}
use test_fabric.Apiserver.Define.{InvokeResponse, Message}
use test_fabric.Apiserver.Host.{Host, Ciphers, Codec}
use test_fabric.Chaincode.Define.{strings}
use test_fabric.Chaincode.Shim.{Shim, Codec as CcCodec}
use test_fabric.Chaincode.Reply.{status_of}
use test_fabric.Chaincode.Handler.{no_invoke}
use test_fabric.Chaincode.Contract.Save.{envelope}
use test_fabric.Eventserver.Filter.{EventJson, empty_response}

-- The response that an envelope of the chaincode decodes to, with one text as its payload.
abbrev pub saved_response : String → String → InvokeResponse
saved_response track_id value = record {
  track_id = track_id;
  res_status = record {
    status_code = (status_of none).status_code;
    status_msg = (status_of none).status_msg;
  };
  payload = value ∷ [];
}

-- The three programs read each other's JSON of a message: the server's request with it, the message
-- itself, and the chaincode's envelope with it.
pub record Interoperates (codec : Codec) (chaincode : CcCodec) (json : EventJson) (m : Message)
    : Type 0 where
  pub requests :
      (text : String)
      → codec.encode_request
          (record { key = m.factor.fabric_tx_id; value = (codec.encode_message m).0 })
        ≡ (text, none)
      → chaincode.decode_invoke text no_invoke
        ≡ (record { key = m.factor.fabric_tx_id; value = (codec.encode_message m).0 }, none)
  pub messages : json.decode_message (codec.encode_message m).0 ≡ (m, none)
  pub envelopes :
      json.decode_event
        (chaincode.encode_invoke
          (envelope "txid" none (strings ((codec.encode_message m).0 ∷ [])))).0
        empty_response
      ≡ (saved_response "txid" (codec.encode_message m).0, none)

module _ (host : Host) (ciphers : Ciphers host.World) (codec : Codec) (shim : Shim)
    (chaincode : CcCodec) (json : EventJson) where
  abbrev value_of : Message → String
  value_of m = (codec.encode_message m).0
