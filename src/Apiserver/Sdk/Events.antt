-- ===== src/Apiserver/Sdk/Events.antt =====
-- apiserver/sdk/sdk.go: GetChainCodeEvents, over the protocol buffers of Fabric.
pub mod Whole
use test_fabric.Base.{
  ℕ, String, Bool, false, Option, List, [], ◌∷◌, Error, Result, ok, err, nat_eq, if◌then◌else◌,
}
use test_fabric.Base.Int.{ℤ, pos, negsuc}
use test_fabric.Base.Go.{Go, ◌>>=◌, pure, or_panic, on_ok}
use test_fabric.Apiserver.Message.{wrap}

-- What is read of Fabric's messages: an event of a chaincode, and a block's header.
pub record ChaincodeEvent : Type 0 where
  pub chaincode_id : String
  pub tx_id : String
  pub event_name : String
  pub payload : String

pub record BlockHeader : Type 0 where
  pub number : ℕ
  pub previous_hash : String
  pub data_hash : String

-- The protocol buffers that the server unmarshals. A pointer that can be nil is an option.
pub record Protos : Type 1 where
  pub Block : Type 0
  pub unmarshal_block : String → Result Block
  pub block_string : Block → String
  pub header : Block → Option BlockHeader
  pub envelopes : Block → Option (List String)
  -- `fmt.Sprintf("%x", bytes)`
  pub hex : String → String
  -- `listener.GetTxPayload`, whose error is dropped.
  pub Payload : Type 0
  pub get_tx_payload : String → Option Payload
  -- `payload.Header.ChannelHeader` and `payload.Data`
  pub channel_header : Payload → Option String
  pub payload_data : Payload → String
  -- The type that UnmarshalChannelHeader finds, and the actions' payloads that GetTransaction does.
  pub unmarshal_channel_header : String → Result ℤ
  pub get_transaction : String → Result (List String)
  -- `Action.ProposalResponsePayload` of a GetChaincodeActionPayload, `Extension` of a
  -- GetProposalResponsePayload and `Events` of a GetChaincodeAction.
  pub get_chaincode_action_payload : String → Result (Option String)
  pub get_proposal_response_payload : String → Result String
  pub get_chaincode_action : String → Result String
  -- The event stays, whatever the error of GetChaincodeEvents.
  pub get_chaincode_events : String → ChaincodeEvent × Option Error

-- `HeaderType_ENDORSER_TRANSACTION`
abbrev pub is_endorser_transaction : ℤ → Bool
is_endorser_transaction (pos n) = nat_eq n 3
is_endorser_transaction (negsuc n) = false

abbrev pub nil_pointer : Error
nil_pointer = "invalid memory address or nil pointer dereference"

-- `events != nil`: an empty transaction has none.
abbrev pub some_events : List ChaincodeEvent → Result (List ChaincodeEvent)
some_events [] = err "No events found"
some_events (y ∷ events) = ok (y ∷ events)

module _ (protos : Protos) {World : Type 0} where
  open protos use {
    Payload, channel_header, payload_data, unmarshal_channel_header, get_transaction,
    get_chaincode_action_payload, get_proposal_response_payload, get_chaincode_action,
    get_chaincode_events,
  }

  -- The loop over `tx.Actions`.
  unfoldable pub events_of : List String → Go World (Result (List ChaincodeEvent))
  events_of [] = pure (ok [])
  events_of (r ∷ actions) =
      on_ok
        (wrap "Error unmarshalling transaction action payload for block event: "
          (get_chaincode_action_payload r))
        λ action. do
          response ← or_panic action nil_pointer
          on_ok
              (wrap "Error unmarshalling proposal response payload for block event: "
                (get_proposal_response_payload response))
              λ extension.
                on_ok
                  (wrap "Error unmarshalling chaincode action for block event: "
                    (get_chaincode_action extension))
                  λ events. do
                    rest ← events_of actions
                    on_ok rest λ rest. pure (ok ((get_chaincode_events events).0 ∷ rest))

  abbrev pub transaction_events : String → Go World (Result (List ChaincodeEvent))
  transaction_events bytes =
      on_ok
        (wrap "Error unmarshalling transaction payload for block event: " (get_transaction bytes))
        λ actions. do events ← events_of actions; on_ok events λ events. pure (some_events events)

  unfoldable pub get_chain_code_events : Payload → Go World (Result (List ChaincodeEvent))
  unfolding events_of
  get_chain_code_events payload = do
    bytes ← or_panic (channel_header payload) nil_pointer
    on_ok
        (wrap "Could not extract channel header from envelope, err "
          (unmarshal_channel_header bytes))
        λ kind.
          (if is_endorser_transaction kind
            then transaction_events (payload_data payload)
            else pure (err "No events found"))
