-- ===== src/Apiserver/Sdk/Events/Whole.antt =====
-- GetChainCodeEvents on messages that are whole.
use test_fabric.Base.{
  String, ◌≡◌, refl, ◌≢◌, true, Option, none, some, List, [], ◌∷◌, ok, All, Bool-cases, inl, inr,
}
use test_fabric.Base.Int.{ℤ}
use test_fabric.Base.Go.{or_panic}
use test_fabric.Base.Total.{
  IsTotal, bind-IsTotal, on_ok-IsTotal, on_ok_from-IsTotal, or_panic-IsTotal,
}
use test_fabric.Apiserver.Message.{wrap}
use test_fabric.Apiserver.Message.Seal.{wrap-ok}
use test_fabric.Apiserver.Sdk.Events.{
  Protos, nil_pointer, is_endorser_transaction, events_of, transaction_events,
  get_chain_code_events,
}

module _ (protos : Protos) where
  -- An action of a transaction has a chaincode's response, if it decodes at all.
  abbrev pub IsWholeAction : String → Type 0
  IsWholeAction r = protos.get_chaincode_action_payload r ≢ ok none

  -- A payload has a channel header, and the actions of an endorser's transaction are whole.
  pub record IsWholePayload (tx : protos.Payload) : Type 0 where
    pub channelled : protos.channel_header tx ≢ none
    pub acted :
        (bytes : String) (kind : ℤ) (actions : List String)
        → protos.channel_header tx ≡ some bytes
        → protos.unmarshal_channel_header bytes ≡ ok kind
        → is_endorser_transaction kind ≡ true
        → protos.get_transaction (protos.payload_data tx) ≡ ok actions
        → All IsWholeAction actions

  abbrev pub IsWholeEnvelope : String → Type 0
  IsWholeEnvelope r = (tx : protos.Payload) → protos.get_tx_payload r ≡ some tx → IsWholePayload tx

  -- A block has a header and data, and the payloads in it are whole.
  pub record IsWholeBlock (block : protos.Block) : Type 0 where
    pub headed : protos.header block ≢ none
    pub filled : protos.envelopes block ≢ none
    pub enveloped : (rs : List String) → protos.envelopes block ≡ some rs → All IsWholeEnvelope rs

  module _ (World : Type 0) where
    events_of-IsTotal :
        (actions : List String)
        → All IsWholeAction actions
        → IsTotal {S = World} (events_of protos actions)
    unfolding events_of
    events_of-IsTotal [] all = λ w. (ok [], refl)
    events_of-IsTotal (r ∷ actions) (first, all) =
        on_ok_from-IsTotal (wrap _ (protos.get_chaincode_action_payload r)) _ λ action e.
          bind-IsTotal (or_panic action nil_pointer) _
            (or_panic-IsTotal action nil_pointer (λ missing. first (wrap-ok _ _ (rw missing at e))))
            λ response.
              on_ok-IsTotal (wrap _ (protos.get_proposal_response_payload response)) _ λ extension.
                on_ok-IsTotal (wrap _ (protos.get_chaincode_action extension)) _ λ events.
                  bind-IsTotal (events_of protos actions) _ (events_of-IsTotal actions all)
                    λ rest. on_ok-IsTotal rest _ λ rest w. (_, refl)

    transaction_events-IsTotal :
        (bytes : String)
        → ((actions : List String)
            → protos.get_transaction bytes ≡ ok actions
            → All IsWholeAction actions)
        → IsTotal {S = World} (transaction_events protos bytes)
    transaction_events-IsTotal bytes whole =
        on_ok_from-IsTotal (wrap _ (protos.get_transaction bytes)) _ λ actions e.
          bind-IsTotal (events_of protos actions) _
            (events_of-IsTotal actions (whole actions (wrap-ok _ _ e)))
            λ events. on_ok-IsTotal events _ λ events w. (_, refl)

    headed-IsTotal :
        (payload : protos.Payload) (header : Option String)
        → protos.channel_header payload ≡ header
        → IsWholePayload payload
        → IsTotal {S = World} (get_chain_code_events protos payload)
    unfolding get_chain_code_events
    headed-IsTotal payload none e whole = absurd (whole.channelled e)
    headed-IsTotal payload (some bytes) e whole = rw e (
        on_ok_from-IsTotal (wrap _ (protos.unmarshal_channel_header bytes)) _ λ kind f.
          elim (Bool-cases (is_endorser_transaction kind)) [
            | inl endorser ↦ rw endorser (
                transaction_events-IsTotal (protos.payload_data payload)
                  (λ actions got. whole.acted bytes kind actions e (wrap-ok _ _ f) endorser got))
            | inr other ↦ rw other (λ w. (_, refl))
          ])

    pub get_chain_code_events-IsTotal :
        (payload : protos.Payload)
        → IsWholePayload payload
        → IsTotal {S = World} (get_chain_code_events protos payload)
    get_chain_code_events-IsTotal payload whole =
        headed-IsTotal payload (protos.channel_header payload) refl whole
