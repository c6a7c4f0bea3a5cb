-- ===== src/Apiserver/Sdk/Query.antt =====
-- apiserver/sdk/sdk.go: Query, which asks the chaincode of one peer.
pub mod Agrees
pub mod Returns
use test_fabric.Base.{
  String, Bool, Option, none, some, List, [], ◌∷◌, ◌++◌, Error, Result, ok, err, get_elem?,
  if◌then◌else◌,
}
use test_fabric.Base.Int.{pos}
use test_fabric.Base.Go.{Go, ◌>>=◌, pure, panic, call, or_panic}
use test_fabric.Apiserver.Define.{
  Page, ResponseStatus, QueryResponse, Message, nil, factors, texts, Payload, QueryContents,
}
use test_fabric.Apiserver.Host.{Host, Ciphers}
use test_fabric.Apiserver.Message.{format_response_message}
use test_fabric.Apiserver.Sdk.Peers.{Policy, Sdk, Network, get_send_peer_name}
use test_fabric.Apiserver.Sdk.Events.{nil_pointer}
use test_fabric.Apiserver.Sdk.BlockQuery.{Answer, no_page}
use test_fabric.Apiserver.Sdk.Documents.{schema_of}

-- `json.Unmarshal` into the response that is there, and into a new message.
pub record ReplyCodec : Type 0 where
  pub decode_response : String → QueryResponse → QueryResponse × Option Error
  pub decode_message : String → Message × Option Error

-- `responseData` when the peer has answered.
abbrev pub success_data : QueryResponse
success_data = record {
  track_id = "";
  response_status = record { status_code = pos 0; status_msg = "SUCCESS" };
  page = no_page;
  payload = [];
}

abbrev pub failed_status : Error → ResponseStatus
failed_status e = record { status_code = pos 1; status_msg = e }

-- The loop over the payload: a text that is no message is passed over.
unfoldable pub read_messages : ReplyCodec → List String → List Message
read_messages codec [] = []
read_messages codec (json_data ∷ payload) = elim (codec.decode_message json_data).1 [
  | some e ↦ read_messages codec payload
  | none ↦ (codec.decode_message json_data).0 ∷ read_messages codec payload
]

module _ (host : Host) (ciphers : Ciphers host.World) (network : Network host.World)
    (codec : ReplyCodec) (user_id : String) where
  open host use {World}

  abbrev pub answer_messages : String → QueryResponse → List Message → Go World Answer
  answer_messages function reply messages = do
    got ← format_response_message host ciphers user_id [] messages
    pure (
      record { schema = schema_of function; payload = factors got.0 },
      reply.response_status,
      reply.page,
      got.1,
    )

  abbrev pub answer_decoded : String → Bool → QueryResponse × Option Error → Go World Answer
  answer_decoded function block_flag (reply, some e) = pure (
    record { schema = schema_of function; payload = factors [] },
    failed_status e,
    reply.page,
    some e,
  )
  answer_decoded function block_flag (reply, none) =
      if block_flag
      then pure (
        record { schema = schema_of function; payload = texts reply.payload },
        reply.response_status,
        reply.page,
        none,
      )
      else answer_messages function reply (read_messages codec reply.payload)

  -- An empty answer without an error panics, since its error's text is asked for.
  abbrev pub answer_response : String → Bool → Result (List (Option String)) → Go World Answer
  answer_response function block_flag (err e) =
      pure (record { schema = ""; payload = nil }, failed_status e, no_page, some e)
  answer_response function block_flag (ok []) = panic nil_pointer
  answer_response function block_flag (ok (none ∷ responses)) = panic nil_pointer
  answer_response function block_flag (ok (some payload ∷ responses)) =
      answer_decoded function block_flag (codec.decode_response payload success_data)

  -- The error for an empty list of peers is made and dropped: the index panics.
  unfoldable pub query : Policy → Sdk → String → String → Bool → Go World Answer
  unfolding get_send_peer_name read_messages
  query policy sdk function request block_flag = do
    peer_names ← get_send_peer_name network policy sdk
    peer ← or_panic (get_elem? peer_names 0) "index out of range"
    response ← call (network.query (function ∷ request ∷ []) (peer ∷ []))
    answer_response function block_flag response
