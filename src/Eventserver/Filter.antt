-- ===== src/Eventserver/Filter.antt =====
-- eventserver/handle/filterevent.go: FilterEvent, and the answer of handle/event.go. The copy of
-- apiserver/define and apiserver/utils that is vendored there is the same code as this
-- repository's, so FormatResponseMessage is the one of Apiserver.Message.
pub mod Delivered
use test_fabric.Base.{ℕ, ◌/◌, ◌%◌, ◌^◌, String, Option, none, some, List, [], ◌∷◌, Error, get_elem?}
use test_fabric.Base.Int.{pos}
use test_fabric.Base.Go.{Go, ◌>>=◌, pure, or_panic}
use test_fabric.Apiserver.Define.{Factor, Message, ResponseStatus, InvokeResponse}
use test_fabric.Apiserver.Host.{Host, Ciphers}
use test_fabric.Apiserver.Message.{format_response_message}

pub record ContentDef : Type 0 where
  pub content_type : String
  pub track_id : String
  pub language : String

pub record Ack : Type 0 where
  pub level : String
  pub callback : String

pub record Header : Type 0 where
  pub content_def : ContentDef
  pub ack : Ack
  pub response_status : ResponseStatus

pub record Command : Type 0 where
  pub uri : String
  pub action : String
  pub desc : String

pub record Contents : Type 0 where
  pub schema : String
  pub payload : List Factor
  pub command : Command

pub record Event : Type 0 where
  pub header : Header
  pub contents : Contents

-- What gohfc tells of an event of a transaction.
pub record ChainEvent : Type 0 where
  pub name : String
  pub value : String

-- encoding/json: into the response that is there, into a new message, and of an event.
pub record EventJson : Type 0 where
  pub decode_event : String → InvokeResponse → InvokeResponse × Option Error
  pub decode_message : String → Message × Option Error
  pub encode_event : Event → String

abbrev pub empty_response : InvokeResponse
empty_response = record {
  track_id = "";
  res_status = record { status_code = pos 0; status_msg = "" };
  payload = [];
}

abbrev pub event_response : InvokeResponse → List Factor → Event
event_response response_data payload = record {
  header = record {
    content_def = record {
      content_type = "application/json";
      track_id = response_data.track_id;
      language = "zh-CN";
    };
    ack = record { level = "notRequired"; callback = "" };
    response_status = response_data.res_status;
  };
  contents = record {
    schema = "/schema/factorList.json";
    payload = payload;
    command = record { uri = ""; action = "Call"; desc = "" };
  };
}

-- getCurTime of what UnixNano tells after 1970: milliseconds in a uint64.
abbrev pub get_cur_time : ℕ → ℕ
get_cur_time unix_nano = unix_nano / 1000000 % 2 ^ 64

module _ (host : Host) (ciphers : Ciphers host.World) (json : EventJson) (user_alias : String) where
  open host use {World}
  open json use {decode_event, decode_message, encode_event}

  abbrev pub answer_event : InvokeResponse → List Factor × Option Error → Option String
  answer_event response_data (payload, some e) = none
  answer_event response_data (payload, none) =
      some (encode_event (event_response response_data payload))

  -- The time that the message took is only printed.
  abbrev pub filter_message : InvokeResponse → Message × Option Error → Go World (Option String)
  filter_message response_data (message, some e) = pure none
  filter_message response_data (message, none) = do
    got ← format_response_message host ciphers user_alias [] (message ∷ [])
    pure (answer_event response_data got)

  -- `(*iReqs)[0]` panics if there is no text.
  abbrev pub filter_decoded : InvokeResponse × Option Error → Go World (Option String)
  filter_decoded (response_data, some e) = pure none
  filter_decoded (response_data, none) = do
    json_data ← or_panic (get_elem? response_data.payload 0) "index out of range"
    filter_message response_data (decode_message json_data)

  -- The bytes and true, or none for nil and false.
  unfoldable pub filter_event : ChainEvent → Go World (Option String)
  filter_event event = filter_decoded (decode_event event.value empty_response)
