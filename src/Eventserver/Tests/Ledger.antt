-- ===== src/Eventserver/Tests/Ledger.antt =====
-- A chaincode and the filter in memory, and the theorems on them at concrete inputs.
use test_fabric.Base.{String, ◌≡◌, refl, Option, none, some, List, [], ◌∷◌, ◌++◌}
use test_fabric.Base.Go.{Go, done}
use test_fabric.Apiserver.Define.{Message}
use test_fabric.Apiserver.Host.{Codec}
use test_fabric.Apiserver.Sample.{factor}
use test_fabric.Chaincode.Shim.{Codec as CcCodec}
use test_fabric.Chaincode.Memory.{Memory}
use test_fabric.Eventserver.Filter.{EventJson, ChainEvent}
use test_fabric.Eventserver.Filter.Delivered.{saved_response}
use test_fabric.Eventserver.Listen.{EventBlock, listen_block, listen_blocks}
use test_fabric.Eventserver.Listen.First.{
  filter_all, all_first_events, listen_blocks-all_first_events,
}

-- The world is the list of the names of the events that were filtered.
abbrev note_event : ChainEvent → Go (List String) (Option String)
note_event event w = (done none, w ++ event.name ∷ [])

abbrev event : String → ChainEvent
event name = record { name = name; value = "" }

abbrev blocks : List EventBlock
blocks = ((event "a" ∷ event "b" ∷ []) ∷ [] ∷ []) ∷ ((event "c" ∷ []) ∷ []) ∷ []

listen_blocks_run : listen_blocks note_event blocks [] ≡ (done tt, "a" ∷ "c" ∷ [])
unfolding listen_blocks listen_block
listen_blocks_run = refl

listen_blocks-all_first_events_example :
    listen_blocks note_event blocks [] ≡ filter_all note_event (all_first_events blocks) []
listen_blocks-all_first_events_example = listen_blocks-all_first_events note_event blocks []

-- What the server makes of the sample factor.
abbrev sent : Message
sent = record {
  factor = record factor { tx_data = "bx42 EUR" };
  peersafe_data = record {
    keys = ("bob", "s7777777777777777") ∷ ("ann", "s7777777777777777") ∷ [];
  };
}

abbrev codec : Codec
codec = record { encode_message = λ m. ("message", none); encode_request = λ r. ("request", none) }

abbrev chaincode : CcCodec
chaincode = record {
  decode_invoke = λ text request. (record { key = "a1b2c3"; value = "message" }, none);
  decode_query = λ text request. (request, some "unexpected end of JSON input");
  encode_invoke = λ r. ("envelope", none);
  encode_query = λ r. ("envelope", none);
}

abbrev json : EventJson
json = record {
  decode_event = λ text response. (saved_response "txid" "message", none);
  decode_message = λ text. (sent, none);
  encode_event = λ e. "event";
}

abbrev empty : Memory
empty = record { committed = []; pending = []; event = none; open_iterators = 0 }
