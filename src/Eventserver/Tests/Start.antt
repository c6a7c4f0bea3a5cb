-- ===== src/Eventserver/Tests/Start.antt =====
-- The event server's start on a configuration of one peer, with two blocks to listen to.
use Prim.Native.String.{◌++◌ as str_append}
use test_fabric.Base.{
  ℕ, String, ◌≡◌, refl, false, none, some, List, [], ◌∷◌, ok, ◌==◌, if◌then◌else◌,
}
use test_fabric.Base.Go.{panicked}
use test_fabric.Apiserver.Main.{System}
use test_fabric.Apiserver.Sample.{host, ciphers, has_sizes}
use test_fabric.Apiserver.Sample.Net.{plain, policy, config, accepted}
use test_fabric.Apiserver.Sdk.Peers.{init_sdk}
use test_fabric.Apiserver.Sdk.Peers.Ready.{empty_sdk}
use test_fabric.Eventserver.Recover.{Chain, get_block_height}
use test_fabric.Eventserver.Filter.{EventJson, ChainEvent}
use test_fabric.Eventserver.Filter.Delivered.{saved_response}
use test_fabric.Eventserver.Listen.{EventBlock}
use test_fabric.Eventserver.Main.{Settings, main}
use test_fabric.Eventserver.Main.Readable.{Starts, main-ending}

abbrev system : System ℕ
system = record {
  join = λ path name. str_append path name;
  init_gohfc = λ file w. (none, w);
  new_client_config = λ file w. (ok config, w);
  policy = λ w. (policy, w);
  probe_order = λ w. ("", w);
  exists = λ path w. (false, w);
  remove = λ path w. (tt, w);
  write_file = λ path text w. (none, w);
  getpid = λ w. (1, w);
  decimal = λ n. "1";
  serve = λ w. (none, w);
  is_closed = λ e. false;
}

abbrev chain : Chain ℕ
chain = record {
  query_by_qscc = λ args peers w. (ok (record { error = none; payload = some "info" } ∷ []), w);
  format_uint = λ n. "7";
  Block = String;
  unmarshal_block = λ s. ok s;
  number = λ b. some 7;
  unmarshal_height = λ s. ok 3;
}

abbrev event : String → ChainEvent
event value = record { name = "event"; value = value }

-- The second block has an event of another chaincode in front of one of SaveData.
abbrev notify : List EventBlock
notify =
    ([] ∷ (event "saved" ∷ event "{}" ∷ []) ∷ []) ∷ ((event "{}" ∷ event "saved" ∷ []) ∷ []) ∷ []

abbrev settings : Settings ℕ
settings = record {
  channel_id = λ w. ("ch", w);
  mq_addresses = λ w. ("amqp://mq" ∷ [], w);
  user_alias = λ w. ("bob", w);
  listen_full_block = λ name chain_id w. (ok notify, w);
}

abbrev json : EventJson
json = record {
  decode_event = λ text response.
      (if text == "saved" then saved_response "txid" "message" else response, none);
  decode_message = λ text. (plain, none);
  encode_event = λ e. "event";
}

starts : Starts system chain settings empty_sdk notify
unfolding init_sdk get_block_height
starts = record {
  policy = policy;
  config = config;
  inits = λ file w. refl;
  configured = λ file w. refl;
  ruled = λ w. refl;
  accepted = accepted;
  address = "amqp://mq";
  addresses = [];
  addressed = λ w. refl;
  height = λ chain_id w. 3;
  told = λ chain_id w. refl;
  listens = λ chain_id w. refl;
}

main-ending_example :
    (main host ciphers json system chain settings empty_sdk "./" "client_sdk" 0).0
    ≡ panicked "index out of range"
main-ending_example =
    main-ending host ciphers has_sizes json system chain settings empty_sdk "./" "client_sdk" notify
      0 starts
