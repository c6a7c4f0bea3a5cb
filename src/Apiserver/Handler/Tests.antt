-- ===== src/Apiserver/Handler/Tests.antt =====
-- A server in memory, runs of its handlers, and the theorems at concrete inputs.
use test_fabric.Apiserver.Handler.Answers.Always.{IsHealthy, AreAnswers, handle-AreAnswers}
use test_fabric.Apiserver.Handler.Answers.Once.{is_single}
use test_fabric.Apiserver.Handler.Answers.Refused.{RunsChaincode, FailsOr, search_blocks-refused}
use test_fabric.Apiserver.Handler.Routes.{Server, on_block_query, handle}
use test_fabric.Chaincode.Memory.{Memory, memory_shim, codec as memory_codec}
use test_fabric.Chaincode.Shim.{Response, success, failure as refusal}
use test_fabric.Chaincode.Contract.{invoke as run_chaincode}
use test_fabric.Base.{
  ℕ, suc, String, ◌≡◌, refl, true, false, Option, none, some, List, [], ◌∷◌, ok, err, Result,
}
use test_fabric.Base.Int.{pos}
use test_fabric.Base.Go.{Run, done, panicked}
use test_fabric.Apiserver.Define.{ResponseStatus, texts, QueryContents}
use test_fabric.Apiserver.Host.{Codec}
use test_fabric.Apiserver.Crypto.{generate_key, draw_key}
use test_fabric.Apiserver.Message.{make_message, format_request_message}
use test_fabric.Apiserver.Sample.{host, ciphers, has_sizes, aes_laws, factor}
use test_fabric.Apiserver.Sample.Net.{
  network, couch, protos, policy, sdk, events, plain, config, accepted, draws, responds,
}
use test_fabric.Apiserver.Sdk.Peers.{
  Network, generate_range_num, pick_name, get_send_order_name, get_send_peer_name, invoke,
}
use test_fabric.Apiserver.Sdk.Peers.Calls.{started}
use test_fabric.Apiserver.Sdk.Query.Returns.{query-done}
use test_fabric.Apiserver.Handler.Answers.Returns.{save_data-done}
use test_fabric.Apiserver.Sdk.BlockQuery.{Answer, no_page}
use test_fabric.Apiserver.Sdk.Query.{ReplyCodec, query}
use test_fabric.Apiserver.Sdk.Query.Agrees.{Agrees}
use test_fabric.Apiserver.Handler.Web.{Request, WriterCall, WebCodec, response}
use test_fabric.Apiserver.Handler.Random.{alphabet, byte_at, draw_string, get_random_string}
use test_fabric.Apiserver.Handler.Random.Length.{size, IsMadeOf, get_random_string-size}
use test_fabric.Apiserver.Handler.Save.{save_factor, save_factors, save_data}
use test_fabric.Apiserver.Handler.Search.{search_blocks}
use test_fabric.Apiserver.Handler.Routes.{Server}
use test_fabric.Apiserver.Handler.Answers.{statuses}
use test_fabric.Apiserver.Handler.Answers.Saved.{IsSaved}

-- A peer that answers every query with one text.
abbrev speaking : Network ℕ
speaking = record network { query = λ args peers w. (ok (some "reply" ∷ []), suc w) }

abbrev codec : Codec
codec = record { encode_message = λ m. ("message", none); encode_request = λ r. ("request", none) }

-- A reply holds the ids of two transactions.
abbrev replies : ReplyCodec
replies = record {
  decode_response = λ s r. (record r { payload = "t1" ∷ "t2" ∷ [] }, none);
  decode_message = λ s. (plain, none);
}

abbrev web : WebCodec
web = record {
  encode_body = λ b. "body";
  encode_status = λ s. s.status_msg;
  encode_page = λ p. "page";
  encode_query = λ q. q.dsl_syntax;
  decode_factors = λ s. ok (record factor { crypto_flag = pos 0 } ∷ []);
  decode_page = λ s. no_page;
}

abbrev c : Request
c = record { body = ok "[{}]"; header = λ k. ""; id = "42" }

abbrev server : Server
server = record {
  host = host;
  ciphers = ciphers;
  network = speaking;
  couch = couch;
  protos = protos;
  codec = codec;
  events = events;
  replies = replies;
  web = web;
  run_shell = λ command w. (none, w);
  policy = policy;
  sdk = started policy config;
  chain_id = "ch";
  user_id = "bob";
  target_order_addr = "orderer0 7050";
}

abbrev statuses_of : Run (List WriterCall) → List ℕ
statuses_of (done calls) = statuses calls
statuses_of (panicked e) = []

save_run : statuses_of (save_data host ciphers network codec web policy sdk c 0).0 ≡ 200 ∷ []
unfolding save_data save_factors save_factor get_random_string draw_string byte_at generate_key
    draw_key make_message format_request_message generate_range_num pick_name get_send_order_name
    get_send_peer_name invoke response
save_run = refl

get_random_string-size_example :
    (text : String) × ((get_random_string network 6 0).0 ≡ done text)
    × (size text ≡ 6)
    × IsMadeOf alphabet text
get_random_string-size_example = get_random_string-size network draws 6 0

peer_run : (get_send_peer_name network policy sdk 0).0 ≡ done ("peer0" ∷ [])
unfolding generate_range_num pick_name get_send_peer_name
peer_run = refl

abbrev found : QueryContents
found = record { schema = "/schema/factorList.json"; payload = texts ("t1" ∷ "t2" ∷ []) }

abbrev worked : ResponseStatus
worked = record { status_code = pos 0; status_msg = "SUCCESS" }

query_run :
    (query host ciphers speaking replies "bob" policy sdk "DslQuery"
      "{\"selector\":{\"businessNo\":\"42\"}}" true 0).0
    ≡ done (found, worked, no_page, none)
unfolding query generate_range_num pick_name get_send_peer_name
query_run = refl

abbrev ask : List String → ℕ → Run Answer × ℕ
ask ids w = (done (found, worked, no_page, none), w)

save_data-done_example :
    (calls : List WriterCall) × ((save_data host ciphers network codec web policy
        (started policy config)
        c
        0).0
      ≡ done calls)
    × IsSaved host ciphers network codec policy (started policy config) web c calls
save_data-done_example =
    save_data-done host ciphers has_sizes aes_laws network draws codec web policy config accepted c
      0

query-done_example :
    (answer : Answer) × ((query host ciphers speaking replies "bob" policy
        (started policy config)
        "DslQuery"
        "{}"
        false
        0).0
      ≡ done answer)
    × Agrees false answer
query-done_example =
    query-done host ciphers has_sizes speaking (record { drawn = λ n w h. h }) replies "bob" policy
      config accepted "DslQuery" "{}" false 0 refl (λ args peers v. tt)

server-IsHealthy : IsHealthy server config
server-IsHealthy = record {
  accepted = accepted;
  configured = refl;
  rule_or = refl;
  sizes = has_sizes;
  laws = aes_laws;
  draws = record { drawn = λ n w h. h };
  clients = λ w e. cc e;
  speaks = λ args peers w. tt;
  responds = responds;
}

handle-AreAnswers_example :
    (calls : List WriterCall) × ((handle server on_block_query c 0).0 ≡ done calls)
    × AreAnswers (is_single on_block_query) calls
handle-AreAnswers_example = handle-AreAnswers server config server-IsHealthy on_block_query c 0

abbrev ledger : Memory
ledger = record { committed = []; pending = []; event = none; open_iterators = 0 }

-- The peers run the chaincode in memory; a refusal comes back as a nil response.
abbrev endorsed : Response → Result (List (Option String))
endorsed (success payload) = ok (some payload ∷ [])
endorsed (refusal e) = ok (none ∷ [])

abbrev run_query : List String → Result (List (Option String))
run_query [] = err "no function"
run_query (function ∷ args) =
    endorsed (run_chaincode memory_shim memory_codec function args ledger).0

abbrev running : Network ℕ
running = record network { query = λ args peers w. (run_query args, suc w) }

abbrev json : ReplyCodec
json = record {
  decode_response = λ s r. (r, some "unexpected end of JSON input");
  decode_message = λ s. (plain, none);
}

abbrev runs : RunsChaincode running json memory_shim memory_codec
runs = record { ledger = λ w. ledger; refuses = λ function args peers w e refused. rw refused tt }

search_blocks-refused_example :
    FailsOr
      (λ calls. statuses calls ≡ 400 ∷ [])
      (search_blocks host ciphers running couch protos events json web policy
        (started policy config)
        "ch"
        "bob"
        ask
        c
        0).0
search_blocks-refused_example =
    search_blocks-refused host ciphers running (record { drawn = λ n w h. h }) json "bob" policy
      config accepted refl memory_shim memory_codec runs couch protos events web "ch" ask c 0
