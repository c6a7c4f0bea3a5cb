-- ===== src/Apiserver/Tests.antt =====
-- Runs of the server on the sample host, and its theorems at concrete inputs.
use Prim.Native.String.{◌++◌ as str_append}
use test_fabric.Base.{
  subst, ℕ, String, ◌≡◌, refl, inl, inr, none, [], ◌∷◌, ok, some, arith, eq_iff, if◌then◌else◌,
  ◌==◌,
}
use test_fabric.Base.Int.{pos}
use test_fabric.Base.Go.{done}
use test_fabric.Apiserver.Define.{Message, factors}
use test_fabric.Apiserver.Crypto.{aes_encrypt, generate_key, draw_key, read_file, ecies_encrypt}
use test_fabric.Base.Dict.{insert, lookup}
use test_fabric.Apiserver.Message.{
  make_message, open_message, format_request_message, format_response_message,
}
use test_fabric.Apiserver.Message.Exchange.{
  AreSent, format_response_message-AreSent, open_message_stranger,
}
use test_fabric.Apiserver.Message.Succeeds.{make_message-done}
use test_fabric.Apiserver.Sample.Net.{network, protos, policy, sdk, events, draws, plain}
use test_fabric.Apiserver.Sdk.Query.{ReplyCodec}
use test_fabric.Apiserver.Sdk.Documents.{Couch}
use test_fabric.Apiserver.Sdk.Documents.Found.{with_more, HasText}
use test_fabric.Apiserver.Sdk.BlockQuery.{no_page}
use test_fabric.Apiserver.Handler.Web.{Request, contents, WebCodec, response}
use test_fabric.Apiserver.Handler.Search.{search}
use test_fabric.Apiserver.Handler.Answers.Stored.{
  IsReadBack, IsStored, AreStored, stored, skipped, search-AreStored,
}
use test_fabric.Apiserver.Host.{Codec}
use test_fabric.Chaincode.Shim.{Codec as CcCodec}
use test_fabric.Chaincode.Reply.{invoke_response}
use test_fabric.Chaincode.Handler.{save_data}
use test_fabric.Chaincode.Contract.{check_args, func_handler, invoke}
use test_fabric.Chaincode.Memory.{Memory, memory_shim, commit, memory_shim-IsLedger}
use test_fabric.Apiserver.Sample.{host, ciphers, is_user, can_seal, aes_laws, takes_keys, factor}

abbrev sent : Message
sent = record {
  factor = record factor { tx_data = "bx42 EUR" };
  peersafe_data = record {
    keys = ("bob", "s7777777777777777") ∷ ("ann", "s7777777777777777") ∷ [];
  };
}

make_message_run : (make_message host ciphers factor 0).0 ≡ done (ok sent)
unfolding make_message generate_key draw_key aes_encrypt read_file ecies_encrypt insert
make_message_run = refl

sent_run : AreSent host ciphers "bob" (factor ∷ []) (sent ∷ [])
sent_run = ((0, make_message_run, inr (inl refl)), tt)

format_response_message-AreSent_example :
    (format_response_message host ciphers "bob" [] (sent ∷ []) 5).0 ≡ done (factor ∷ [], none)
format_response_message-AreSent_example =
    format_response_message-AreSent host ciphers "bob" [] (factor ∷ []) (sent ∷ []) 5 aes_laws
      (is_user "bob") sent_run

open_message_stranger_example :
    (key crypted : String) × (drawn : ℕ) × ((aes_encrypt ciphers factor.tx_data key drawn).0
      ≡ done (ok crypted))
    × (open_message host ciphers "eve" sent 5
        ≡ (done (record factor { tx_data = ciphers.encode_base64 crypted }), 5))
open_message_stranger_example =
    open_message_stranger host ciphers "eve" factor sent 0 5 refl
      (ground (arith, eq_iff "bob" "eve", eq_iff "ann" "eve")) make_message_run

make_message-done_example : (m : Message) × ((make_message host ciphers factor 0).0 ≡ done (ok m))
make_message-done_example =
    make_message-done host ciphers factor 0 aes_laws takes_keys
      (can_seal "bob", (can_seal "ann", tt))

abbrev codec : Codec
codec = record { encode_message = λ m. ("message", none); encode_request = λ r. ("request", none) }

abbrev chaincode : CcCodec
chaincode = record {
  decode_invoke = λ text request. (record { key = "a1b2c3"; value = "message" }, none);
  decode_query = λ text request. (request, some "unexpected end of JSON input");
  encode_invoke = λ r. ("envelope", none);
  encode_query = λ r. ("envelope", none);
}

abbrev ledger : Memory
ledger = record { committed = []; pending = []; event = none; open_iterators = 0 }

-- A database of the message that was saved, between two documents that are no messages.
abbrev couch : Couch host.World
couch = record {
  Client = String;
  get_db_clients = λ w. (ok ("couch0" ∷ "couch1" ∷ []), w);
  query_documents = λ client syntax w. (ok ("note" ∷ "message" ∷ "note" ∷ []), w);
  Json = String;
  null = "";
  decode_object = λ s. (("data", s) ∷ [], none);
  -- The keys of an object are sorted.
  marshal = λ s. (str_append "sorted " s, none);
  decode_message = λ s. if s == "sorted message" then (sent, none) else (plain, some "no message");
}

abbrev parse : String → String
parse s = s

has_text : (s : String) → HasText host ciphers network couch "bob" s (str_append "sorted " s)
unfolding lookup
has_text s = (s, refl, refl, refl)

format_request_message_run :
    (format_request_message host ciphers codec factor 0).0 ≡ done ("request", none)
unfolding format_request_message
format_request_message_run = rw make_message_run refl

reads :
    (m : Message)
    → (make_message host ciphers factor 0).0 ≡ done (ok m)
    → IsReadBack codec chaincode couch parse m
reads m made =
    let it : sent ≡ m = cc (made, make_message_run) in
    subst (λ m. IsReadBack codec chaincode couch parse m) it
      (record {
        requests = λ text e. refl;
        text = "sorted message";
        encoded_again = refl;
        documents = refl;
      })

one :
    IsStored host ciphers codec memory_shim chaincode commit network couch parse "bob" factor
      "message"
unfolding invoke check_args save_data invoke_response func_handler lookup
one = record {
  w = 0;
  s = ledger;
  track_id = "txid";
  text = "request";
  rest = [];
  reply = "envelope";
  made = format_request_message_run;
  given = ground (arith, eq_iff "request" "");
  saved = refl;
  may_read = inr (inl refl);
  holds = refl;
  reads = reads;
}

are_stored :
    AreStored host ciphers codec memory_shim chaincode commit network couch parse "bob"
      (factor ∷ [])
      ("note" ∷ "message" ∷ "note" ∷ [])
are_stored = skipped "note" "sorted note" plain "no message" (has_text "note") refl (
    stored factor "message" one
      (skipped "note" "sorted note" plain "no message" (has_text "note") refl AreStored.empty))

abbrev replies : ReplyCodec
replies = record { decode_response = λ s r. (r, none); decode_message = λ s. (plain, none) }

abbrev web : WebCodec
web = record {
  encode_body = λ b. "body";
  encode_status = λ s. s.status_msg;
  encode_page = λ p. "page";
  encode_query = λ q. q.dsl_syntax;
  decode_factors = λ s. ok [];
  decode_page = λ s. no_page;
}

abbrev c : Request
c = record { body = ok "{}"; header = λ k. ""; id = "" }

search-AreStored_example :
    (search host ciphers network couch protos events replies web policy sdk "ch" "bob" c 0).0
    ≡ done (
        response web
          (contents
            (record { schema = "/schema/factorList.json"; payload = factors (factor ∷ []) }))
          c
          200
          (record { status_code = pos 0; status_msg = "" })
          (some (with_more 3 no_page)))
search-AreStored_example =
    search-AreStored host ciphers codec memory_shim chaincode commit network couch parse "bob"
      memory_shim-IsLedger protos events replies web policy sdk "ch" c "{}"
      ("couch0" ∷ "couch1" ∷ []) ("note" ∷ "message" ∷ "note" ∷ []) (factor ∷ []) 0 draws aes_laws
      (is_user "bob") refl refl (omega arith) (λ cli v. refl) are_stored refl (omega arith)
