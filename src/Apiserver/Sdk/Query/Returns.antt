-- ===== src/Apiserver/Sdk/Query/Returns.antt =====
-- Query returns, if the peers' answers are not empty.
use test_fabric.Base.{
  String, ◌≡◌, refl, Bool, true, false, Option, none, some, List, [], ◌∷◌, Error, Result, ok, err,
}
use test_fabric.Base.Go.{done}
use test_fabric.Base.Total.{IsTotal, done-After}
use test_fabric.Apiserver.Define.{QueryResponse}
use test_fabric.Apiserver.Host.{Host, Ciphers}
use test_fabric.Apiserver.Message.Total.{HasSizes, format_response_message-done}
use test_fabric.Apiserver.Sdk.Peers.{
  ClientConfig, Policy, Network, set_send_peer_order, get_send_peer_name,
}
use test_fabric.Apiserver.Sdk.Peers.Ready.{empty_sdk}
use test_fabric.Apiserver.Sdk.Peers.Choice.{DrawsBelow}
use test_fabric.Apiserver.Sdk.Peers.Calls.{started, get_send_peer_name-IsEligible, one_name}
use test_fabric.Apiserver.Sdk.BlockQuery.{Answer}
use test_fabric.Apiserver.Sdk.Query.{
  ReplyCodec, read_messages, success_data, answer_decoded, answer_response, query,
}
use test_fabric.Apiserver.Sdk.Query.Agrees.{Agrees, query-Agrees}

-- An error, or an answer that begins with a response.
abbrev pub IsSpoken : Result (List (Option String)) → Type 0
IsSpoken (err e) = Unit
IsSpoken (ok []) = ⊥
IsSpoken (ok (none ∷ rest)) = ⊥
IsSpoken (ok (some payload ∷ rest)) = Unit

module _ (host : Host) (ciphers : Ciphers host.World) (sizes : HasSizes host)
    (network : Network host.World) (draws : DrawsBelow network) (codec : ReplyCodec)
    (user_id : String) (policy : Policy) (config : ClientConfig)
    (accepted : (set_send_peer_order policy (ok config) empty_sdk).0 ≡ none) where
  answer_decoded-IsTotal :
      (function : String) (flag : Bool) (got : QueryResponse × Option Error)
      → IsTotal (answer_decoded host ciphers network codec user_id function flag got)
  answer_decoded-IsTotal function flag (reply, some e) = λ w. (_, refl)
  answer_decoded-IsTotal function true (reply, none) = λ w. (_, refl)
  answer_decoded-IsTotal function false (reply, none) = λ w.
      let (fs, e, same) =
        format_response_message-done host ciphers sizes user_id []
          (read_messages codec reply.payload) w in
      rw e (_, refl)

  answer_response-IsTotal :
      (function : String) (flag : Bool) (response : Result (List (Option String)))
      → IsSpoken response
      → IsTotal (answer_response host ciphers network codec user_id function flag response)
  answer_response-IsTotal function flag (err e) spoken = λ w. (_, refl)
  answer_response-IsTotal function flag (ok []) spoken = absurd spoken
  answer_response-IsTotal function flag (ok (none ∷ rest)) spoken = absurd spoken
  answer_response-IsTotal function flag (ok (some payload ∷ rest)) spoken =
      answer_decoded-IsTotal function flag (codec.decode_response payload success_data)

  -- If SetSendPeerOrder accepts the configuration, the rule is "or", opened files have sizes,
  -- `rand.Intn` draws below its bound, and each peer's answer is an error or begins with a response,
  -- then Query returns. Its answer has an error that is the text of its status 1, and no list of
  -- texts, or it has no error, and its payload is a list of texts for a block query and a list of
  -- factors otherwise.
  pub query-done :
      (function request : String) (flag : Bool) (w : host.World)
      → policy.rule ≡ "or"
      → ((args peers : List String) (v : host.World) → IsSpoken (network.query args peers v).0)
      → (answer : Answer) × ((query host ciphers network codec user_id policy
            (started policy config)
            function
            request
            flag
            w).0
          ≡ done answer)
        × Agrees flag answer
  unfolding query
  query-done function request flag w rule_or spoken =
      let (names, e, all, single, each) =
        get_send_peer_name-IsEligible network draws policy config accepted w in
      let (peer, only, eligible) =
        one_name network draws policy config accepted names (single rule_or) all in
      let v = (get_send_peer_name network policy (started policy config) w).1 in
      let asked = network.query (function ∷ request ∷ []) (peer ∷ []) v in
      done-After (Agrees flag)
        (query host ciphers network codec user_id policy (started policy config) function request
          flag w).0
        (rw (e, only)
          (answer_response-IsTotal function flag asked.0
            (spoken (function ∷ request ∷ []) (peer ∷ []) v) asked.1))
        (query-Agrees host ciphers sizes network codec user_id policy (started policy config)
          function request flag w)
