-- ===== src/Apiserver/Handler/Answers/Always.antt =====
-- Every route's handler returns, on a healthy server.
use test_fabric.Base.{
  ℕ, String, ◌≡◌, refl, ◌≢◌, ◌⊎◌, inl, inr, Bool, true, false, Option, none, some, List, [], ◌∷◌,
  Result, ok, err,
}
use test_fabric.Base.Go.{Go, done}
use test_fabric.Base.Total.{IsTotal, bind-IsTotal, Returns, total-Returns}
use test_fabric.Apiserver.Message.Trust.{AesLaws}
use test_fabric.Apiserver.Message.Total.{HasSizes}
use test_fabric.Apiserver.Sdk.Peers.{ClientConfig, set_send_peer_order, is_reached, peer_keepalive}
use test_fabric.Apiserver.Sdk.Peers.Ready.{empty_sdk}
use test_fabric.Apiserver.Sdk.Peers.Choice.{DrawsBelow}
use test_fabric.Apiserver.Sdk.Peers.Calls.{started, peer_keepalive_asked}
use test_fabric.Apiserver.Sdk.Blocks.Returns.{HasResponse}
use test_fabric.Apiserver.Sdk.BlockQuery.{Answer, block_query, block_query_ex}
use test_fabric.Apiserver.Sdk.BlockQuery.Returns.{block_query-done, block_query_ex-done}
use test_fabric.Apiserver.Sdk.Documents.{dsl_query, dsl}
use test_fabric.Apiserver.Sdk.Documents.Returns.{dsl-done}
use test_fabric.Apiserver.Sdk.Query.Returns.{IsSpoken, query-done}
use test_fabric.Apiserver.Handler.Web.{Request, WriterCall}
use test_fabric.Apiserver.Handler.Keepalive.{order_keepalive, peer_probed, keepalive_query}
use test_fabric.Apiserver.Handler.Search.{
  business_request, text_list, dsl_body, search, search_blocks, block_query_handler,
  block_query_ex_handler,
}
use test_fabric.Apiserver.Handler.Routes.{
  Handler, on_save_data, on_dsl_query, on_keepalive_query, on_block_query, on_block_query_ex,
  Server, handle,
}
use test_fabric.Apiserver.Handler.Answers.{statuses}
use test_fabric.Apiserver.Handler.Answers.Returns.{save_data-done}
use test_fabric.Apiserver.Handler.Answers.Blocks.{Answers, search_blocks-done}
use test_fabric.Apiserver.Handler.Answers.Once.{IsOnce, is_single, handle-IsOnce}

-- What the server relies on: its configuration is accepted and has the rule "or", opened files have
-- sizes, the derived keys are long enough for AES, which decodes what it encoded, as base64 does,
-- `rand.Intn` draws below its bound, CouchDB has a client or an error, each answer to Query is an
-- error or begins with a response, and no pointer that the server follows in the peers' answers to
-- GetBlockByTxID, and in the blocks that these decode to, is nil.
pub record IsHealthy (server : Server) (config : ClientConfig) : Type 0 where
  pub accepted : (set_send_peer_order server.policy (ok config) empty_sdk).0 ≡ none
  pub configured : server.sdk ≡ started server.policy config
  pub rule_or : server.policy.rule ≡ "or"
  pub sizes : HasSizes server.host
  pub laws : AesLaws server.ciphers
  pub draws : DrawsBelow server.network
  pub clients : (w : server.host.World) → (server.couch.get_db_clients w).0 ≢ ok []
  pub speaks :
      (args peers : List String) (w : server.host.World)
      → IsSpoken (server.network.query args peers w).0
  pub responds :
      (txid : String) (peers : List String) (w : server.host.World)
      → HasResponse server.protos
          (server.network.query_by_qscc ("GetBlockByTxID" ∷ server.chain_id ∷ txid ∷ []) peers w).0

-- One answer; or, if there may be more, two with the same status.
abbrev pub AreAnswers : Bool → List WriterCall → Type 0
AreAnswers true calls = IsOnce calls
AreAnswers false calls =
    (status : ℕ) × ((statuses calls ≡ status ∷ []) ⊎ (statuses calls ≡ status ∷ status ∷ []))

module _ (server : Server) (config : ClientConfig) (healthy : IsHealthy server config) where
  open server use {
    host, ciphers, network, couch, protos, codec, events, replies, web, run_shell, policy, chain_id,
    user_id, target_order_addr,
  }

  is_reached-IsTotal :
      (response : Result (List (Option String)))
      → IsSpoken response
      → IsTotal (is_reached network response)
  is_reached-IsTotal (err e) h = λ w. (_, refl)
  is_reached-IsTotal (ok []) h = λ w. (_, refl)
  is_reached-IsTotal (ok (none ∷ rest)) h = absurd h
  is_reached-IsTotal (ok (some payload ∷ rest)) h = λ w. (_, refl)

  peer_keepalive-IsTotal :
      (function : String) → IsTotal (peer_keepalive network policy (started policy config) function)
  peer_keepalive-IsTotal function w =
      let (peer, v, eligible, asked) =
        peer_keepalive_asked network healthy.draws policy config healthy.accepted function w
          healthy.rule_or in
      let response = network.query (function ∷ "reduPara" ∷ "reduPara" ∷ []) (peer ∷ []) v in
      rw asked (
        is_reached-IsTotal response.0
          (healthy.speaks (function ∷ "reduPara" ∷ "reduPara" ∷ []) (peer ∷ []) v) response.1)

  peer_probed-IsTotal :
      (c : Request) (reached : Bool)
      → IsTotal (
          peer_probed network run_shell web policy
            (started policy config)
            target_order_addr
            c
            reached)
  unfolding order_keepalive
  peer_probed-IsTotal c true = λ w. (_, refl)
  peer_probed-IsTotal c false = λ w. (_, refl)

  dsl_body-IsTotal :
      (c : Request) (body : Result String)
      → IsTotal (
          dsl_body host ciphers network couch protos events replies web policy
            (started policy config)
            chain_id
            user_id
            c
            body)
  dsl_body-IsTotal c (err e) = λ w. (_, refl)
  dsl_body-IsTotal c (ok body) =
      bind-IsTotal (dsl host ciphers network couch user_id dsl_query _) _
        (λ w.
          let (answer, e, agrees) =
            dsl-done host ciphers healthy.sizes network healthy.draws couch healthy.clients user_id
              dsl_query _ w in
          (answer, e))
        λ answer w. (_, refl)

  AreAnswers-blocks :
      (ids : Option (List String)) (calls : List WriterCall)
      → Answers ids calls
      → AreAnswers false calls
  AreAnswers-blocks none calls (status, e) = (status, inl e)
  AreAnswers-blocks (some []) calls (status, e) = (status, inl e)
  AreAnswers-blocks (some (id ∷ ids)) calls (status, e) = (status, inr e)

  search_blocks-Returns :
      (c : Request) (ask : List String → Go host.World Answer)
      → ((ids : List String) → IsTotal (ask ids))
      → Returns (AreAnswers false) (
          search_blocks host ciphers network couch protos events replies web policy
            (started policy config)
            chain_id
            user_id
            ask
            c)
  search_blocks-Returns c ask returns w =
      let request = web.encode_query (business_request c.id (web.decode_page (c.header "page"))) in
      let ((found, ret, page, e), asked, agrees) =
        query-done host ciphers healthy.sizes network healthy.draws replies user_id policy config
          healthy.accepted dsl_query request true w healthy.rule_or healthy.speaks in
      let (calls, ended, answers) =
        search_blocks-done host ciphers healthy.sizes network couch protos events replies web policy
          (started policy config) chain_id user_id ask returns c found ret page e w asked in
      (calls, ended, AreAnswers-blocks (text_list found.payload) calls answers)

  block_query-IsTotal :
      (ids : List String)
      → IsTotal (block_query events network protos policy (started policy config) chain_id ids)
  block_query-IsTotal ids w =
      let (answer, e, is_answer) =
        block_query-done events network healthy.draws protos policy config healthy.accepted chain_id
          healthy.responds ids w in
      (answer, e)

  block_query_ex-IsTotal :
      (ids : List String)
      → IsTotal (block_query_ex events network protos policy (started policy config) chain_id ids)
  block_query_ex-IsTotal ids w =
      let (answer, e, is_answer) =
        block_query_ex-done events network healthy.draws protos policy config healthy.accepted
          chain_id healthy.responds ids w in
      (answer, e)

  single-Returns :
      (h : Handler) (c : Request)
      → is_single h ≡ true
      → IsTotal (handle server h c)
      → Returns IsOnce (handle server h c)
  single-Returns h c single total =
      total-Returns IsOnce (handle server h c) total (λ w. handle-IsOnce server c h w single)

  -- If the server's configuration is accepted and its rule is "or", opened files have sizes,
  -- derived keys are long enough for AES, AES and base64 decode what they encoded, `rand.Intn`
  -- draws below its bound, CouchDB has a client or an error, each peer's answer to Query is an
  -- error or begins with a response, and no pointer that the server follows in the peers' answers
  -- to GetBlockByTxID, and in the blocks that these decode to, is nil, then the handler of each
  -- route returns, whatever the request is. SaveData, DslQuery and KeepaliveQuery have then
  -- answered exactly once, and the two handlers of blocks once, or twice with the same status.
  pub handle-AreAnswers :
      (h : Handler) (c : Request) (w : host.World)
      → (calls : List WriterCall) × ((handle server h c w).0 ≡ done calls)
        × AreAnswers (is_single h) calls
  unfolding handle search keepalive_query block_query_handler block_query_ex_handler
  handle-AreAnswers on_save_data c w =
      single-Returns on_save_data c refl
        (λ v.
          let (calls, e, saved) =
            save_data-done host ciphers healthy.sizes healthy.laws network healthy.draws codec web
              policy config healthy.accepted c v in
          rw healthy.configured (calls, e))
        w
  handle-AreAnswers on_dsl_query c w =
      single-Returns on_dsl_query c refl (rw healthy.configured (dsl_body-IsTotal c c.body)) w
  handle-AreAnswers on_keepalive_query c w =
      single-Returns on_keepalive_query c refl
        (rw healthy.configured (
          bind-IsTotal (peer_keepalive network policy (started policy config) "KeepaliveQuery") _
            (peer_keepalive-IsTotal "KeepaliveQuery") (peer_probed-IsTotal c)))
        w
  handle-AreAnswers on_block_query c w = rw healthy.configured (
      search_blocks-Returns c
        (block_query events network protos policy (started policy config) chain_id)
        block_query-IsTotal w)
  handle-AreAnswers on_block_query_ex c w = rw healthy.configured (
      search_blocks-Returns c
        (block_query_ex events network protos policy (started policy config) chain_id)
        block_query_ex-IsTotal w)
