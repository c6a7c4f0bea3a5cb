-- ===== src/Apiserver/Handler/Answers/Refused.antt =====
-- The block queries against the chaincode: Query sends one argument, and the chaincode asks for two.
use test_fabric.Base.{
  String, ◌≡◌, refl, ◌≢◌, true, Option, none, some, List, [], ◌∷◌, Error, Result, ok, err, ◌⊎◌, inl,
  inr,
}
use test_fabric.Base.Go.{Go, Run, done, panicked, then_run}
use test_fabric.Apiserver.Define.{QueryResponse}
use test_fabric.Apiserver.Host.{Host, Ciphers}
use test_fabric.Apiserver.Sdk.Peers.{
  ClientConfig, Policy, Network, set_send_peer_order, get_send_peer_name,
}
use test_fabric.Apiserver.Sdk.Peers.Ready.{empty_sdk}
use test_fabric.Apiserver.Sdk.Peers.Choice.{DrawsBelow}
use test_fabric.Apiserver.Sdk.Peers.Calls.{started, get_send_peer_name-IsEligible, one_name}
use test_fabric.Apiserver.Sdk.Events.{Protos, nil_pointer}
use test_fabric.Apiserver.Sdk.BlockQuery.{EventCodec, Answer}
use test_fabric.Apiserver.Sdk.Documents.{Couch, dsl_query}
use test_fabric.Apiserver.Sdk.Query.{
  ReplyCodec, success_data, answer_decoded, answer_response, query,
}
use test_fabric.Apiserver.Handler.Web.{Request, WebCodec, failure, status_bad_request}
use test_fabric.Apiserver.Handler.Search.{
  business_request, text_list, last_response, respond_query, search_blocks,
}
use test_fabric.Apiserver.Handler.Answers.{statuses}
use test_fabric.Apiserver.Handler.Answers.Blocks.{last_response-statuses}
use test_fabric.Chaincode.Shim.{Shim, Codec as CcCodec, failure as refusal}
use test_fabric.Chaincode.Contract.{check_args, invoke}

-- How a refused invocation comes back: as an error, as the nil response that gohfc makes of a peer's
-- error, or as a response whose payload is no JSON of an answer.
abbrev pub IsRefusal : ReplyCodec → Result (List (Option String)) → Type 0
IsRefusal codec (err e) = Unit
IsRefusal codec (ok []) = ⊥
IsRefusal codec (ok (none ∷ rest)) = Unit
IsRefusal codec (ok (some payload ∷ rest)) = (codec.decode_response payload success_data).1 ≢ none

-- The peers run the chaincode on their ledger: what it refuses comes back as a refusal.
pub record RunsChaincode {World : Type 0} (network : Network World) (codec : ReplyCodec)
    (shim : Shim) (chaincode : CcCodec) : Type 0 where
  pub ledger : World → shim.Stub
  pub refuses :
      (function : String) (args peers : List String) (w : World) (e : Error)
      → (invoke shim chaincode function args (ledger w)).0 ≡ refusal e
      → IsRefusal codec (network.query (function ∷ args) peers w).0

-- An answer with an error, and without texts.
abbrev IsFailed : Answer → Type 0
IsFailed (contents, status, page, e) = (e ≢ none) × (text_list contents.payload ≡ none)

-- A run that panics at a nil pointer, or ends with a value that has a property.
abbrev pub FailsOr : {A : Type 0} → (A → Type 0) → Run A → Type 0
FailsOr {A = A} Q r = (r ≡ panicked nil_pointer) ⊎ ((a : A) × (r ≡ done a) × Q a)

then_run-FailsOr :
    {S A B : Type 0} (Q : A → Type 0) (R : B → Type 0) (f : A → Go S B) (r : Run A) (s : S)
    → FailsOr Q r
    → ((a : A) → Q a → FailsOr R (f a s).0)
    → FailsOr R (then_run f r s).0
then_run-FailsOr Q R f r s (inl stopped) h = inl (rw stopped refl)
then_run-FailsOr Q R f r s (inr (a, e, q)) h = rw e (h a q)

module _ (host : Host) (ciphers : Ciphers host.World) (network : Network host.World)
    (draws : DrawsBelow network) (codec : ReplyCodec) (user_id : String) (policy : Policy)
    (config : ClientConfig) (accepted : (set_send_peer_order policy (ok config) empty_sdk).0 ≡ none)
    (rule_or : policy.rule ≡ "or") (shim : Shim) (chaincode : CcCodec)
    (runs : RunsChaincode network codec shim chaincode) where
  answer_decoded-IsFailed :
      (function : String) (got : QueryResponse × Option Error) (w : host.World)
      → got.1 ≢ none
      → FailsOr IsFailed (answer_decoded host ciphers network codec user_id function true got w).0
  answer_decoded-IsFailed function (reply, none) w failed = absurd (failed refl)
  answer_decoded-IsFailed function (reply, some e) w failed = inr (_, refl, ((λ n. cc), refl))

  answer_response-IsFailed :
      (function : String) (response : Result (List (Option String))) (w : host.World)
      → IsRefusal codec response
      → FailsOr IsFailed
          (answer_response host ciphers network codec user_id function true response w).0
  answer_response-IsFailed function (err e) w refused = inr (_, refl, ((λ n. cc), refl))
  answer_response-IsFailed function (ok []) w refused = absurd refused
  answer_response-IsFailed function (ok (none ∷ rest)) w refused = inl refl
  answer_response-IsFailed function (ok (some payload ∷ rest)) w refused =
      answer_decoded-IsFailed function (codec.decode_response payload success_data) w refused

  query-IsFailed :
      (function request : String) (w : host.World)
      → FailsOr IsFailed
          (query host ciphers network codec user_id policy
            (started policy config)
            function
            request
            true
            w).0
  unfolding query invoke check_args
  query-IsFailed function request w =
      let (names, e, all, single, each) =
        get_send_peer_name-IsEligible network draws policy config accepted w in
      let (peer, only, eligible) =
        one_name network draws policy config accepted names (single rule_or) all in
      let v = (get_send_peer_name network policy (started policy config) w).1 in
      let refused = runs.refuses function (request ∷ []) (peer ∷ []) v _ refl in
      rw (e, only)
        (answer_response-IsFailed function (network.query (function ∷ request ∷ []) (peer ∷ []) v).0
          _ refused)

  module _ (couch : Couch host.World) (protos : Protos) (events : EventCodec) (web : WebCodec)
      (chain_id : String) (ask : List String → Go host.World Answer) where
    respond_query-refused :
        (c : Request) (answer : Answer) (w : host.World)
        → IsFailed answer
        → FailsOr
            (λ calls. statuses calls ≡ status_bad_request ∷ [])
            (respond_query host ciphers network couch protos events codec web policy
              (started policy config)
              chain_id
              user_id
              ask
              c
              answer
              w).0
    respond_query-refused c (found, ret, page, none) w (failed, no_texts) = absurd (failed refl)
    respond_query-refused c (found, ret, page, some e) w (failed, no_texts) = rw no_texts (
        inr (
          last_response web c page (status_bad_request, failure e),
          refl,
          last_response-statuses web c page status_bad_request (failure e),
        ))

    -- If SetSendPeerOrder accepts the configuration, the rule is "or", `rand.Intn` draws below its
    -- bound and the peers run this repository's chaincode, whose refusals come back as an error, as
    -- a nil response or with a payload that is no JSON of an answer, then both handlers of blocks
    -- fail on every request, in every state of the ledger and whatever they would ask with the ids:
    -- each panics at a nil pointer or answers once, with status 400. Query sends the function and one
    -- argument, and the chaincode refuses to run with fewer than two.
    pub search_blocks-refused :
        (c : Request) (w : host.World)
        → FailsOr
            (λ calls. statuses calls ≡ status_bad_request ∷ [])
            (search_blocks host ciphers network couch protos events codec web policy
              (started policy config)
              chain_id
              user_id
              ask
              c
              w).0
    unfolding search_blocks
    search_blocks-refused c w =
        let request =
          web.encode_query (business_request c.id (web.decode_page (c.header "page"))) in
        let asked =
          query host ciphers network codec user_id policy (started policy config) dsl_query request
            true w in
        then_run-FailsOr IsFailed (λ calls. statuses calls ≡ status_bad_request ∷ []) _ asked.0
          asked.1 (query-IsFailed dsl_query request w)
          (λ answer failed. respond_query-refused c answer asked.1 failed)
