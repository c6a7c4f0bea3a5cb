-- ===== src/Apiserver/Handler/Search.antt =====
-- apiserver/handler/factor.go: DslQuery, BlockQuery and BlockQueryEx.
use Prim.Native.String.{◌++◌ as str_append}
use test_fabric.Base.{
  ℕ, String, true, false, Option, none, some, List, [], ◌∷◌, ◌++◌, Error, Result, ok, err,
}
use test_fabric.Base.Go.{Go, ◌>>=◌, pure, panic}
use test_fabric.Apiserver.Define.{
  Page, ResponseStatus, QueryRequest, Payload, nil, rows, blocks, factors, texts, QueryContents,
}
use test_fabric.Apiserver.Host.{Host, Ciphers}
use test_fabric.Apiserver.Sdk.Peers.{Policy, Sdk, Network}
use test_fabric.Apiserver.Sdk.Events.{Protos, nil_pointer}
use test_fabric.Apiserver.Sdk.BlockQuery.{EventCodec, Answer, block_query, block_query_ex}
use test_fabric.Apiserver.Sdk.Documents.{Couch, dsl_query, dsl}
use test_fabric.Apiserver.Sdk.Query.{ReplyCodec, query}
use test_fabric.Apiserver.Handler.Web.{
  Request, WriterCall, nothing, contents, WebCodec, status_ok, status_no_content,
  status_bad_request, response, failure,
}

-- `status` and `responseStatus` after a query.
abbrev pub status_of : ResponseStatus → Option Error → ℕ × ResponseStatus
status_of ret_status none = (status_ok, ret_status)
status_of ret_status (some e) = (status_bad_request, failure e)

abbrev pub business_request : String → Page → QueryRequest
business_request business_no page = record {
  dsl_syntax = str_append "{\"selector\":{\"businessNo\":\"" (str_append business_no "\"}}");
  split_page = page;
  block_flag = true;
}

-- `Payload.([]string)`
abbrev pub text_list : Payload → Option (List String)
text_list nil = none
text_list (rows list) = none
text_list (blocks list) = none
text_list (factors list) = none
text_list (texts list) = some list

-- The ids of the transactions, and the status after them: of another payload, the error is asked
-- for its text, which panics if it is nil.
abbrev pub id_list :
    {World : Type 0}
    → Option (List String)
    → ℕ × ResponseStatus
    → Option Error
    → Go World (List String × ℕ × ResponseStatus)
id_list (some ids) status e = pure (ids, status.0, status.1)
id_list none status none = panic nil_pointer
id_list none status (some e) = pure ([], status_bad_request, record (status.1) { status_msg = e })

-- `define.QueryContents{}`
abbrev pub empty_contents : QueryContents
empty_contents = record { schema = ""; payload = nil }

module _ (web : WebCodec) (c : Request) (page : Page) where
  -- The answer of the last line, and the two answers if there are transactions.
  abbrev pub last_response : ℕ × ResponseStatus → List WriterCall
  last_response (status, response_status) =
      response web (contents empty_contents) c status response_status (some page)

  abbrev pub both_responses : ℕ → Answer → List WriterCall
  both_responses status (found, ret_status, p, none) =
      response web (contents found) c status ret_status (some page)
      ++ last_response (status, ret_status)
  both_responses status (found, ret_status, p, some e) =
      response web (contents found) c status_bad_request (failure e) (some page)
      ++ last_response (status_bad_request, failure e)

  abbrev pub respond_ids :
      {World : Type 0}
      → (List String → Go World Answer)
      → List String × ℕ × ResponseStatus
      → Go World (List WriterCall)
  respond_ids ask ([], status, response_status) = pure (last_response (status, response_status))
  respond_ids ask (id ∷ ids, status, response_status) = do
    answer ← ask (id ∷ ids)
    pure (both_responses status answer)

module _ (host : Host) (ciphers : Ciphers host.World) (network : Network host.World)
    (couch : Couch host.World) (protos : Protos) (events : EventCodec) (codec : ReplyCodec)
    (web : WebCodec) (policy : Policy) (sdk : Sdk) (chain_id user_id : String) where
  open host use {World}

  abbrev pub dsl_response : Request → Answer → List WriterCall
  dsl_response c (found, ret_status, page, e) =
      let status = status_of ret_status e in
      response web (contents found) c status.0 status.1 (some page)

  abbrev pub dsl_body : Request → Result String → Go World (List WriterCall)
  dsl_body c (err e) = pure (response web nothing c status_no_content (failure e) none)
  dsl_body c (ok body) = do
    answer ← dsl host ciphers network couch user_id dsl_query (record {
      dsl_syntax = body;
      split_page = web.decode_page (c.header "page");
      block_flag = false;
    })
    pure (dsl_response c answer)

  -- DslQuery
  unfoldable pub search : Request → Go World (List WriterCall)
  unfolding dsl response
  search c = dsl_body c c.body

  -- The two handlers of blocks, which differ in what they ask with the ids that Query finds.
  abbrev pub respond_query :
      (List String → Go World Answer) → Request → Answer → Go World (List WriterCall)
  respond_query ask c (found, ret_status, page, e) = do
    ids ← id_list (text_list found.payload) (status_of ret_status e) e
    respond_ids web c page ask ids

  unfoldable pub search_blocks :
      (List String → Go World Answer) → Request → Go World (List WriterCall)
  unfolding query response
  search_blocks ask c = do
    answer ←
        query host ciphers network codec user_id policy sdk dsl_query
          (web.encode_query (business_request c.id (web.decode_page (c.header "page")))) true
    respond_query ask c answer

  unfoldable pub block_query_handler : Request → Go World (List WriterCall)
  unfolding search_blocks block_query
  block_query_handler = search_blocks (block_query events network protos policy sdk chain_id)

  unfoldable pub block_query_ex_handler : Request → Go World (List WriterCall)
  unfolding search_blocks block_query_ex
  block_query_ex_handler = search_blocks (block_query_ex events network protos policy sdk chain_id)
