-- ===== src/Apiserver/Handler/Answers/Blocks.antt =====
-- What the two handlers of blocks answer.
use test_fabric.Base.{
  ℕ, String, ◌≡◌, refl, ◌∙◌, subst, inl, inr, true, Option, none, some, List, [], ◌∷◌, Error,
}
use test_fabric.Base.Go.{Go, done, After}
use test_fabric.Apiserver.Define.{
  Page, ResponseStatus, Payload, nil, rows, blocks, factors, texts, QueryContents,
}
use test_fabric.Apiserver.Host.{Host, Ciphers}
use test_fabric.Apiserver.Message.Total.{HasSizes}
use test_fabric.Apiserver.Sdk.Peers.{Policy, Sdk, Network}
use test_fabric.Apiserver.Sdk.Events.{Protos}
use test_fabric.Apiserver.Sdk.BlockQuery.{EventCodec, Answer}
use test_fabric.Apiserver.Sdk.Documents.{Couch, dsl_query}
use test_fabric.Apiserver.Sdk.Query.{ReplyCodec, query}
use test_fabric.Apiserver.Sdk.Query.Agrees.{Agrees, IsNoTexts, query-Agrees}
use test_fabric.Apiserver.Handler.Web.{
  Request, WriterCall, contents, WebCodec, response, failure, status_bad_request,
}
use test_fabric.Apiserver.Handler.Search.{
  business_request, text_list, empty_contents, last_response, both_responses, respond_ids,
  respond_query, search_blocks,
}
use test_fabric.Apiserver.Handler.Answers.{statuses, statuses-append, statuses-response}

-- One answer without transactions, two with the same status otherwise.
abbrev pub Answers : Option (List String) → List WriterCall → Type 0
Answers none calls = (status : ℕ) × (statuses calls ≡ status ∷ [])
Answers (some []) calls = (status : ℕ) × (statuses calls ≡ status ∷ [])
Answers (some (id ∷ ids)) calls = (status : ℕ) × (statuses calls ≡ status ∷ status ∷ [])

module _ (web : WebCodec) (c : Request) (page : Page) where
  both_responses-statuses :
      (status : ℕ) (answer : Answer)
      → (s : ℕ) × (statuses (both_responses web c page status answer) ≡ s ∷ s ∷ [])
  both_responses-statuses status (found, ret_status, p, none) = (
    status,
    (statuses-append (response web (contents found) c status ret_status (some page))
          (last_response web c page (status, ret_status))
        ∙ rw
            (
              statuses-response web (contents found) c status ret_status (some page),
              statuses-response web (contents empty_contents) c status ret_status (some page),
            )
            refl),
  )
  both_responses-statuses status (found, ret_status, p, some e) = (
    status_bad_request,
    (statuses-append (response web (contents found) c status_bad_request (failure e) (some page))
          (last_response web c page (status_bad_request, failure e))
        ∙ rw
            (
              statuses-response web (contents found) c status_bad_request (failure e) (some page),
              statuses-response web (contents empty_contents) c status_bad_request (failure e)
                  (some page),
            )
            refl),
  )

  pub last_response-statuses :
      (status : ℕ) (ret : ResponseStatus)
      → statuses (last_response web c page (status, ret)) ≡ status ∷ []
  last_response-statuses status ret =
      statuses-response web (contents empty_contents) c status ret (some page)

  respond_ids-done :
      {World : Type 0} (ask : List String → Go World Answer) (ids : List String) (status : ℕ)
      (ret : ResponseStatus) (w : World)
      → ((ids : List String) (v : World) → (a : Answer) × ((ask ids v).0 ≡ done a))
      → (calls : List WriterCall) × ((respond_ids web c page ask (ids, status, ret) w).0
          ≡ done calls)
        × Answers (some ids) calls
  respond_ids-done ask [] status ret w returns =
      (last_response web c page (status, ret), refl, (status, last_response-statuses status ret))
  respond_ids-done ask (id ∷ ids) status ret w returns =
      let (answer, e) = returns (id ∷ ids) w in
      (both_responses web c page status answer, rw e refl, both_responses-statuses status answer)

text_list-none : (p : Payload) → IsNoTexts p → text_list p ≡ none
text_list-none nil h = refl
text_list-none (rows list) h = refl
text_list-none (blocks list) h = refl
text_list-none (factors list) h = refl
text_list-none (texts list) h = absurd (h list refl)

module _ (host : Host) (ciphers : Ciphers host.World) (sizes : HasSizes host)
    (network : Network host.World) (couch : Couch host.World) (protos : Protos)
    (events : EventCodec) (codec : ReplyCodec) (web : WebCodec) (policy : Policy) (sdk : Sdk)
    (chain_id user_id : String) (ask : List String → Go host.World Answer)
    (returns : (ids : List String) (w : host.World) → (a : Answer) × ((ask ids w).0 ≡ done a)) where
  -- The answer of Query is never one whose missing error is asked for its text.
  respond_query-done :
      (c : Request) (found : QueryContents) (ret : ResponseStatus) (page : Page) (e : Option Error)
      (w : host.World)
      → Agrees true (found, ret, page, e)
      → (calls : List WriterCall) × ((respond_query host ciphers network couch protos events codec
            web policy sdk chain_id user_id ask c
            (found, ret, page, e)
            w).0
          ≡ done calls)
        × Answers (text_list found.payload) calls
  respond_query-done c found ret page none w (inl (failed, code, no_texts)) = cc
  respond_query-done c found ret page none w (inr (worked, (list, texts_found))) =
      rw texts_found (respond_ids-done web c page ask list 200 ret w returns)
  respond_query-done c found ret page (some e) w (inr (worked, fits)) = cc
  respond_query-done c found ret page (some e) w (inl (failed, code, no_texts)) =
      let ret' = record (failure e) { status_msg = e } in
      rw (text_list-none found.payload no_texts) (
        last_response web c page (status_bad_request, ret'),
        refl,
        (status_bad_request, last_response-statuses web c page status_bad_request ret'),
      )

  -- If Query returns, and the blocks that are asked for with its ids always come, with an error or
  -- without, then the handler returns: it answers once if Query finds no ids, and twice, with the
  -- same status, if it finds some.
  pub search_blocks-done :
      (c : Request) (found : QueryContents) (ret : ResponseStatus) (page : Page) (e : Option Error)
      (w : host.World)
      → (query host ciphers network codec user_id policy sdk dsl_query
          (web.encode_query (business_request c.id (web.decode_page (c.header "page"))))
          true
          w).0
        ≡ done (found, ret, page, e)
      → (calls : List WriterCall) × ((search_blocks host ciphers network couch protos events codec
            web policy sdk chain_id user_id ask c w).0
          ≡ done calls)
        × Answers (text_list found.payload) calls
  unfolding search_blocks
  search_blocks-done c found ret page e w asked =
      let request = web.encode_query (business_request c.id (web.decode_page (c.header "page"))) in
      let agrees =
        query-Agrees host ciphers sizes network codec user_id policy sdk dsl_query request true w in
      rw asked (respond_query-done c found ret page e _ (subst (After (Agrees true)) asked agrees))
