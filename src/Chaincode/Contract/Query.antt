-- ===== src/Chaincode/Contract/Query.antt =====
-- What an invocation of DslQuery answers.
use test_fabric.Base.{
  ◌≡◌, ◌≢◌, ◌<◌, ◌%◌, refl, String, Option, none, some, List, ◌∷◌, ◌++◌, map, length, Error, Result,
  ok, err, eq-false_of_ne,
}
use test_fabric.Chaincode.Define.{
  QueryRequest, QueryResponse, Page, Payload, nil, strings, uint_size,
}
use test_fabric.Chaincode.Shim.{Shim, Kv, Codec, success}
use test_fabric.Chaincode.Reply.{status_of, query_response}
use test_fabric.Chaincode.Handler.{Args, no_query, reply_found, query_decoded, dsl_query}
use test_fabric.Chaincode.Contract.{respond, invoke}
use test_fabric.Chaincode.Paging.{Found, get_value_by_dsl}
use test_fabric.Chaincode.Paging.Scan.{with_total}
use test_fabric.Chaincode.Paging.Window.{page_of}
use test_fabric.Chaincode.Paging.Laws.{get_value_by_dsl-page, get_value_by_dsl-broken}

-- The envelope of a DslQuery.
abbrev pub envelope : String → Option Error → Payload → Page → QueryResponse
envelope track_id error payload page = record {
  track_id = track_id;
  res_status = status_of error;
  payload = payload;
  page = page;
}

module _ (shim : Shim) (codec : Codec) (track_id text answer : String) (rest : List String)
    (request : QueryRequest) (s s' : shim.Stub) (given : text ≢ "") where
  open shim use {get_query_result, close_iterator}
  open codec use {decode_query, encode_query}

  -- A DslQuery whose request is not empty and decodes, with a selector that is not empty, and which
  -- finds records that can all be read, answers with the page of them that was asked for and with
  -- their number, in an envelope of code 0, if that envelope can be encoded.
  pub invoke-query :
      (kvs : List Kv)
      → decode_query text no_query ≡ (request, none)
      → request.dsl_syntax ≢ ""
      → request.split_page.page_size < uint_size
      → get_query_result request.dsl_syntax s ≡ (ok (map ok kvs), s')
      → encode_query (
          envelope track_id none
            (strings (page_of request kvs))
            ((with_total request (length kvs % uint_size)).split_page))
        ≡ (answer, none)
      → invoke shim codec "DslQuery" (track_id ∷ text ∷ rest) s
        ≡ (success answer, (close_iterator s').1)
  unfolding invoke dsl_query
  invoke-query kvs decoded asked fits found encoded = rw (
    eq-false_of_ne text "" given,
    decoded,
    get_value_by_dsl-page shim request s s' asked kvs fits found,
    encoded,
  )

  -- A DslQuery whose request decodes, with a selector that is not empty, and which finds a record
  -- that cannot be read, is still a successful transaction: the error of the database is told in an
  -- envelope of code 1, and the response that carries it, if it can be encoded, is a success.
  pub invoke-query_broken :
      (kvs : List Kv) (e : Error) (items : List (Result Kv))
      → decode_query text no_query ≡ (request, none)
      → request.dsl_syntax ≢ ""
      → request.split_page.page_size < uint_size
      → get_query_result request.dsl_syntax s ≡ (ok (map ok kvs ++ err e ∷ items), s')
      → encode_query (
          envelope track_id (some e) nil ((with_total request (length kvs % uint_size)).split_page))
        ≡ (answer, none)
      → invoke shim codec "DslQuery" (track_id ∷ text ∷ rest) s
        ≡ (success answer, (close_iterator s').1)
  unfolding invoke dsl_query
  invoke-query_broken kvs e items decoded asked fits found encoded = rw (
    eq-false_of_ne text "" given,
    decoded,
    get_value_by_dsl-broken shim request s s' asked kvs e items fits found,
    encoded,
  )

respond-success :
    (reply : String × Option Error) → reply.1 ≡ none → (p : String) × (respond reply ≡ success p)
respond-success (p, none) h = (p, refl)
respond-success (p, some e) h = cc

query_decoded-success :
    (shim : Shim) (codec : Codec)
    → ((r : QueryResponse) → (codec.encode_query r).1 ≡ none)
    → (args : Args) (decoded : QueryRequest × Option Error) (s : shim.Stub)
    → (p : String) × (respond (query_decoded shim codec args decoded s).0 ≡ success p)
unfolding query_response
query_decoded-success shim codec encodes args (request, some e) s = respond-success _ (encodes _)
query_decoded-success shim codec encodes args (request, none) s =
    found (get_value_by_dsl shim request s).0
  where
    found : (f : Found) → (p : String) × (respond (reply_found shim codec args f) ≡ success p)
    found (result, none, request) = respond-success _ (encodes _)
    found (result, some e, request) = respond-success _ (encodes _)

-- As long as responses can be encoded, DslQuery never fails on a request that is not empty,
-- whatever the request holds and whatever the database answers: `QueryResponse` returns the error
-- of the encoding, not its own.
pub invoke-query_succeeds :
    (shim : Shim) (codec : Codec) (track_id text : String) (rest : List String) (s : shim.Stub)
    → text ≢ ""
    → ((r : QueryResponse) → (codec.encode_query r).1 ≡ none)
    → (answer : String) × ((invoke shim codec "DslQuery" (track_id ∷ text ∷ rest) s).0
        ≡ success answer)
unfolding invoke dsl_query
invoke-query_succeeds shim codec track_id text rest s given encodes =
    rw (eq-false_of_ne text "" given) (
      query_decoded-success shim codec encodes (record { track_id = track_id; request = text })
        (codec.decode_query text no_query) s)
