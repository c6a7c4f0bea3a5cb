-- ===== src/Apiserver/Sdk/Documents/Returns.antt =====
-- DSL always returns, if there is a client of CouchDB.
use test_fabric.Base.{
  String, ◌≡◌, refl, ◌≢◌, ◌<◌, Option, none, some, List, [], ◌∷◌, Error, Result, ok, err,
  Bool-cases, ltb, length, inl, inr, get_elem?, get_elem?-some, arith,
}
use test_fabric.Base.Go.{done, or_panic}
use test_fabric.Base.Total.{IsTotal, bind-IsTotal, call-IsTotal, total-Returns, bind_from-IsTotal}
use test_fabric.Apiserver.Define.{Page, Message, QueryRequest}
use test_fabric.Apiserver.Host.{Host, Ciphers}
use test_fabric.Apiserver.Message.Total.{HasSizes, format_response_message-done}
use test_fabric.Apiserver.Sdk.Peers.{Network, generate_range_num}
use test_fabric.Apiserver.Sdk.Peers.Choice.{DrawsBelow, generate_range_num-below}
use test_fabric.Apiserver.Sdk.BlockQuery.{Answer}
use test_fabric.Apiserver.Sdk.Documents.{
  Couch, page_or_first, ask_client, read_documents, answer_read, answer_queried, dsl,
}
use test_fabric.Apiserver.Sdk.Documents.Agrees.{Agrees, dsl-Agrees}

module _ (host : Host) (ciphers : Ciphers host.World) (sizes : HasSizes host)
    (network : Network host.World) (draws : DrawsBelow network) (couch : Couch host.World)
    (clients : (w : host.World) → (couch.get_db_clients w).0 ≢ ok []) (user_id : String) where
  answer_read-IsTotal :
      (function : String) (read : Page × Option (String × Error) × List Message)
      → IsTotal (answer_read host ciphers network couch user_id function read)
  answer_read-IsTotal function (page, some (action, e), messages) = λ w. (_, refl)
  answer_read-IsTotal function (page, none, messages) = λ w.
      let (fs, e, same) = format_response_message-done host ciphers sizes user_id [] messages w in
      rw e (_, refl)

  answer_queried-IsTotal :
      (function : String) (page : Page) (qrs : Result (List String))
      → IsTotal (answer_queried host ciphers network couch user_id function page qrs)
  answer_queried-IsTotal function page (err e) = λ w. (_, refl)
  answer_queried-IsTotal function page (ok qrs) =
      answer_read-IsTotal function (read_documents host ciphers network couch user_id page [] qrs)

  ask_client-IsTotal :
      (syntax : String) (all : Result (List couch.Client))
      → all ≢ ok []
      → IsTotal (ask_client host ciphers network couch user_id syntax all)
  ask_client-IsTotal syntax (err e) there = λ w. (_, refl)
  ask_client-IsTotal syntax (ok []) there = absurd (there refl)
  ask_client-IsTotal syntax (ok (cli ∷ rest)) there =
      bind_from-IsTotal (λ i. i < length (cli ∷ rest))
        (generate_range_num network 0 (length (cli ∷ rest))) _
        (λ w. generate_range_num-below network draws (length (cli ∷ rest)) w (omega arith))
        λ i below.
          let (chosen, at) = get_elem?-some (cli ∷ rest) i below in
          bind-IsTotal (or_panic (get_elem? (cli ∷ rest) i) "index out of range") _
            (λ w. rw at (chosen, refl)) λ one. call-IsTotal (couch.query_documents one syntax)

  dsl-IsTotal :
      (function : String) (request : QueryRequest)
      → IsTotal (dsl host ciphers network couch user_id function request)
  unfolding dsl
  dsl-IsTotal function request =
      elim (Bool-cases (ltb 1000 (page_or_first request.split_page).page_size)) [
        | inl large ↦ rw large (λ w. (_, refl))
        | inr small ↦ rw small λ w.
            let got = couch.get_db_clients w in
            bind-IsTotal (ask_client host ciphers network couch user_id request.dsl_syntax got.0) _
              (ask_client-IsTotal request.dsl_syntax got.0 (clients w))
              (answer_queried-IsTotal function request.split_page) got.1
      ]

  -- On a host whose opened files have sizes, if CouchDB's clients are an error or at least one, and
  -- `rand.Intn` draws below its bound, then DSL returns. Either its answer has an error, which is
  -- the text of its status 1, and no payload, or it has no error, its status is 0 and its payload is
  -- a list of factors.
  pub dsl-done :
      (function : String) (request : QueryRequest) (w : host.World)
      → (answer : Answer) × ((dsl host ciphers network couch user_id function request w).0
          ≡ done answer)
        × Agrees answer
  dsl-done function request w =
      total-Returns Agrees (dsl host ciphers network couch user_id function request)
        (dsl-IsTotal function request)
        (dsl-Agrees host ciphers sizes network couch user_id function request) w
