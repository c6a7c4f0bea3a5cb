-- ===== src/Apiserver/Sdk/Documents/Agrees.antt =====
-- What DSL answers: its status, its error and its payload agree, on every branch.
use test_fabric.Base.{
  String, ◌≡◌, refl, ◌⊎◌, inl, inr, Option, none, some, List, [], Error, Result, ok, err,
  Bool-cases, ltb,
}
use test_fabric.Base.Int.{pos}
use test_fabric.Base.Go.{any-After, After, then_run-After}
use test_fabric.Apiserver.Define.{Page, nil, factors, Message, Factor, QueryRequest}
use test_fabric.Apiserver.Host.{Host, Ciphers}
use test_fabric.Apiserver.Message.Total.{HasSizes, format_response_message-done}
use test_fabric.Apiserver.Sdk.Peers.{Network}
use test_fabric.Apiserver.Sdk.BlockQuery.{Answer}
use test_fabric.Apiserver.Sdk.Documents.{
  Couch, page_or_first, ask_client, read_documents, answer_read, answer_queried, dsl,
}

-- Either there is an error, the status is 1 with the error's text, and there is no payload, or
-- there is no error, the status is 0 and the payload is a list of factors.
abbrev pub Agrees : Answer → Type 0
Agrees (contents, status, page, e) =
    ((e ≡ some status.status_msg) × (status.status_code ≡ pos 1) × (contents.payload ≡ nil))
    ⊎ ((e ≡ none)
        × (status.status_code ≡ pos 0)
        × ((list : List Factor) × (contents.payload ≡ factors list)))

module _ (host : Host) (ciphers : Ciphers host.World) (sizes : HasSizes host)
    (network : Network host.World) (couch : Couch host.World) (user_id : String) where
  answer_read-Agrees :
      (function : String) (read : Page × Option (String × Error) × List Message) (w : host.World)
      → After Agrees (answer_read host ciphers network couch user_id function read w).0
  answer_read-Agrees function (page, some (action, e), messages) w = inl (refl, refl, refl)
  answer_read-Agrees function (page, none, messages) w =
      let (fs, e, same) = format_response_message-done host ciphers sizes user_id [] messages w in
      rw e (inr (refl, refl, (fs, refl)))

  answer_queried-Agrees :
      (function : String) (page : Page) (qrs : Result (List String)) (w : host.World)
      → After Agrees (answer_queried host ciphers network couch user_id function page qrs w).0
  answer_queried-Agrees function page (err e) w = inl (refl, refl, refl)
  answer_queried-Agrees function page (ok qrs) w =
      answer_read-Agrees function (read_documents host ciphers network couch user_id page [] qrs) w

  -- On a host whose opened files have sizes, if DSL returns at all, its answer agrees with itself:
  -- either it has an error, which is the text of its status 1, and no payload, or it has no error,
  -- its status is 0 and its payload is a list of factors.
  pub dsl-Agrees :
      (function : String) (request : QueryRequest) (w : host.World)
      → After Agrees (dsl host ciphers network couch user_id function request w).0
  unfolding dsl
  dsl-Agrees function request w =
      elim (Bool-cases (ltb 1000 (page_or_first request.split_page).page_size)) [
        | inl large ↦ rw large (inl (refl, refl, refl))
        | inr small ↦
            let clients = couch.get_db_clients w in
            let asked =
              ask_client host ciphers network couch user_id request.dsl_syntax clients.0
                clients.1 in
            rw small (
              then_run-After (λ a. Unit {0}) Agrees asked.0
                (answer_queried host ciphers network couch user_id function request.split_page)
                asked.1 (any-After asked.0)
                (λ qrs t u. answer_queried-Agrees function request.split_page qrs t))
      ]
