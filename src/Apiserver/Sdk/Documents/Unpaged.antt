-- ===== src/Apiserver/Sdk/Documents/Unpaged.antt =====
-- DSL does not look at the number of the page.
use test_fabric.Base.{
  String, ◌≡◌, refl, inl, inr, false, Option, none, some, List, [], ◌∷◌, ◌++◌, Error, Result, ok,
  err, Option-cases, ltb,
}
use test_fabric.Base.Go.{Run, Go, done, panicked, then_run, pure}
use test_fabric.Apiserver.Define.{Page, Message, Factor, QueryRequest, QueryContents}
use test_fabric.Apiserver.Host.{Host, Ciphers}
use test_fabric.Apiserver.Message.{format_response_message}
use test_fabric.Apiserver.Sdk.Peers.{Network}
use test_fabric.Apiserver.Sdk.BlockQuery.{Answer}
use test_fabric.Apiserver.Sdk.Documents.{
  Couch, page_or_first, count, ask_client, read_documents, formatted, answer_read, answer_queried,
  unwrapped, remove_data_wrapper, dsl,
}

-- The contents and the error of an answer, or the panic.
abbrev pub outcome : Run Answer → Run (QueryContents × Option Error)
outcome (done (contents, status, page, e)) = done (contents, e)
outcome (panicked e) = panicked e

outcome-then_run :
    {S A : Type 0} (f g : A → Go S Answer) (r : Run A) (s : S)
    → ((a : A) (t : S) → outcome (f a t).0 ≡ outcome (g a t).0)
    → outcome (then_run f r s).0 ≡ outcome (then_run g r s).0
outcome-then_run f g (done a) s h = h a s
outcome-then_run f g (panicked e) s h = refl

module _ (host : Host) (ciphers : Ciphers host.World) (network : Network host.World)
    (couch : Couch host.World) (user_id : String) where
  read_documents-page :
      (p q : Page) (messages : List Message) (qrs : List String)
      → ((read_documents host ciphers network couch user_id p messages qrs).1
          ≡ (read_documents host ciphers network couch user_id q messages qrs).1)
        × ((read_documents host ciphers network couch user_id p messages qrs).2
            ≡ (read_documents host ciphers network couch user_id q messages qrs).2)
  unfolding read_documents
  read_documents-page p q messages [] = (refl, refl)
  read_documents-page p q messages (value ∷ qrs) =
      let read =
        unwrapped host ciphers network couch user_id
          (remove_data_wrapper host ciphers network couch user_id value) in
      elim (Option-cases read.0) [
        | inl goes ↦ rw goes (read_documents-page (count p) (count q) (messages ++ read.1) qrs)
        | inr (e, stopped) ↦ rw stopped (refl, refl)
      ]

  formatted-page :
      (function : String) (p q : Page) (got : List Factor × Option Error)
      → outcome (done (formatted host ciphers network couch user_id function p got))
        ≡ outcome (done (formatted host ciphers network couch user_id function q got))
  formatted-page function p q (list, none) = refl
  formatted-page function p q (list, some e) = refl

  answer_read-page :
      (function : String) (p q : Page) (read : Option (String × Error) × List Message)
      (w : host.World)
      → outcome (answer_read host ciphers network couch user_id function (p, read.0, read.1) w).0
        ≡ outcome (answer_read host ciphers network couch user_id function (q, read.0, read.1) w).0
  answer_read-page function p q (some (action, e), messages) w = refl
  answer_read-page function p q (none, messages) w =
      let got = format_response_message host ciphers user_id [] messages w in
      outcome-then_run (λ got. pure (formatted host ciphers network couch user_id function p got))
        (λ got. pure (formatted host ciphers network couch user_id function q got)) got.0 got.1
        (λ got t. formatted-page function p q got)

  answer_queried-page :
      (function : String) (p q : Page) (qrs : Result (List String)) (w : host.World)
      → outcome (answer_queried host ciphers network couch user_id function p qrs w).0
        ≡ outcome (answer_queried host ciphers network couch user_id function q qrs w).0
  answer_queried-page function p q (err e) w = refl
  answer_queried-page function p q (ok qrs) w =
      let read : Page → Page × Option (String × Error) × List Message =
        λ page. read_documents host ciphers network couch user_id page [] qrs in
      let (stops, keeps) = read_documents-page p q [] qrs in
      rw (stops, keeps) (answer_read-page function (read p).0 (read q).0 ((read q).1, (read q).2) w)

  -- Two requests with the same query, whose page sizes are both accepted, have the same outcome,
  -- payload, error or panic, whatever pages they ask for: what DSL finds does not depend on the
  -- page.
  pub dsl_unpaged :
      (function : String) (r s : QueryRequest) (w : host.World)
      → r.dsl_syntax ≡ s.dsl_syntax
      → ltb 1000 (page_or_first r.split_page).page_size ≡ false
      → ltb 1000 (page_or_first s.split_page).page_size ≡ false
      → outcome (dsl host ciphers network couch user_id function r w).0
        ≡ outcome (dsl host ciphers network couch user_id function s w).0
  unfolding dsl
  dsl_unpaged function r s w same small_r small_s =
      let clients = couch.get_db_clients w in
      let asked = ask_client host ciphers network couch user_id s.dsl_syntax clients.0 clients.1 in
      rw (small_r, small_s, same)
        (outcome-then_run (answer_queried host ciphers network couch user_id function r.split_page)
          (answer_queried host ciphers network couch user_id function s.split_page) asked.0 asked.1
          (λ qrs t. answer_queried-page function r.split_page s.split_page qrs t))
