-- ===== src/Apiserver/Handler/Answers/Saved.antt =====
-- What SaveData answers.
use test_fabric.Base.{
  ℕ, String, ◌≡◌, refl, sym, ap, ◌∙◌, Option, none, some, List, [], ◌∷◌, ◌++◌, Error, Result, ok,
  err, arith,
}
use mathlib.Core.List.{append-nil, append_assoc}
use test_fabric.Base.Go.{
  Run, done, panicked, After, bind-After, After-map, on_ok, on_ok-ok, then_run-done,
}
use test_fabric.Apiserver.Define.{Factor}
use test_fabric.Apiserver.Host.{Host, Ciphers, Codec}
use test_fabric.Apiserver.Message.{format_request_message}
use test_fabric.Apiserver.Sdk.Peers.{Policy, Sdk, Network, invoke}
use test_fabric.Apiserver.Handler.Web.{
  Request, WriterCall, nothing, tx_ids, WebCodec, response, success, failure, status_ok,
}
use test_fabric.Apiserver.Handler.Random.{get_random_string}
use test_fabric.Apiserver.Handler.Save.{
  formatted_request, save_factor, save_factors, saved_response, save_decoded, save_body, save_data,
}
use test_fabric.Apiserver.Handler.Answers.{statuses, statuses-response}

module _ (host : Host) (ciphers : Ciphers host.World) (network : Network host.World) (codec : Codec)
    (policy : Policy) (sdk : Sdk) where
  -- The id of a transaction that saved a factor: under some id of its own the factor became a text,
  -- with which Invoke, called next, sent SaveData and returned the transaction's id.
  abbrev pub IsInvoked : Factor → String → Type 0
  IsInvoked factor id =
      (fabric_tx_id text : String) × (v : host.World) × (let request = record factor {
        fabric_tx_id = fabric_tx_id;
      } in
        let formatted = format_request_message host ciphers codec request v in
        (formatted.0 ≡ done (text, none))
        × ((invoke network policy sdk "SaveData" text formatted.1).0 ≡ done (ok id)))

  -- One transaction for each factor, in their order.
  abbrev pub AreInvoked : List Factor → List String → Type 0
  AreInvoked [] [] = Unit
  AreInvoked (factor ∷ request) (id ∷ ids) = IsInvoked factor id × AreInvoked request ids
  AreInvoked _ _ = ⊥

  -- One answer; if its status is 200, the body decoded to factors, and the answer has the ids of their
  -- transactions.
  abbrev pub IsSaved : WebCodec → Request → List WriterCall → Type 0
  IsSaved web c calls =
      (status : ℕ) × (statuses calls ≡ status ∷ [])
      × (status ≡ status_ok
          → (body : String) × (request : List Factor) × (ids : List String) × (c.body ≡ ok body)
            × (web.decode_factors body ≡ ok request)
            × AreInvoked request ids
            × (calls ≡ response web (tx_ids ids) c status_ok success none))

  -- The id that the loop's body returns.
  abbrev HasId : Factor → Result String → Type 0
  HasId factor (ok id) = IsInvoked factor id
  HasId factor (err e) = Unit

  -- The ids are those before, and those of the factors' transactions.
  abbrev HasIds : List String → List Factor → Result (List String) → Type 0
  HasIds before request (ok ids) =
      (new : List String) × (ids ≡ before ++ new) × AreInvoked request new
  HasIds before request (err e) = Unit

  HasIds-add :
      (before : List String) (id : String) (factor : Factor) (request : List Factor)
      (saved : Result (List String))
      → IsInvoked factor id
      → HasIds (before ++ id ∷ []) request saved
      → HasIds before (factor ∷ request) saved
  HasIds-add before id factor request (err e) first rest = tt
  HasIds-add before id factor request (ok ids) first (new, same, all) =
      (id ∷ new, same ∙ append_assoc before (id ∷ []) new, (first, all))

module _ (host : Host) (ciphers : Ciphers host.World) (network : Network host.World) (codec : Codec)
    (web : WebCodec) (policy : Policy) (sdk : Sdk) where
  formatted_request-ok :
      (b : String × Option Error) (text : String)
      → formatted_request host ciphers network codec web policy sdk b ≡ ok text
      → b ≡ (text, none)
  formatted_request-ok (b, none) text e = cc
  formatted_request-ok (b, some p) text e = cc

  save_factor-HasId :
      (factor : Factor) (w : host.World)
      → After
          (HasId host ciphers network codec policy sdk factor)
          (save_factor host ciphers network codec web policy sdk factor w).0
  unfolding save_factor
  save_factor-HasId factor w =
      ended (save_factor host ciphers network codec web policy sdk factor w).0 refl
    where
      ended :
          (r : Run (Result String))
          → (save_factor host ciphers network codec web policy sdk factor w).0 ≡ r
          → After (HasId host ciphers network codec policy sdk factor) r
      ended (panicked p) e = tt
      ended (done (err p)) e = tt
      ended (done (ok id)) e =
          let (fabric_tx_id, drawn, e1) =
            then_run-done (get_random_string network 6 w).0 _ _ (ok id) e in
          let v = (get_random_string network 6 w).1 in
          let formatted =
            format_request_message host ciphers codec
              (record factor { fabric_tx_id = fabric_tx_id }) v in
          let (b, made, e2) = then_run-done formatted.0 _ formatted.1 (ok id) e1 in
          let (text, read, e3) = on_ok-ok _ _ formatted.1 id e2 in
          (fabric_tx_id, text, v, (made ∙ ap done (formatted_request-ok b text read), e3))

  save_factors-HasIds :
      (ids : List String) (request : List Factor) (w : host.World)
      → After
          (HasIds host ciphers network codec policy sdk ids request)
          (save_factors host ciphers network codec web policy sdk ids request w).0
  unfolding save_factors
  save_factors-HasIds ids [] w = ([], sym (append-nil ids), tt)
  save_factors-HasIds ids (factor ∷ request) w =
      bind-After (HasId host ciphers network codec policy sdk factor)
        (HasIds host ciphers network codec policy sdk ids (factor ∷ request))
        (save_factor host ciphers network codec web policy sdk factor) _ w
        (save_factor-HasId factor w) (added λ y t. save_factors-HasIds (ids ++ y ∷ []) request t)
    where
      added :
          ((y : String) (t : host.World)
            → After
                (HasIds host ciphers network codec policy sdk (ids ++ y ∷ []) request)
                (save_factors host ciphers network codec web policy sdk
                  (ids ++ y ∷ [])
                  request
                  t).0)
          → (tx_id : Result String) (t : host.World)
          → HasId host ciphers network codec policy sdk factor tx_id
          → After
              (HasIds host ciphers network codec policy sdk ids (factor ∷ request))
              (on_ok tx_id
                (λ y.
                  save_factors host ciphers network codec web policy sdk (ids ++ y ∷ []) request)
                t).0
      added rest (err e) t has = tt
      added rest (ok y) t has =
          After-map (HasIds host ciphers network codec policy sdk (ids ++ y ∷ []) request)
            (HasIds host ciphers network codec policy sdk ids (factor ∷ request)) _ (rest y t)
            (λ saved.
              HasIds-add host ciphers network codec policy sdk ids y factor request saved has)

  saved_response-IsSaved :
      (c : Request) (body : String) (request : List Factor) (saved : Result (List String))
      → c.body ≡ ok body
      → web.decode_factors body ≡ ok request
      → HasIds host ciphers network codec policy sdk [] request saved
      → IsSaved host ciphers network codec policy sdk web c
          (saved_response host ciphers network codec web policy sdk c saved)
  saved_response-IsSaved c body request (ok ids) read decoded (new, same, all) = (
    status_ok,
    statuses-response web (tx_ids ids) c status_ok success none,
    λ e. (body, request, new, read, decoded, all, rw same refl),
  )
  saved_response-IsSaved c body request (err e) read decoded many =
      (400, statuses-response web nothing c 400 (failure e) none, λ e. absurd (omega (arith, e)))

  save_decoded-IsSaved :
      (c : Request) (body : String) (request : Result (List Factor)) (w : host.World)
      → c.body ≡ ok body
      → web.decode_factors body ≡ request
      → After
          (IsSaved host ciphers network codec policy sdk web c)
          (save_decoded host ciphers network codec web policy sdk c request w).0
  save_decoded-IsSaved c body (err e) w read decoded =
      (400, statuses-response web nothing c 400 (failure e) none, λ e. absurd (omega (arith, e)))
  save_decoded-IsSaved c body (ok request) w read decoded =
      bind-After (HasIds host ciphers network codec policy sdk [] request)
        (IsSaved host ciphers network codec policy sdk web c)
        (save_factors host ciphers network codec web policy sdk [] request) _ w
        (save_factors-HasIds [] request w)
        (λ saved t many. saved_response-IsSaved c body request saved read decoded many)

  save_body-IsSaved :
      (c : Request) (body : Result String) (w : host.World)
      → c.body ≡ body
      → After
          (IsSaved host ciphers network codec policy sdk web c)
          (save_body host ciphers network codec web policy sdk c body w).0
  save_body-IsSaved c (err e) w read =
      (204, statuses-response web nothing c 204 (failure e) none, λ e. absurd (omega (arith, e)))
  save_body-IsSaved c (ok body) w read =
      save_decoded-IsSaved c body (web.decode_factors body) w read refl

  -- If SaveData returns, it has answered once, and status 200 is answered only for a body that
  -- decodes to factors, with the id of each one's transaction.
  pub save_data-IsSaved :
      (c : Request) (w : host.World)
      → After
          (IsSaved host ciphers network codec policy sdk web c)
          (save_data host ciphers network codec web policy sdk c w).0
  unfolding save_data
  save_data-IsSaved c w = save_body-IsSaved c c.body w refl
