-- ===== src/Apiserver/Handler/Save.antt =====
-- apiserver/handler/factor.go: SaveData, which seals factors and sends each to the ledger.
use test_fabric.Base.{String, Option, none, some, List, [], ◌∷◌, ◌++◌, Error, Result, ok, err}
use test_fabric.Base.Go.{Go, ◌>>=◌, pure, on_ok}
use test_fabric.Apiserver.Define.{Factor}
use test_fabric.Apiserver.Host.{Host, Ciphers, Codec}
use test_fabric.Apiserver.Message.{format_request_message}
use test_fabric.Apiserver.Sdk.Peers.{Policy, Sdk, Network, invoke}
use test_fabric.Apiserver.Handler.Web.{
  Request, WriterCall, nothing, tx_ids, WebCodec, status_ok, status_no_content, status_bad_request,
  response, success, failure,
}
use test_fabric.Apiserver.Handler.Random.{get_random_string}

module _ (host : Host) (ciphers : Ciphers host.World) (network : Network host.World) (codec : Codec)
    (web : WebCodec) (policy : Policy) (sdk : Sdk) where
  open host use {World}

  -- The message's text, or the error of FormatRequestMessage.
  abbrev pub formatted_request : String × Option Error → Result String
  formatted_request (b, none) = ok b
  formatted_request (b, some e) = err e

  -- The loop's body on a factor: the id of its transaction.
  unfoldable pub save_factor : Factor → Go World (Result String)
  unfolding get_random_string format_request_message invoke
  save_factor factor = do
    fabric_tx_id ← get_random_string network 6
    b ← format_request_message host ciphers codec (record factor { fabric_tx_id = fabric_tx_id })
    on_ok (formatted_request b) λ b. invoke network policy sdk "SaveData" b

  -- The loop: the first error ends it, and what was sent before stays sent.
  unfoldable pub save_factors : List String → List Factor → Go World (Result (List String))
  unfolding save_factor
  save_factors ids [] = pure (ok ids)
  save_factors ids (factor ∷ request) = do
    tx_id ← save_factor factor
    on_ok tx_id λ tx_id. save_factors (ids ++ tx_id ∷ []) request

  abbrev pub saved_response : Request → Result (List String) → List WriterCall
  saved_response c (ok ids) = response web (tx_ids ids) c status_ok success none
  saved_response c (err e) = response web nothing c status_bad_request (failure e) none

  abbrev pub save_decoded : Request → Result (List Factor) → Go World (List WriterCall)
  save_decoded c (err e) = pure (response web nothing c status_bad_request (failure e) none)
  save_decoded c (ok request) = do saved ← save_factors [] request; pure (saved_response c saved)

  abbrev pub save_body : Request → Result String → Go World (List WriterCall)
  save_body c (err e) = pure (response web nothing c status_no_content (failure e) none)
  save_body c (ok body) = save_decoded c (web.decode_factors body)

  unfoldable pub save_data : Request → Go World (List WriterCall)
  unfolding save_factors response
  save_data c = save_body c c.body
