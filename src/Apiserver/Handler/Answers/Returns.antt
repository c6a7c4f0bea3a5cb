-- ===== src/Apiserver/Handler/Answers/Returns.antt =====
-- SaveData always answers.
use test_fabric.Base.{String, ◌≡◌, refl, none, List, [], ◌∷◌, ◌++◌, Result, ok, err}
use test_fabric.Base.Go.{done}
use test_fabric.Base.Total.{IsTotal, bind-IsTotal, on_ok-IsTotal, done-After}
use test_fabric.Apiserver.Define.{Factor}
use test_fabric.Apiserver.Host.{Host, Ciphers, Codec}
use test_fabric.Apiserver.Message.{format_request_message}
use test_fabric.Apiserver.Message.Trust.{AesLaws}
use test_fabric.Apiserver.Message.Total.{HasSizes}
use test_fabric.Apiserver.Message.Always.{format_request_message-IsTotal}
use test_fabric.Apiserver.Sdk.Peers.{ClientConfig, Policy, Network, set_send_peer_order}
use test_fabric.Apiserver.Sdk.Peers.Ready.{empty_sdk}
use test_fabric.Apiserver.Sdk.Peers.Choice.{DrawsBelow}
use test_fabric.Apiserver.Sdk.Peers.Calls.{started, invoke-IsTotal}
use test_fabric.Apiserver.Handler.Web.{Request, WriterCall, WebCodec}
use test_fabric.Apiserver.Handler.Random.{get_random_string}
use test_fabric.Apiserver.Handler.Random.Length.{get_random_string-size}
use test_fabric.Apiserver.Handler.Save.{
  formatted_request, save_factor, save_factors, save_decoded, save_body, save_data,
}
use test_fabric.Apiserver.Handler.Answers.Saved.{IsSaved, save_data-IsSaved}

module _ (host : Host) (ciphers : Ciphers host.World) (sizes : HasSizes host)
    (laws : AesLaws ciphers) (network : Network host.World) (draws : DrawsBelow network)
    (codec : Codec) (web : WebCodec) (policy : Policy) (config : ClientConfig)
    (accepted : (set_send_peer_order policy (ok config) empty_sdk).0 ≡ none) where
  save_factor-IsTotal :
      (factor : Factor)
      → IsTotal (save_factor host ciphers network codec web policy (started policy config) factor)
  unfolding save_factor
  save_factor-IsTotal factor =
      bind-IsTotal (get_random_string network 6) _
        (λ w. let (text, e, long, made) = get_random_string-size network draws 6 w in (text, e))
        λ id.
          bind-IsTotal
            (format_request_message host ciphers codec (record factor { fabric_tx_id = id })) _
            (format_request_message-IsTotal host ciphers sizes laws codec
              (record factor { fabric_tx_id = id }))
            λ b.
              on_ok-IsTotal
                (formatted_request host ciphers network codec web policy (started policy config) b)
                _ (invoke-IsTotal network draws policy config accepted "SaveData")

  save_factors-IsTotal :
      (ids : List String) (request : List Factor)
      → IsTotal
          (save_factors host ciphers network codec web policy (started policy config) ids request)
  unfolding save_factors
  save_factors-IsTotal ids [] = λ w. (ok ids, refl)
  save_factors-IsTotal ids (factor ∷ request) =
      bind-IsTotal
        (save_factor host ciphers network codec web policy (started policy config) factor) _
        (save_factor-IsTotal factor)
        λ tx_id. on_ok-IsTotal tx_id _ λ tx_id. save_factors-IsTotal (ids ++ tx_id ∷ []) request

  save_decoded-IsTotal :
      (c : Request) (request : Result (List Factor))
      → IsTotal
          (save_decoded host ciphers network codec web policy (started policy config) c request)
  save_decoded-IsTotal c (err e) = λ w. (_, refl)
  save_decoded-IsTotal c (ok request) =
      bind-IsTotal
        (save_factors host ciphers network codec web policy (started policy config) [] request) _
        (save_factors-IsTotal [] request) λ saved w. (_, refl)

  save_body-IsTotal :
      (c : Request) (body : Result String)
      → IsTotal (save_body host ciphers network codec web policy (started policy config) c body)
  save_body-IsTotal c (err e) = λ w. (_, refl)
  save_body-IsTotal c (ok body) = save_decoded-IsTotal c (web.decode_factors body)

  -- If SetSendPeerOrder accepts the configuration, opened files have sizes, the derived keys are
  -- long enough for AES, AES and base64 decode what they encoded, and `rand.Intn` draws below its
  -- bound, then SaveData returns on any request, and has answered exactly once. It answers status
  -- 200 only for a body that decodes to factors, and then with, for each of them in their order, an
  -- id that Invoke returned for the transaction with the text that FormatRequestMessage had just
  -- made of this factor under some id of its own.
  pub save_data-done :
      (c : Request) (w : host.World)
      → (calls : List WriterCall) × ((save_data host ciphers network codec web policy
            (started policy config)
            c
            w).0
          ≡ done calls)
        × IsSaved host ciphers network codec policy (started policy config) web c calls
  unfolding save_data
  save_data-done c w =
      done-After (IsSaved host ciphers network codec policy (started policy config) web c)
        (save_data host ciphers network codec web policy (started policy config) c w).0
        (save_body-IsTotal c c.body w)
        (save_data-IsSaved host ciphers network codec web policy (started policy config) c w)
