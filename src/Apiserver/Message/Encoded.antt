-- ===== src/Apiserver/Message/Encoded.antt =====
-- What the text of FormatRequestMessage was made of.
use test_fabric.Base.{String, ◌≡◌, sym, ap, inl, inr, none, [], Result, ok, err, Bool-cases}
use test_fabric.Base.Go.{done, then_run-done}
use test_fabric.Apiserver.Define.{Factor, Message}
use test_fabric.Apiserver.Host.{Host, Ciphers, Codec}
use test_fabric.Apiserver.Crypto.{generate_key}
use test_fabric.Apiserver.Message.{is_sealed, make_message, encode, format_request_message}
use test_fabric.Apiserver.Message.Seal.{seal_data-ok}

module _ (host : Host) (ciphers : Ciphers host.World) where
  -- A message stands under the id that the request came with.
  pub make_message-fabric_tx_id :
      (request : Factor) (m : Message) (w : host.World)
      → (make_message host ciphers request w).0 ≡ done (ok m)
      → m.factor.fabric_tx_id ≡ request.fabric_tx_id
  unfolding make_message
  make_message-fabric_tx_id request m w made =
      let (key, drawn, e) = then_run-done (generate_key host 32 w).0 _ _ _ made in
      elim (Bool-cases (is_sealed request.crypto_flag)) [
        | inl sealed ↦
            let (c, keys, v, encrypted, keys_sealed, same) =
              seal_data-ok host ciphers request key m _ (rw sealed at e) in
            ap (λ n. n.factor.fabric_tx_id) same
        | inr plain ↦
            let same : done (ok (record { factor = request; peersafe_data = record { keys = [] } }))
                ≡ done (ok m) =
              rw plain at e in
            let it : record { factor = request; peersafe_data = record { keys = [] } } ≡ m = cc in
            ap (λ n. n.factor.fabric_tx_id) (sym it)
      ]

  module _ (codec : Codec) where
    -- The message and its encoding behind a text that was returned without an error.
    pub format_request_message-encode :
        (request : Factor) (text : String) (w : host.World)
        → (format_request_message host ciphers codec request w).0 ≡ done (text, none)
        → (m : Message) × ((make_message host ciphers request w).0 ≡ done (ok m))
          × (codec.encode_request
                (record { key = m.factor.fabric_tx_id; value = (codec.encode_message m).0 })
              ≡ (text, none))
    unfolding format_request_message
    format_request_message-encode request text w e =
        let made = make_message host ciphers request w in
        let (message, f, last) = then_run-done made.0 _ made.1 (text, none) e in
        encoded message f last
      where
        encoded :
            (message : Result Message)
            → (make_message host ciphers request w).0 ≡ done message
            → done (encode host ciphers codec message) ≡ done (text, none)
            → (m : Message) × ((make_message host ciphers request w).0 ≡ done (ok m))
              × (codec.encode_request
                    (record { key = m.factor.fabric_tx_id; value = (codec.encode_message m).0 })
                  ≡ (text, none))
        encoded (err p) f last = cc
        encoded (ok m) f last = (m, f, cc)
