-- ===== src/Apiserver/Message/Always.antt =====
-- FormatRequestMessage on any factor: it returns, with a text or with an error.
use test_fabric.Base.{String, refl, List, [], ◌∷◌, ◌++◌, ok, Bool-cases, Option-cases, inl, inr}
use test_fabric.Base.Go.{pure}
use test_fabric.Base.Total.{IsTotal, bind-IsTotal, on_ok-IsTotal, call-IsTotal}
use test_fabric.Apiserver.Define.{Factor}
use test_fabric.Apiserver.Host.{Host, Ciphers, Codec}
use test_fabric.Apiserver.Crypto.{
  slice_to, block_size, derive, read_file, generate_key, aes_encrypt, ecies_encrypt,
}
use test_fabric.Base.Dict.{insert}
use test_fabric.Apiserver.Message.{
  is_sealed, cert_path, wrap, seal_keys, seal_data, make_message, encode, format_request_message,
}
use test_fabric.Apiserver.Message.Trust.{AesLaws}
use test_fabric.Apiserver.Message.Total.{HasSizes, read_file-done}
use test_fabric.Apiserver.Message.Succeeds.{generate_key-done}

module _ (host : Host) (ciphers : Ciphers host.World) (sizes : HasSizes host)
    (laws : AesLaws ciphers) where
  ecies_encrypt-IsTotal : (text key : String) → IsTotal (ecies_encrypt ciphers text key)
  unfolding ecies_encrypt
  ecies_encrypt-IsTotal text key = on_ok-IsTotal (ciphers.pem_to_certificate key) _ λ cert.
      on_ok-IsTotal (ciphers.new_public_key cert) _ λ tmp_pub_key.
        on_ok-IsTotal (ciphers.new_sealer tmp_pub_key) _
          λ public_key. call-IsTotal (ciphers.seal public_key text)

  seal_keys-IsTotal :
      (key : String) (users : List String) (keys : List (String × String))
      → IsTotal (seal_keys host ciphers key users keys)
  unfolding seal_keys
  seal_keys-IsTotal key [] keys = λ w. (ok keys, refl)
  seal_keys-IsTotal key (user ∷ users) keys =
      bind-IsTotal (read_file host (cert_path user)) _
        (read_file-done host ciphers sizes (cert_path user))
        λ cert. on_ok-IsTotal (wrap _ cert) _ λ cert.
          bind-IsTotal (ecies_encrypt ciphers key cert) _ (ecies_encrypt-IsTotal key cert)
            λ crypto_key.
              on_ok-IsTotal (wrap _ crypto_key) _
                λ crypto_key. seal_keys-IsTotal key users (insert user crypto_key keys)

  aes_encrypt-IsTotal : (text key : String) → IsTotal (aes_encrypt ciphers text key)
  unfolding aes_encrypt
  aes_encrypt-IsTotal text key w = elim (Option-cases (slice_to block_size (derive ciphers key))) [
    | inl short ↦ absurd (laws.is_long key "\u{1}" short)
    | inr (iv, sliced) ↦
        let (r, e) =
          on_ok-IsTotal (ciphers.new_cipher (derive ciphers key))
            (λ block. pure (ok (ciphers.encrypt_stream block iv text))) (λ block v. (_, refl)) w in
        (r, rw sliced e)
  ]

  seal_data-IsTotal :
      (request : Factor) (key : String) → IsTotal (seal_data host ciphers request key)
  unfolding seal_data
  seal_data-IsTotal request key =
      bind-IsTotal (aes_encrypt ciphers request.tx_data key) _
        (aes_encrypt-IsTotal request.tx_data key)
        λ crypto_data. on_ok-IsTotal (wrap _ crypto_data) _ λ crypto_data.
          bind-IsTotal (seal_keys host ciphers key (request.receiver ++ request.sender ∷ []) []) _
            (seal_keys-IsTotal key (request.receiver ++ request.sender ∷ []) [])
            λ keys. on_ok-IsTotal keys _ λ keys w. (_, refl)

  make_message-IsTotal : (request : Factor) → IsTotal (make_message host ciphers request)
  unfolding make_message
  make_message-IsTotal request =
      bind-IsTotal (generate_key host 32) _ (generate_key-done host ciphers 32) λ key.
        elim (Bool-cases (is_sealed request.crypto_flag)) [
          | inl flag ↦ rw flag (seal_data-IsTotal request key)
          | inr plain ↦ rw plain (λ w. (_, refl))
        ]

  -- On a host whose opened files have sizes, and if the derived keys are long enough for AES,
  -- FormatRequestMessage never panics, whatever the factor, the files and the ciphers are.
  pub format_request_message-IsTotal :
      (codec : Codec) (request : Factor)
      → IsTotal (format_request_message host ciphers codec request)
  unfolding format_request_message
  format_request_message-IsTotal codec request =
      bind-IsTotal (make_message host ciphers request) _ (make_message-IsTotal request)
        λ message w. (encode host ciphers codec message, refl)
