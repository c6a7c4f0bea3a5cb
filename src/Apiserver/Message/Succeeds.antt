-- ===== src/Apiserver/Message/Succeeds.antt =====
-- When FormatRequestMessage can seal a factor.
use test_fabric.Base.{
  ℕ, zero, suc, String, ◌≡◌, refl, List, [], ◌∷◌, ◌++◌, ok, All, Bool-cases, Option-cases, inl, inr,
}
use test_fabric.Base.Go.{done}
use test_fabric.Apiserver.Define.{Factor, Message}
use test_fabric.Apiserver.Host.{Host, Ciphers}
use test_fabric.Apiserver.Crypto.{
  slice_to, block_size, derive, read_file, generate_key, draw_key, aes_encrypt, ecies_encrypt,
}
use test_fabric.Apiserver.Message.{is_sealed, cert_path, seal_keys, seal_data, make_message}
use test_fabric.Base.Dict.{insert}
use test_fabric.Apiserver.Message.Seal.{sealed_message}
use test_fabric.Apiserver.Message.Trust.{HoldsFile, AesLaws, read_file-HoldsFile}

-- A user whose certificate is at hand and can seal any text.
pub record CanSeal (host : Host) (ciphers : Ciphers host.World) (user : String) : Type 0 where
  pub cert : String
  pub cert_held : HoldsFile host (cert_path user) cert
  pub certificate : ciphers.Certificate
  pub public_key : ciphers.PublicKey
  pub sealer : ciphers.Sealer
  pub certificate_read : ciphers.pem_to_certificate cert ≡ ok certificate
  pub public_key_made : ciphers.new_public_key certificate ≡ ok public_key
  pub sealer_made : ciphers.new_sealer public_key ≡ ok sealer
  pub seals :
      (text : String) (w : host.World) → (c : String) × ((ciphers.seal sealer text w).0 ≡ ok c)

-- AES takes every derived key.
pub record TakesKeys {World : Type 0} (ciphers : Ciphers World) : Type 0 where
  pub made : (key : String) → (b : ciphers.Block) × (ciphers.new_cipher (derive ciphers key) ≡ ok b)

module _ (host : Host) (ciphers : Ciphers host.World) where
  draw_key-done :
      (r : host.Source) (rounds : ℕ) (key : String) (w : host.World)
      → (k : String) × ((draw_key host r rounds key w).0 ≡ done k)
  unfolding draw_key
  draw_key-done r zero key w = (key, refl)
  draw_key-done r (suc rounds) key w = draw_key-done r rounds _ _

  pub generate_key-done :
      (bitsize : ℕ) (w : host.World) → (k : String) × ((generate_key host bitsize w).0 ≡ done k)
  unfolding generate_key
  generate_key-done bitsize w = draw_key-done (host.new_source w).0 _ "" (host.new_source w).1

  seal_keys-done :
      (key : String) (users : List String) (keys : List (String × String)) (w : host.World)
      → All (CanSeal host ciphers) users
      → (out : List (String × String)) × ((seal_keys host ciphers key users keys w).0
          ≡ done (ok out))
  unfolding seal_keys ecies_encrypt
  seal_keys-done key [] keys w all = (keys, refl)
  seal_keys-done key (user ∷ users) keys w (can, all) =
      let read = read_file-HoldsFile host (cert_path user) can.cert can.cert_held w in
      let w1 = (read_file host (cert_path user) w).1 in
      let (c, sealed) = can.seals key w1 in
      let (out, rest) =
        seal_keys-done key users (insert user c keys) (ciphers.seal can.sealer key w1).1 all in
      (out, rw (read, can.certificate_read, can.public_key_made, can.sealer_made, sealed) rest)

  aes_encrypt-done :
      (text key : String) (w : host.World)
      → AesLaws ciphers
      → TakesKeys ciphers
      → (c : String) × ((aes_encrypt ciphers text key w).0 ≡ done (ok c))
  unfolding aes_encrypt
  aes_encrypt-done text key w laws takes =
      elim (Option-cases (slice_to block_size (derive ciphers key))) [
        | inl short ↦ absurd (laws.is_long key "\u{1}" short)
        | inr (iv, sliced) ↦
            let (b, made) = takes.made key in (ciphers.encrypt_stream b iv text, rw (sliced, made))
      ]

  seal_data-done :
      (request : Factor) (key : String) (w : host.World)
      → AesLaws ciphers
      → TakesKeys ciphers
      → All (CanSeal host ciphers) (request.receiver ++ request.sender ∷ [])
      → (m : Message) × ((seal_data host ciphers request key w).0 ≡ done (ok m))
  unfolding seal_data
  seal_data-done request key w laws takes all =
      let (c, encrypted) = aes_encrypt-done request.tx_data key w laws takes in
      let (keys, sealed) =
        seal_keys-done key (request.receiver ++ request.sender ∷ []) []
          (aes_encrypt ciphers request.tx_data key w).1 all in
      (sealed_message host ciphers request c keys, rw (encrypted, sealed))

  -- If keys are long enough for AES, AES takes them, and every receiver and the sender have a
  -- certificate at hand that can seal, then a factor becomes a message, whatever the random key is
  -- and whether or not it is to be sealed.
  pub make_message-done :
      (request : Factor) (w : host.World)
      → AesLaws ciphers
      → TakesKeys ciphers
      → All (CanSeal host ciphers) (request.receiver ++ request.sender ∷ [])
      → (m : Message) × ((make_message host ciphers request w).0 ≡ done (ok m))
  unfolding make_message
  make_message-done request w laws takes all =
      let (key, drawn) = generate_key-done 32 w in
      elim (Bool-cases (is_sealed request.crypto_flag)) [
        | inl flag ↦
            let (m, made) = seal_data-done request key (generate_key host 32 w).1 laws takes all in
            (m, rw (drawn, flag) made)
        | inr plain ↦
            (record { factor = request; peersafe_data = record { keys = [] } }, rw (drawn, plain))
      ]
