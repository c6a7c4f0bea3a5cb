-- ===== src/Apiserver/Message/Trust.antt =====
-- What a message's round trip asks of files and ciphers, and what crypto.go makes of it.
use test_fabric.Base.{
  ℕ, String, ◌≡◌, ◌≢◌, none, some, ok, Option-cases, Result-cases, inl, inr, arith,
}
use test_fabric.Base.Go.{done}
use test_fabric.Apiserver.Host.{Host, Ciphers}
use test_fabric.Apiserver.Crypto.{
  slice_to, block_size, derive, read_file, aes_encrypt, aes_decrypt, ecies_encrypt, ecies_decrypt,
}

-- A path at which every world has the same file.
pub record HoldsFile (host : Host) (path text : String) : Type 0 where
  pub file : host.File
  pub size : ℕ
  pub opens : (w : host.World) → (host.open_file path w).0 ≡ ok file
  pub stats : (w : host.World) → (host.stat_size path w).0 ≡ some size
  pub reads : (w : host.World) → (host.read_into file size w).0 ≡ (text, none)

-- A private key that belongs to a certificate: what is sealed for the one is unsealed by the other.
pub record Belongs {World : Type 0} (ciphers : Ciphers World) (cert private_pem : String)
    : Type 0 where
  pub raw_key : ciphers.RawKey
  pub private_key : ciphers.PrivateKey
  pub opener : ciphers.Opener
  pub raw_key_read : ciphers.pem_to_private_key private_pem ≡ ok raw_key
  pub private_key_made : ciphers.new_private_key raw_key ≡ ok private_key
  pub opener_made : ciphers.new_opener private_key ≡ ok opener
  pub unseals :
      (c : ciphers.Certificate) (p : ciphers.PublicKey) (s : ciphers.Sealer) (text crypted : String)
      (w w' : World)
      → ciphers.pem_to_certificate cert ≡ ok c
      → ciphers.new_public_key c ≡ ok p
      → ciphers.new_sealer p ≡ ok s
      → (ciphers.seal s text w).0 ≡ ok crypted
      → (ciphers.unseal opener crypted w').0 ≡ ok text

-- The derived key is at least a block long, CFB decrypts what it encrypted, and base64 decodes
-- what it encoded.
pub record AesLaws {World : Type 0} (ciphers : Ciphers World) : Type 0 where
  pub is_long :
      (key label : String) → slice_to block_size (ciphers.hmac_aes_truncated key label) ≢ none
  pub decrypts :
      (b : ciphers.Block) (iv text : String)
      → ciphers.decrypt_stream b iv (ciphers.encrypt_stream b iv text) ≡ text
  pub decodes : (text : String) → ciphers.decode_base64 (ciphers.encode_base64 text) ≡ ok text

module _ (host : Host) where
  pub read_file-HoldsFile :
      (path text : String)
      → HoldsFile host path text
      → (w : host.World) → (read_file host path w).0 ≡ done (ok text)
  unfolding read_file
  read_file-HoldsFile path text h w = rw (h.opens w, h.stats _, h.reads _)

module _ {World : Type 0} (ciphers : Ciphers World) where
  -- What AES encrypted under a key, it decrypts under that key.
  pub aes_decrypt-aes_encrypt :
      (text key crypted : String) (w : World)
      → AesLaws ciphers
      → (aes_encrypt ciphers text key w).0 ≡ done (ok crypted)
      → aes_decrypt ciphers crypted key ≡ ok text
  unfolding aes_encrypt aes_decrypt
  aes_decrypt-aes_encrypt text key crypted w laws e =
      elim (Option-cases (slice_to block_size (derive ciphers key))) [
        | inl short ↦ absurd (laws.is_long key "\u{1}" short)
        | inr (iv, sliced) ↦ elim (Result-cases (ciphers.new_cipher (derive ciphers key))) [
          | inl (block, made) ↦ ground (arith, laws.decrypts block iv text)
          | inr (error, made) ↦ ground arith
        ]
      ]

  pub ecies_decrypt-ecies_encrypt :
      (cert private_pem text crypted : String) (w w' : World)
      → Belongs ciphers cert private_pem
      → (ecies_encrypt ciphers text cert w).0 ≡ done (ok crypted)
      → (ecies_decrypt ciphers crypted private_pem w').0 ≡ done (ok text)
  unfolding ecies_encrypt ecies_decrypt
  ecies_decrypt-ecies_encrypt cert private_pem text crypted w w' b e =
      elim (Result-cases (ciphers.pem_to_certificate cert)) [
        | inl (c, read) ↦ elim (Result-cases (ciphers.new_public_key c)) [
          | inl (p, made) ↦ elim (Result-cases (ciphers.new_sealer p)) [
            | inl (s, ready) ↦
                let sealed : (ciphers.seal s text w).0 ≡ ok crypted = ground arith in
                let unsealed = b.unseals c p s text crypted w w' read made ready sealed in
                rw (b.raw_key_read, b.private_key_made, b.opener_made, unsealed)
            | inr (error, refused) ↦ ground arith
          ]
          | inr (error, refused) ↦ ground arith
        ]
        | inr (error, refused) ↦ ground arith
      ]
