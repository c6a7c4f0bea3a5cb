-- ===== src/Apiserver/Crypto.antt =====
-- apiserver/utils/crypto.go: files, message keys, AES for the data and ECIES for the keys.
use Prim.Native.String.{◌++◌}
use test_fabric.Base.{ℕ, zero, suc, ◌/◌, String, Option, none, some, Error, Result, ok, err}
use test_fabric.Base.Go.{Go, ◌>>=◌, ◌>>◌, pure, call, or_panic, on_ok}
use test_fabric.Apiserver.Host.{Host, Ciphers}

-- The first bytes of a text, none if it is shorter: a slice expression that can panic.
unfoldable pub slice_to : ℕ → String → Option String
slice_to zero s = some ""
slice_to (suc n) String.[] = none
slice_to (suc n) (String.◌∷◌ c s) = elim (slice_to n s) [
  | none ↦ none
  | some t ↦ some (String.◌∷◌ c t)
]

-- `aes.BlockSize`
abbrev pub block_size : ℕ
block_size = 16

module _ (host : Host) where
  open host use {World, File, open_file, stat_size, close_file, Source, new_source, int63, hex}

  -- A read that fails returns without closing the file.
  abbrev pub finish_read : File → String × Option Error → Go World (Result String)
  finish_read f (buff, some e) = pure (err e)
  finish_read f (buff, none) = do call (close_file f); pure (ok buff)

  -- `info.Size()` panics on the nil that a failed `os.Stat` returns.
  unfoldable pub read_file : String → Go World (Result String)
  read_file path = do
    opened ← call (open_file path)
    on_ok opened λ f. do
      info ← call (stat_size path)
      size ← or_panic info "invalid memory address or nil pointer dereference"
      got ← call (host.read_into f size)
      finish_read f got

  -- The loop of GenerateKey, over the rounds that are left.
  unfoldable pub draw_key : Source → ℕ → String → Go World String
  draw_key r zero key = pure key
  draw_key r (suc rounds) key = do n ← call (int63 r); draw_key r rounds (key ++ hex n)

  unfoldable pub generate_key : ℕ → Go World String
  generate_key bitsize = do r ← call new_source; draw_key r (bitsize / 2) ""

module _ {World : Type 0} (ciphers : Ciphers World) where
  open ciphers use {
    hmac_aes_truncated, new_cipher, encrypt_stream, decrypt_stream, pem_to_certificate,
    new_public_key, new_sealer, seal, pem_to_private_key, new_private_key, new_opener, unseal,
  }

  -- The key that both directions derive, `[]byte{1}` being its label.
  abbrev pub derive : String → String
  derive key = hmac_aes_truncated key "\u{1}"

  unfoldable pub aes_encrypt : String → String → Go World (Result String)
  unfolding slice_to
  aes_encrypt orig_data key = do
    iv ← or_panic (slice_to block_size (derive key)) "slice bounds out of range"
    on_ok (new_cipher (derive key)) λ block. pure (ok (encrypt_stream block iv orig_data))

  -- The deferred `recover` makes an error of a panic.
  abbrev pub recover_decrypt : String → Option String → String → Result String
  recover_decrypt key none crypted = err "slice bounds out of range"
  recover_decrypt key (some iv) crypted = elim (new_cipher key) [
    | ok block ↦ ok (decrypt_stream block iv crypted)
    | err e ↦ err e
  ]

  unfoldable pub aes_decrypt : String → String → Result String
  unfolding slice_to
  aes_decrypt crypted key = recover_decrypt (derive key) (slice_to block_size (derive key)) crypted

  unfoldable pub ecies_encrypt : String → String → Go World (Result String)
  ecies_encrypt origin_data key = on_ok (pem_to_certificate key) λ cert.
      on_ok (new_public_key cert) λ tmp_pub_key.
        on_ok (new_sealer tmp_pub_key) λ public_key. call (seal public_key origin_data)

  unfoldable pub ecies_decrypt : String → String → Go World (Result String)
  ecies_decrypt crypto_data key = on_ok (pem_to_private_key key) λ tmp_private_key.
      on_ok (new_private_key tmp_private_key) λ tmp_pri_key.
        on_ok (new_opener tmp_pri_key) λ private_key. call (unseal private_key crypto_data)
