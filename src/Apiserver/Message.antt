-- ===== src/Apiserver/Message.antt =====
-- apiserver/utils/message.go: a factor is sealed for its receivers and its sender, and opened by
-- the user of the node.
pub mod Trust
pub mod Seal
pub mod RoundTrip
pub mod Encoded
pub mod Exchange
pub mod Succeeds
pub mod Total
pub mod Always
use Prim.Native.String.{◌++◌ as str_append}
use test_fabric.Base.{
  ℕ, String, Bool, true, false, Option, none, some, List, [], ◌∷◌, ◌++◌, Error, Result, ok, err,
  nat_eq, if◌then◌else◌,
}
use test_fabric.Base.Int.{ℤ, pos, negsuc}
use test_fabric.Base.Go.{on_ok, Go, done, panicked, ◌>>=◌, ◌>>◌, pure, call}
use test_fabric.Apiserver.Define.{Factor, Message, PeersafeData, InvokeRequest, crypto_path}
use test_fabric.Apiserver.Host.{Host, Ciphers, Codec}
use test_fabric.Apiserver.Crypto.{
  read_file, generate_key, aes_encrypt, aes_decrypt, ecies_encrypt, ecies_decrypt,
}
use test_fabric.Base.Dict.{lookup, insert}

-- `CryptoFlag == 1`
abbrev pub is_sealed : ℤ → Bool
is_sealed (pos n) = nat_eq n 1
is_sealed (negsuc n) = false

abbrev pub cert_path : String → String
cert_path user = str_append crypto_path (str_append user "/enrollment.cert")

abbrev pub key_path : String → String
key_path user = str_append crypto_path (str_append user "/enrollment.key")

-- An error with the text that the caller puts in front.
abbrev pub wrap : {A : Type 0} → String → Result A → Result A
wrap text (ok a) = ok a
wrap text (err e) = err (str_append text e)

module _ (host : Host) (ciphers : Ciphers host.World) where
  open host use {World}

  -- The loop over `cryptoRecvSend`.
  unfoldable pub seal_keys :
      String → List String → List (String × String) → Go World (Result (List (String × String)))
  seal_keys key [] keys = pure (ok keys)
  seal_keys key (receiver ∷ users) keys = do
    cert ← read_file host (cert_path receiver)
    on_ok (wrap (str_append "ReadFile " (str_append receiver " cert error : ")) cert) λ cert. do
      crypto_key ← ecies_encrypt ciphers key cert
      on_ok
          (wrap (str_append "EciesEncrypt " (str_append receiver " reandom key error : "))
            crypto_key)
          λ crypto_key. seal_keys key users (insert receiver crypto_key keys)

  -- The data and the keys of the message, from the data of the request.
  unfoldable pub seal_data : Factor → String → Go World (Result Message)
  unfolding seal_keys
  seal_data request key = do
    crypto_data ← aes_encrypt ciphers request.tx_data key
    on_ok (wrap "AesEncrypt data error : " crypto_data) λ crypto_data. do
      keys ← seal_keys key (request.receiver ++ request.sender ∷ []) []
      on_ok keys λ keys. pure (
          ok (record {
            factor = record request { tx_data = ciphers.encode_base64 crypto_data };
            peersafe_data = record { keys = keys };
          }))

  -- FormatRequestMessage up to `json.Marshal`.
  unfoldable pub make_message : Factor → Go World (Result Message)
  unfolding seal_data
  make_message request = do
    key ← generate_key host 32
    (if is_sealed request.crypto_flag
        then seal_data request key
        else pure (ok (record { factor = request; peersafe_data = record { keys = [] } })))

  -- The message as the value of a write under the transaction's id. The error of the inner
  -- `json.Marshal` is dropped.
  abbrev pub encode : Codec → Result Message → String × Option Error
  encode codec (err e) = ("", some e)
  encode codec (ok message) =
      codec.encode_request
        (record { key = message.factor.fabric_tx_id; value = (codec.encode_message message).0 })

  unfoldable pub format_request_message : Codec → Factor → Go World (String × Option Error)
  unfolding make_message
  format_request_message codec request = do
    message ← make_message request
    pure (encode codec message)

  -- The data of a message after the attempt to open it: each failure leaves it as it is.
  abbrev pub open_with : Factor → Result String → Factor
  open_with item (err e) = item
  open_with item (ok key) = elim (ciphers.decode_base64 item.tx_data) [
    | err e ↦ item
    | ok temp_data ↦ elim (aes_decrypt ciphers temp_data key) [
      | err e ↦ item
      | ok text ↦ record item { tx_data = text }
    ]
  ]

  abbrev pub open_key : Factor → String → Result String → Go World Factor
  open_key item crypto_key (err e) = pure item
  open_key item crypto_key (ok private_key) = do
    key ← ecies_decrypt ciphers crypto_key private_key
    pure (open_with item key)

  abbrev pub open_sealed : String → Factor → Option String → Go World Factor
  open_sealed user item none = pure item
  open_sealed user item (some crypto_key) = do
    private_key ← read_file host (key_path user)
    open_key item crypto_key private_key

  -- The loop's body: one message to one factor.
  unfoldable pub open_message : String → Message → Go World Factor
  unfolding aes_decrypt
  open_message user message =
      if is_sealed message.factor.crypto_flag
      then open_sealed user message.factor (lookup user message.peersafe_data.keys)
      else pure message.factor

  -- The factors are appended to the caller's list; the error is always nil.
  unfoldable pub format_response_message :
      String → List Factor → List Message → Go World (List Factor × Option Error)
  unfolding open_message
  format_response_message user request [] = pure (request, none)
  format_response_message user request (item ∷ messages) = do
    factor ← open_message user item
    format_response_message user (request ++ factor ∷ []) messages
