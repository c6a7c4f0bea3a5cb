-- ===== src/Apiserver/Host.antt =====
-- What the server takes from outside for its messages: files, random numbers, the ciphers of
-- crypto/aes and hyperledger/fabric/core/crypto, base64 and encoding/json. All are parameters.
use test_fabric.Base.{ℕ, String, Option, Error, Result, State}
use test_fabric.Apiserver.Define.{Message, InvokeRequest}

-- The files and the random numbers live in `World`.
pub record Host : Type 1 where
  pub World : Type 0
  pub File : Type 0
  -- `os.OpenFile(path, O_RDONLY|O_CREATE, 0666)`
  pub open_file : String → State World (Result File)
  -- The size that `os.Stat` tells, none if it fails: its error is not looked at.
  pub stat_size : String → State World (Option ℕ)
  -- `f.Read` into a buffer of a size: the buffer afterwards, and the error.
  pub read_into : File → ℕ → State World (String × Option Error)
  pub close_file : File → State World (Unit {0})
  -- `rand.New(rand.NewSource(time.Now().UnixNano()))`, and one `Int63` of it.
  pub Source : Type 0
  pub new_source : State World Source
  pub int63 : Source → State World ℕ
  -- `fmt.Sprintf("%x", n)`
  pub hex : ℕ → String

pub record Ciphers (World : Type 0) : Type 1 where
  pub hmac_aes_truncated : String → String → String
  -- `aes.NewCipher`, and `XORKeyStream` of the two CFB streams over it: block, iv, data.
  pub Block : Type 0
  pub new_cipher : String → Result Block
  pub encrypt_stream : Block → String → String → String
  pub decrypt_stream : Block → String → String → String
  -- primitives and ecies: keys in PEM, their wrapping, and the asymmetric cipher of each.
  pub Certificate : Type 0
  pub PublicKey : Type 0
  pub Sealer : Type 0
  pub pem_to_certificate : String → Result Certificate
  pub new_public_key : Certificate → Result PublicKey
  pub new_sealer : PublicKey → Result Sealer
  pub seal : Sealer → String → State World (Result String)
  pub RawKey : Type 0
  pub PrivateKey : Type 0
  pub Opener : Type 0
  pub pem_to_private_key : String → Result RawKey
  pub new_private_key : RawKey → Result PrivateKey
  pub new_opener : PrivateKey → Result Opener
  pub unseal : Opener → String → State World (Result String)
  -- base64.StdEncoding
  pub encode_base64 : String → String
  pub decode_base64 : String → Result String

-- `json.Marshal` at the two types that FormatRequestMessage passes to it.
pub record Codec : Type 0 where
  pub encode_message : Message → String × Option Error
  pub encode_request : InvokeRequest → String × Option Error
