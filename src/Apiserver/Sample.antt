-- ===== src/Apiserver/Sample.antt =====
-- A host and ciphers in memory, which show that the laws asked of them can hold: a file holds its
-- own path, and each cipher puts a letter in front.
pub mod Net
use test_fabric.Base.{ℕ, suc, String, refl, sym, ap, none, some, [], ◌∷◌, Result, ok, err}
use test_fabric.Base.Int.{pos}
use test_fabric.Apiserver.Define.{Factor}
use test_fabric.Apiserver.Host.{Host, Ciphers}
use test_fabric.Apiserver.Crypto.{slice_to}
use test_fabric.Apiserver.Message.{cert_path, key_path}
use test_fabric.Apiserver.Message.Trust.{HoldsFile, AesLaws}
use test_fabric.Apiserver.Message.RoundTrip.{IsUser}
use test_fabric.Apiserver.Message.Succeeds.{CanSeal, TakesKeys}
use test_fabric.Apiserver.Message.Total.{HasSizes}

-- The world counts the random numbers.
abbrev pub host : Host
host = record {
  World = ℕ;
  File = String;
  open_file = λ path w. (ok path, w);
  stat_size = λ path w. (some 4, w);
  read_into = λ f n w. ((f, none), w);
  close_file = λ f w. (tt, w);
  Source = Unit {0};
  new_source = λ w. (tt, w);
  int63 = λ r w. (w, suc w);
  hex = λ n. "7";
}

abbrev strip : String → String
strip String.[] = ""
strip (String.◌∷◌ c s) = s

abbrev strip_result : Result String → Result String
strip_result (ok s) = ok (strip s)
strip_result (err e) = err e

abbrev pub ciphers : Ciphers ℕ
ciphers = record {
  hmac_aes_truncated = λ key label. "0123456789abcdef";
  Block = String;
  new_cipher = λ key. ok key;
  encrypt_stream = λ b iv text. String.◌∷◌ "x" text;
  decrypt_stream = λ b iv text. strip text;
  Certificate = String;
  PublicKey = String;
  Sealer = String;
  pem_to_certificate = λ pem. ok pem;
  new_public_key = λ c. ok c;
  new_sealer = λ p. ok p;
  seal = λ s text w. (ok (String.◌∷◌ "s" text), suc w);
  RawKey = String;
  PrivateKey = String;
  Opener = String;
  pem_to_private_key = λ pem. ok pem;
  new_private_key = λ k. ok k;
  new_opener = λ k. ok k;
  unseal = λ o text w. (ok (strip text), w);
  encode_base64 = λ text. String.◌∷◌ "b" text;
  decode_base64 = λ text. ok (strip text);
}

pub holds_file : (path : String) → HoldsFile host path path
holds_file path = record {
  file = path;
  size = 4;
  opens = λ w. refl;
  stats = λ w. refl;
  reads = λ w. refl;
}

pub is_user : (user : String) → IsUser host ciphers user
is_user user = record {
  cert = cert_path user;
  private_pem = key_path user;
  cert_held = holds_file (cert_path user);
  key_held = holds_file (key_path user);
  belongs = record {
    raw_key = key_path user;
    private_key = key_path user;
    opener = key_path user;
    raw_key_read = refl;
    private_key_made = refl;
    opener_made = refl;
    unseals = λ c p s text crypted w w' e1 e2 e3 e4. sym (ap strip_result e4);
  };
}

pub can_seal : (user : String) → CanSeal host ciphers user
can_seal user = record {
  cert = cert_path user;
  cert_held = holds_file (cert_path user);
  certificate = cert_path user;
  public_key = cert_path user;
  sealer = cert_path user;
  certificate_read = refl;
  public_key_made = refl;
  sealer_made = refl;
  seals = λ text w. (String.◌∷◌ "s" text, refl);
}

pub aes_laws : AesLaws ciphers
unfolding slice_to
aes_laws = record {
  is_long = λ key label e. cc e;
  decrypts = λ b iv text. refl;
  decodes = λ text. refl;
}

pub takes_keys : TakesKeys ciphers
takes_keys = record { made = λ key. ("0123456789abcdef", refl) }

pub has_sizes : HasSizes host
has_sizes = record { sized = λ path w f opened e. cc e }

abbrev pub factor : Factor
factor = record {
  create_by = "ann";
  create_time = 1;
  sender = "ann";
  receiver = "bob" ∷ [];
  tx_data = "42 EUR";
  last_update_time = 1;
  last_update_by = "ann";
  crypto_flag = pos 1;
  crypto_algorithm = "aes";
  doc_type = "factorData";
  fabric_tx_id = "a1b2c3";
  business_no = "B7";
  expand1 = "";
  expand2 = "";
  data_version = "1";
}
