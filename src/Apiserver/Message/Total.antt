-- ===== src/Apiserver/Message/Total.antt =====
-- FormatResponseMessage on any messages: it returns, and changes nothing but the data.
use test_fabric.Base.{
  String, ◌≡◌, refl, ◌≢◌, inl, inr, Option, none, some, List, [], ◌∷◌, ◌++◌, Error, Result, ok, err,
  Bool-cases, Option-cases, Result-cases, arith,
}
use mathlib.Core.List.{append_assoc, append-nil}
use test_fabric.Base.Go.{done}
use test_fabric.Apiserver.Define.{Factor, Message}
use test_fabric.Apiserver.Host.{Host, Ciphers}
use test_fabric.Apiserver.Crypto.{finish_read, read_file, ecies_decrypt}
use test_fabric.Apiserver.Message.{
  is_sealed, key_path, open_with, open_key, open_sealed, open_message, format_response_message,
}
use test_fabric.Base.Dict.{lookup}

-- A file that was just opened, and created if need be, can be asked for its size.
pub record HasSizes (host : Host) : Type 0 where
  pub sized :
      (path : String) (w : host.World) (f : host.File)
      → (host.open_file path w).0 ≡ ok f
      → (host.stat_size path (host.open_file path w).1).0 ≢ none

-- The factor of a message, up to its data.
abbrev pub IsFactorOf : Message → Factor → Type 0
IsFactorOf m f = f ≡ record (m.factor) { tx_data = f.tx_data }

-- One factor for each message, in the messages' order.
abbrev pub AreFactorsOf : List Message → List Factor → Type 0
AreFactorsOf [] [] = Unit
AreFactorsOf (m ∷ ms) (f ∷ fs) = IsFactorOf m f × AreFactorsOf ms fs
AreFactorsOf _ _ = ⊥

module _ (host : Host) (ciphers : Ciphers host.World) (sizes : HasSizes host) where
  finish_read-done :
      (f : host.File) (got : String × Option Error) (w : host.World)
      → (r : Result String) × ((finish_read host f got w).0 ≡ done r)
  finish_read-done f (buff, none) w = (ok buff, refl)
  finish_read-done f (buff, some e) w = (err e, refl)

  pub read_file-done :
      (path : String) (w : host.World) → (r : Result String) × ((read_file host path w).0 ≡ done r)
  unfolding read_file
  read_file-done path w = elim (Result-cases (host.open_file path w).0) [
    | inl (f, opened) ↦ elim (Option-cases (host.stat_size path (host.open_file path w).1).0) [
      | inl missing ↦ absurd (sizes.sized path w f opened missing)
      | inr (size, sized) ↦
          let w' = (host.stat_size path (host.open_file path w).1).1 in
          let (r, e) =
            finish_read-done f (host.read_into f size w').0 (host.read_into f size w').1 in
          (r, rw (opened, sized) e)
    ]
    | inr (e, refused) ↦ (err e, rw refused)
  ]

  ecies_decrypt-done :
      (text key : String) (w : host.World)
      → (r : Result String) × ((ecies_decrypt ciphers text key w).0 ≡ done r)
  unfolding ecies_decrypt
  ecies_decrypt-done text key w = elim (Result-cases (ciphers.pem_to_private_key key)) [
    | inl (raw, read) ↦ elim (Result-cases (ciphers.new_private_key raw)) [
      | inl (private_key, made) ↦ elim (Result-cases (ciphers.new_opener private_key)) [
        | inl (opener, ready) ↦ ((ciphers.unseal opener text w).0, rw (read, made, ready))
        | inr (e, failed) ↦ (err e, rw (read, made, failed))
      ]
      | inr (e, failed) ↦ (err e, rw (read, failed))
    ]
    | inr (e, failed) ↦ (err e, rw failed)
  ]

  open_with-same :
      (item : Factor) (key : Result String)
      → open_with host ciphers item key
        ≡ record item { tx_data = (open_with host ciphers item key).tx_data }
  open_with-same item (err e) = refl
  open_with-same item (ok key) = ground arith

  open_key-done :
      (item : Factor) (crypto_key : String) (private_key : Result String) (w : host.World)
      → (f : Factor) × ((open_key host ciphers item crypto_key private_key w).0 ≡ done f)
        × (f ≡ record item { tx_data = f.tx_data })
  open_key-done item crypto_key (err e) w = (item, refl, refl)
  open_key-done item crypto_key (ok private_key) w =
      let (key, e) = ecies_decrypt-done crypto_key private_key w in
      (open_with host ciphers item key, rw e, open_with-same item key)

  open_sealed-done :
      (user : String) (item : Factor) (entry : Option String) (w : host.World)
      → (f : Factor) × ((open_sealed host ciphers user item entry w).0 ≡ done f)
        × (f ≡ record item { tx_data = f.tx_data })
  open_sealed-done user item none w = (item, refl, refl)
  open_sealed-done user item (some crypto_key) w =
      let (r, read) = read_file-done (key_path user) w in
      let (f, e, same) = open_key-done item crypto_key r (read_file host (key_path user) w).1 in
      (f, rw read e, same)

  -- Every message is opened without a panic, and all fields but the data stay.
  open_message-done :
      (user : String) (m : Message) (w : host.World)
      → (f : Factor) × ((open_message host ciphers user m w).0 ≡ done f) × IsFactorOf m f
  unfolding open_message
  open_message-done user m w = elim (Bool-cases (is_sealed m.factor.crypto_flag)) [
    | inl flag ↦
        let (f, e, same) = open_sealed-done user m.factor (lookup user m.peersafe_data.keys) w in
        (f, rw flag e, same)
    | inr plain ↦ (m.factor, rw plain, refl)
  ]

  -- FormatResponseMessage always returns, with no error: it appends one factor for each message,
  -- in their order, which differs from the message's own factor at most in its data.
  pub format_response_message-done :
      (user : String) (request : List Factor) (ms : List Message) (w : host.World)
      → (fs : List Factor) × ((format_response_message host ciphers user request ms w).0
          ≡ done (request ++ fs, none))
        × AreFactorsOf ms fs
  unfolding format_response_message
  format_response_message-done user request [] w = ([], rw append-nil, tt)
  format_response_message-done user request (m ∷ ms) w =
      let (f, opened, same) = open_message-done user m w in
      let (fs, rest, all) =
        format_response_message-done user (request ++ f ∷ []) ms
          (open_message host ciphers user m w).1 in
      (f ∷ fs, rw (opened, rest, append_assoc request (f ∷ []) fs), (same, all))
