-- ===== src/Apiserver/Message/RoundTrip.antt =====
-- A message that one node makes is read by another: what its receivers and its sender get back.
use test_fabric.Base.{
  String, ◌≡◌, subst, ◌⊎◌, inl, inr, true, false, some, List, [], ◌∷◌, ◌++◌, ok, In, Bool-cases,
  ◌==◌, eq_iff,
}
use test_fabric.Base.Go.{done, then_run-done}
use test_fabric.Apiserver.Define.{Factor, Message}
use test_fabric.Apiserver.Host.{Host, Ciphers}
use test_fabric.Apiserver.Crypto.{
  read_file, generate_key, aes_encrypt, ecies_encrypt, ecies_decrypt,
}
use test_fabric.Apiserver.Message.{
  is_sealed, cert_path, key_path, seal_keys, seal_data, make_message, open_with, open_sealed,
  open_message,
}
use test_fabric.Base.Dict.{lookup, insert, lookup-insert}
use test_fabric.Apiserver.Message.Seal.{seal_keys-ok, seal_data-ok}
use test_fabric.Apiserver.Message.Trust.{
  HoldsFile, Belongs, AesLaws, read_file-HoldsFile, aes_decrypt-aes_encrypt,
  ecies_decrypt-ecies_encrypt,
}

-- A user whose certificate every node has and whose private key this node has.
pub record IsUser (host : Host) (ciphers : Ciphers host.World) (user : String) : Type 0 where
  pub cert : String
  pub private_pem : String
  pub cert_held : HoldsFile host (cert_path user) cert
  pub key_held : HoldsFile host (key_path user) private_pem
  pub belongs : Belongs ciphers cert private_pem

module _ (host : Host) (ciphers : Ciphers host.World) (user : String)
    (is_user : IsUser host ciphers user) where
  -- The map has an entry of the user that opens to the key.
  abbrev Opens : String → List (String × String) → Type 0
  Opens key keys =
      (crypted : String) × (lookup user keys ≡ some crypted)
      × ((w : host.World) → (ecies_decrypt ciphers crypted is_user.private_pem w).0 ≡ done (ok key))

  insert-Opens :
      (key receiver cert crypted : String) (users : List String) (keys : List (String × String))
      (w : host.World)
      → (receiver ≡ user → cert ≡ is_user.cert)
      → (ecies_encrypt ciphers key cert w).0 ≡ done (ok crypted)
      → In user (receiver ∷ users) ⊎ Opens key keys
      → In user users ⊎ Opens key (insert receiver crypted keys)
  insert-Opens key receiver cert crypted users keys w own sealed h =
      elim (Bool-cases (receiver == user)) [
        | inl same ↦
            let held = own ((eq_iff receiver user).0 same) in
            inr (
              crypted,
              rw (lookup-insert receiver user crypted keys, same),
              λ w'.
                  ecies_decrypt-ecies_encrypt ciphers is_user.cert is_user.private_pem key crypted w
                    w' is_user.belongs (rw held at sealed),
            )
        | inr other ↦ elim h [
          | inl (inl same) ↦ cc (other, (eq_iff receiver user).1 same)
          | inl (inr later) ↦ inl later
          | inr (c, found, opens) ↦
              inr (c, rw (lookup-insert receiver user crypted keys, other) found, opens)
        ]
      ]

  cert_of_user :
      (receiver c : String) (w : host.World)
      → (read_file host (cert_path receiver) w).0 ≡ done (ok c)
      → receiver ≡ user
      → c ≡ is_user.cert
  cert_of_user receiver c w read same =
      let held = read_file-HoldsFile host (cert_path user) is_user.cert is_user.cert_held w in
      let found = subst (λ u. (read_file host (cert_path u) w).0 ≡ done (ok c)) same read in cc

  seal_keys-Opens :
      (key : String) (users : List String) (keys out : List (String × String)) (w : host.World)
      → In user users ⊎ Opens key keys
      → (seal_keys host ciphers key users keys w).0 ≡ done (ok out)
      → Opens key out
  unfolding seal_keys
  seal_keys-Opens key [] keys out w (inl absent) e = absurd absent
  seal_keys-Opens key [] keys out w (inr h) e =
      let same : keys ≡ out = cc in subst (Opens key) same h
  seal_keys-Opens key (receiver ∷ users) keys out w h e =
      let (c, crypted, read, sealed, rest) =
        seal_keys-ok host ciphers key receiver users keys out w e in
      seal_keys-Opens key users (insert receiver crypted keys) out _
        (insert-Opens key receiver c crypted users keys _ (cert_of_user receiver c w read) sealed h)
        rest

  open_with-undo :
      (request : Factor) (key c : String) (w : host.World)
      → AesLaws ciphers
      → (aes_encrypt ciphers request.tx_data key w).0 ≡ done (ok c)
      → open_with host ciphers (record request { tx_data = ciphers.encode_base64 c }) (ok key)
        ≡ request
  open_with-undo request key c w laws encrypted = rw (
    laws.decodes c,
    open_with,
    aes_decrypt-aes_encrypt ciphers request.tx_data key c w laws encrypted,
    open_with,
  )

  -- What the user of the node makes of a factor that was sealed under a key.
  open_sealed-undo :
      (request : Factor) (key c : String) (w w' : host.World) (keys : List (String × String))
      → AesLaws ciphers
      → (aes_encrypt ciphers request.tx_data key w).0 ≡ done (ok c)
      → Opens key keys
      → (open_sealed host ciphers user
          (record request { tx_data = ciphers.encode_base64 c })
          (lookup user keys)
          w').0
        ≡ done request
  open_sealed-undo request key c w w' keys laws encrypted (crypted, found, opens) =
      let held = read_file-HoldsFile host (key_path user) is_user.private_pem is_user.key_held w' in
      rw (
        found,
        held,
        opens (read_file host (key_path user) w').1,
        open_with-undo request key c w laws encrypted,
      )

  open_message-seal_data :
      (request : Factor) (key : String) (message : Message) (w w' : host.World)
      → AesLaws ciphers
      → is_sealed request.crypto_flag ≡ true
      → In user (request.receiver ++ request.sender ∷ [])
      → (seal_data host ciphers request key w).0 ≡ done (ok message)
      → (open_message host ciphers user message w').0 ≡ done request
  unfolding seal_data open_message
  open_message-seal_data request key message w w' laws flag member e =
      let (c, keys, w1, sealed, keys_sealed, made) =
        seal_data-ok host ciphers request key message w e in
      let opens =
        seal_keys-Opens key (request.receiver ++ request.sender ∷ []) [] keys w1 (inl member)
          keys_sealed in
      rw (made, flag) (open_sealed-undo request key c w w' keys laws sealed opens)

  -- Whatever the random key is, a factor that was made into a message comes back whole: one that
  -- is to be sealed, if the user of the reading node is one of its receivers or its sender; one
  -- that is not, for every user.
  pub open_message-make_message :
      (request : Factor) (message : Message) (w w' : host.World)
      → AesLaws ciphers
      → (is_sealed request.crypto_flag ≡ false) ⊎ In user (request.receiver ++ request.sender ∷ [])
      → (make_message host ciphers request w).0 ≡ done (ok message)
      → (open_message host ciphers user message w').0 ≡ done request
  unfolding make_message open_message
  open_message-make_message request message w w' laws may_read e =
      let (key, drawn, e1) = then_run-done (generate_key host 32 w).0 _ _ _ e in
      elim (Bool-cases (is_sealed request.crypto_flag)) [
        | inl flag ↦ elim may_read [
          | inl plain ↦ cc
          | inr member ↦
              open_message-seal_data request key message _ w' laws flag member (rw flag at e1)
        ]
        | inr plain ↦
            let made : record { factor = request; peersafe_data = record { keys = [] } } ≡ message =
              (let unsealed = rw plain at e1 in cc) in
            subst (λ m. (open_message host ciphers user m w').0 ≡ done request) made (rw plain)
      ]
