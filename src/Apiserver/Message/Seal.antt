-- ===== src/Apiserver/Message/Seal.antt =====
-- What a factor went through when it was sealed.
use test_fabric.Base.{String, ◌≡◌, ◌∙◌, ap, List, [], ◌∷◌, ◌++◌, Result, ok, err}
use test_fabric.Base.Go.{done, then_run-done, on_ok-ok}
use test_fabric.Apiserver.Define.{Factor, Message}
use test_fabric.Apiserver.Host.{Host, Ciphers}
use test_fabric.Apiserver.Crypto.{read_file, aes_encrypt, ecies_encrypt}
use test_fabric.Apiserver.Message.{cert_path, wrap, seal_keys, seal_data}
use test_fabric.Base.Dict.{insert}

pub wrap-ok : {A : Type 0} {a : A} (text : String) (r : Result A) → wrap text r ≡ ok a → r ≡ ok a
wrap-ok text (ok b) e = e
wrap-ok text (err error) e = cc

module _ (host : Host) (ciphers : Ciphers host.World) where
  -- The message that a ciphertext and a map of keys make.
  abbrev pub sealed_message : Factor → String → List (String × String) → Message
  sealed_message request c keys = record {
    factor = record request { tx_data = ciphers.encode_base64 c };
    peersafe_data = record { keys = keys };
  }

  pub seal_data-ok :
      (request : Factor) (key : String) (message : Message) (w : host.World)
      → (seal_data host ciphers request key w).0 ≡ done (ok message)
      → (c : String) × (keys : List (String × String)) × (w1 : host.World) × ((aes_encrypt ciphers
            request.tx_data key w).0
          ≡ done (ok c))
        × ((seal_keys host ciphers key (request.receiver ++ request.sender ∷ []) [] w1).0
            ≡ done (ok keys))
        × (message ≡ sealed_message request c keys)
  unfolding seal_data
  seal_data-ok request key message w e =
      let (data_result, encrypted, e1) =
        then_run-done (aes_encrypt ciphers request.tx_data key w).0 _ _ _ e in
      let (c, data_ok, e2) = on_ok-ok (wrap _ data_result) _ _ _ e1 in
      let w1 = (aes_encrypt ciphers request.tx_data key w).1 in
      let (keys_result, keys_sealed, e3) =
        then_run-done (seal_keys host ciphers key (request.receiver ++ request.sender ∷ []) [] w1).0
          _ _ _ e2 in
      let (keys, keys_ok, e4) = on_ok-ok keys_result _ _ _ e3 in
      (
        c,
        keys,
        w1,
        encrypted ∙ ap done (wrap-ok _ data_result data_ok),
        keys_sealed ∙ ap done keys_ok,
        cc,
      )

  -- One round of the loop over the users.
  pub seal_keys-ok :
      (key receiver : String) (users : List String) (keys out : List (String × String))
      (w : host.World)
      → (seal_keys host ciphers key (receiver ∷ users) keys w).0 ≡ done (ok out)
      → let w1 = (read_file host (cert_path receiver) w).1 in
        (c crypted : String) × ((read_file host (cert_path receiver) w).0 ≡ done (ok c))
        × ((ecies_encrypt ciphers key c w1).0 ≡ done (ok crypted))
        × ((seal_keys host ciphers key users
              (insert receiver crypted keys)
              (ecies_encrypt ciphers key c w1).1).0
            ≡ done (ok out))
  unfolding seal_keys
  seal_keys-ok key receiver users keys out w e =
      let (cert, read, e1) = then_run-done (read_file host (cert_path receiver) w).0 _ _ _ e in
      let (c, cert_read, e2) = on_ok-ok (wrap _ cert) _ _ _ e1 in
      let w1 = (read_file host (cert_path receiver) w).1 in
      let (sealed, encrypted, e3) = then_run-done (ecies_encrypt ciphers key c w1).0 _ _ _ e2 in
      let (crypted, key_sealed, e4) = on_ok-ok (wrap _ sealed) _ _ _ e3 in
      (
        c,
        crypted,
        read ∙ ap done (wrap-ok _ cert cert_read),
        encrypted ∙ ap done (wrap-ok _ sealed key_sealed),
        e4,
      )
