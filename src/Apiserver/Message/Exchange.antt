-- ===== src/Apiserver/Message/Exchange.antt =====
-- Whole lists of messages between nodes, and the users that a message was not made for.
use test_fabric.Base.{
  String, ◌≡◌, refl, ◌⊎◌, inl, inr, true, false, none, List, [], ◌∷◌, ◌++◌, ok, In, eq_iff, arith,
}
use mathlib.Core.List.{append_assoc, append-nil}
use test_fabric.Base.Go.{done, then_run-done}
use test_fabric.Apiserver.Define.{Factor, Message}
use test_fabric.Apiserver.Host.{Host, Ciphers}
use test_fabric.Apiserver.Crypto.{aes_encrypt, generate_key}
use test_fabric.Apiserver.Message.{
  is_sealed, seal_keys, seal_data, make_message, open_message, format_response_message,
}
use test_fabric.Base.Dict.{lookup, insert, lookup-insert}
use test_fabric.Apiserver.Message.RoundTrip.{IsUser, open_message-make_message}
use test_fabric.Apiserver.Message.Seal.{seal_keys-ok, seal_data-ok}
use test_fabric.Apiserver.Message.Trust.{AesLaws}

module _ (host : Host) (ciphers : Ciphers host.World) (user : String) where
  -- Each message was made of the request beside it, at some node, and the user may read it.
  abbrev pub AreSent : List Factor → List Message → Type 0
  AreSent [] [] = Unit
  AreSent (r ∷ rs) (m ∷ ms) =
      ((w : host.World) × ((make_message host ciphers r w).0 ≡ done (ok m))
        × ((is_sealed r.crypto_flag ≡ false) ⊎ In user (r.receiver ++ r.sender ∷ [])))
      × AreSent rs ms
  AreSent _ _ = ⊥

  -- If AES and base64 decode what they encoded, and the user's key opens what the user's
  -- certificate sealed, then a list of requests that were made into messages, at any nodes, is read
  -- back by a user who may read them: the same requests in the same order, appended to what the
  -- caller had, and no error.
  pub format_response_message-AreSent :
      (request sent : List Factor) (ms : List Message) (w : host.World)
      → AesLaws ciphers
      → IsUser host ciphers user
      → AreSent sent ms
      → (format_response_message host ciphers user request ms w).0 ≡ done (request ++ sent, none)
  unfolding format_response_message
  format_response_message-AreSent request [] [] w laws u all = rw append-nil
  format_response_message-AreSent request [] (m ∷ ms) w laws u all = absurd all
  format_response_message-AreSent request (r ∷ sent) [] w laws u all = absurd all
  format_response_message-AreSent request (r ∷ sent) (m ∷ ms) w laws u ((w', made, may_read), all) =
      let opened = open_message-make_message host ciphers user u r m w' w laws may_read made in
      let rest =
        format_response_message-AreSent (request ++ r ∷ []) sent ms
          (open_message host ciphers user m w).1 laws u all in
      rw (opened, rest, append_assoc request (r ∷ []) sent)

  seal_keys-none :
      (key : String) (users : List String) (keys out : List (String × String)) (w : host.World)
      → ¬ In user users
      → lookup user keys ≡ none
      → (seal_keys host ciphers key users keys w).0 ≡ done (ok out)
      → lookup user out ≡ none
  unfolding seal_keys
  seal_keys-none key [] keys out w no_member absent e =
      let same : keys ≡ out = cc in rw (← same) absent
  seal_keys-none key (receiver ∷ users) keys out w no_member absent e =
      let (c, crypted, read, sealed, rest) =
        seal_keys-ok host ciphers key receiver users keys out w e in
      let still_absent : lookup user (insert receiver crypted keys) ≡ none =
        rw (lookup-insert receiver user crypted keys)
          (ground (arith, eq_iff receiver user, λ (h : receiver ≡ user). no_member (inl h))) in
      seal_keys-none key users (insert receiver crypted keys) out _ (λ h. no_member (inr h))
        still_absent rest

  -- A user who is neither a receiver nor the sender of a sealed factor gets it as it was sent: its
  -- data is the base64 text of what AES made of the request's data. No file is looked at.
  pub open_message_stranger :
      (request : Factor) (message : Message) (w w' : host.World)
      → is_sealed request.crypto_flag ≡ true
      → ¬ In user (request.receiver ++ request.sender ∷ [])
      → (make_message host ciphers request w).0 ≡ done (ok message)
      → (key crypted : String) × (drawn : host.World) × ((aes_encrypt ciphers request.tx_data key
            drawn).0
          ≡ done (ok crypted))
        × (open_message host ciphers user message w'
            ≡ (done (record request { tx_data = ciphers.encode_base64 crypted }), w'))
  unfolding make_message seal_data open_message lookup
  open_message_stranger request message w w' flag no_member e =
      let (key, drawn, e0) = then_run-done (generate_key host 32 w).0 _ _ _ e in
      let (crypted, keys, w1, sealed, keys_sealed, made) =
        seal_data-ok host ciphers request key message _ (rw flag at e0) in
      let absent = seal_keys-none key _ [] keys w1 no_member refl keys_sealed in
      (key, crypted, (generate_key host 32 w).1, sealed, rw (made, flag, absent))
