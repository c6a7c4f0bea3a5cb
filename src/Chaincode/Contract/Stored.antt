-- ===== src/Chaincode/Contract/Stored.antt =====
-- What the ledger holds after a SaveData.
use test_fabric.Base.{String, ◌≡◌, ◌≢◌, refl, ◌∙◌, ap, Option, none, some, List, ◌∷◌, Error}
use test_fabric.Chaincode.Define.{InvokeRequest}
use test_fabric.Chaincode.Shim.{Shim, Codec, success}
use test_fabric.Chaincode.Handler.{no_invoke}
use test_fabric.Chaincode.Contract.{invoke}
use test_fabric.Chaincode.Contract.Save.{invoke-save, invoke-save_unwritten}
use test_fabric.Chaincode.Contract.Alive.{IsLedger}

module _ (shim : Shim) (codec : Codec) (commit : shim.Stub → shim.Stub)
    (ledger : IsLedger shim commit) where
  -- A SaveData that succeeds leaves its value under its key for the next transaction.
  pub invoke-save_read :
      (track_id text reply : String) (rest : List String) (request : InvokeRequest) (s : shim.Stub)
      → text ≢ ""
      → codec.decode_invoke text no_invoke ≡ (request, none)
      → (invoke shim codec "SaveData" (track_id ∷ text ∷ rest) s).0 ≡ success reply
      → shim.get_state request.key
          (commit (invoke shim codec "SaveData" (track_id ∷ text ∷ rest) s).1)
        ≡ (request.value, none)
  invoke-save_read track_id text reply rest request s given decoded answered =
      written (shim.put_state request.key request.value s) refl
    where
      written :
          (w : Option Error × shim.Stub)
          → shim.put_state request.key request.value s ≡ w
          → shim.get_state request.key
              (commit (invoke shim codec "SaveData" (track_id ∷ text ∷ rest) s).1)
            ≡ (request.value, none)
      written (none, s') e =
          rw (invoke-save shim codec track_id text rest request s s' given decoded e) (
            ledger.event_keeps request.key "SaveData" _ s'
            ∙ ledger.read_written request.key request.value s s' e)
      written (some error, s') e =
          let refused =
            invoke-save_unwritten shim codec track_id text rest request s s' given error decoded
              e in
          cc (answered, ap (λ r. r.0) refused)
