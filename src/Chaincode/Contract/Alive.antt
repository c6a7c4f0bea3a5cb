-- ===== src/Chaincode/Contract/Alive.antt =====
-- The keepalive entry over the life of the ledger: Init writes it, KeepaliveQuery reads it, and
-- SaveData can overwrite it.
use Prim.Native.String.{◌++◌}
use test_fabric.Base.{
  ◌≡◌, ◌≢◌, refl, ◌∙◌, sym, subst, String, Option, none, some, List, ◌∷◌, Error, ◌==◌, Bool-cases,
  Option-cases, inl, inr, eq_iff, eq-false_of_ne, ◌⊎◌,
}
use test_fabric.Chaincode.Define.{InvokeRequest}
use test_fabric.Chaincode.Shim.{Shim, Codec, success, failure}
use test_fabric.Chaincode.Reply.{invoke_response}
use test_fabric.Chaincode.Handler.{
  Args, no_invoke, keepalive_test, save_data, report_saved, save_decoded, keepalive_query,
}
use test_fabric.Chaincode.Contract.{check_args, init, invoke, init_response, respond}
use test_fabric.Chaincode.Contract.Save.{invoke-save}
use test_fabric.Chaincode.Contract.Writes.{IsQuiet, invoke-keeps}

-- What the peer does with the writes of a transaction: `commit` makes them the state that the next
-- transaction reads. A read after a commit sees the last write of its key; neither an event nor a
-- second commit changes what is read.
pub record IsLedger (shim : Shim) (commit : shim.Stub → shim.Stub) : Type 0 where
  pub read_written :
      (k v : String) (s s' : shim.Stub)
      → shim.put_state k v s ≡ (none, s')
      → shim.get_state k (commit s') ≡ (v, none)
  pub read_other :
      (j k v : String) (s s' : shim.Stub)
      → shim.put_state k v s ≡ (none, s')
      → j ≢ k
      → shim.get_state j (commit s') ≡ shim.get_state j (commit s)
  pub event_keeps :
      (j name text : String) (s : shim.Stub)
      → shim.get_state j (commit (shim.set_event name text s).1) ≡ shim.get_state j (commit s)
  pub commit_again :
      (j : String) (s : shim.Stub)
      → shim.get_state j (commit (commit s)) ≡ shim.get_state j (commit s)
  pub quiet : (j : String) → IsQuiet shim (String × Option Error) (λ s. shim.get_state j (commit s))

-- The arguments of a SaveData that leaves the keepalive entry as it is: of another key, or with
-- the same value. A request that is refused or does not decode writes nothing.
abbrev pub Spares : Codec → List String → Type 0
Spares codec args =
    (a : Args) (request : InvokeRequest)
    → check_args args ≡ some a
    → codec.decode_invoke a.request no_invoke ≡ (request, none)
    → (request.key ≢ keepalive_test) ⊎ (request.value ≡ keepalive_test)

module _ (shim : Shim) (codec : Codec) (commit : shim.Stub → shim.Stub)
    (ledger : IsLedger shim commit) where
  open shim use {Stub, get_state, put_state}
  open ledger use {read_written, read_other, event_keeps, commit_again, quiet}

  abbrev pub IsAlive : Stub → Type 0
  IsAlive s = get_state keepalive_test s ≡ (keepalive_test, none)

  -- The ledger's states: a transaction that succeeds is committed, one that fails is dropped.
  pub data Reach : Stub → Type 0 where
    deployed : (s : Stub) → (init shim s).0 ≡ success "SUCCESS" → Reach (commit (init shim s).1)
    invoked :
        {s : Stub} (function : String) (args : List String) (payload : String)
        → Reach s
        → (function ≡ "SaveData" → Spares codec args)
        → (invoke shim codec function args s).0 ≡ success payload
        → Reach (commit (invoke shim codec function args s).1)

  init-IsAlive : (s : Stub) → (init shim s).0 ≡ success "SUCCESS" → IsAlive (commit (init shim s).1)
  unfolding init
  init-IsAlive s done = written (put_state keepalive_test keepalive_test s) refl done
    where
      written :
          (w : Option Error × Stub)
          → put_state keepalive_test keepalive_test s ≡ w
          → init_response w.0 ≡ success "SUCCESS"
          → IsAlive (commit w.1)
      written (none, s') e done = read_written keepalive_test keepalive_test s s' e
      written (some error, s') e done = cc

  put-IsAlive :
      (k v : String) (s s' : Stub)
      → (k ≢ keepalive_test) ⊎ (v ≡ keepalive_test)
      → put_state k v s ≡ (none, s')
      → IsAlive (commit s)
      → IsAlive (commit s')
  put-IsAlive k v s s' spares e alive = elim (Bool-cases (keepalive_test == k)) [
    | inl same ↦
        let own : k ≡ keepalive_test = sym ((eq_iff keepalive_test k).0 same) in
        elim spares [
          | inl other ↦ absurd (other own)
          | inr kept ↦
              subst (λ k'. get_state k' (commit s') ≡ (keepalive_test, none)) own
                (subst (λ v'. get_state k (commit s') ≡ (v', none)) kept (read_written k v s s' e))
        ]
    | inr differ ↦
        read_other keepalive_test k v s s' e (λ own. cc (differ, (eq_iff keepalive_test k).1 own))
        ∙ alive
  ]

  save_decoded-IsAlive :
      (args : Args) (decoded : InvokeRequest × Option Error) (s : Stub) (payload : String)
      → ((request : InvokeRequest)
          → decoded ≡ (request, none)
          → (request.key ≢ keepalive_test) ⊎ (request.value ≡ keepalive_test))
      → IsAlive (commit s)
      → respond (save_decoded shim codec "SaveData" args decoded s).0 ≡ success payload
      → IsAlive (commit (save_decoded shim codec "SaveData" args decoded s).1)
  unfolding invoke_response
  save_decoded-IsAlive args (request, some e) s payload spares alive done = cc
  save_decoded-IsAlive args (request, none) s payload spares alive done =
      reported (put_state request.key request.value s) refl done
    where
      reported :
          (w : Option Error × Stub)
          → put_state request.key request.value s ≡ w
          → respond (report_saved shim codec "SaveData" args request.value w.0 w.1).0
            ≡ success payload
          → IsAlive (commit (report_saved shim codec "SaveData" args request.value w.0 w.1).1)
      reported (some error, s') e done = cc
      reported (none, s') e done =
          event_keeps keepalive_test _ _ s'
          ∙ put-IsAlive request.key request.value s s' (spares request refl) e alive

  invoke_save-IsAlive :
      (args : List String) (s : Stub) (payload : String)
      → Spares codec args
      → IsAlive (commit s)
      → (invoke shim codec "SaveData" args s).0 ≡ success payload
      → IsAlive (commit (invoke shim codec "SaveData" args s).1)
  unfolding invoke save_data
  invoke_save-IsAlive args s payload spares alive done = elim (Option-cases (check_args args)) [
    | inl refused ↦ rw refused alive
    | inr (a, e) ↦ rw e (
        save_decoded-IsAlive a (codec.decode_invoke a.request no_invoke) s payload
          (λ r d. spares a r e d) alive (rw e at done))
  ]

  invoked-IsAlive :
      (function : String) (args : List String) (s : Stub) (payload : String)
      → (function ≡ "SaveData" → Spares codec args)
      → IsAlive (commit s)
      → (invoke shim codec function args s).0 ≡ success payload
      → IsAlive (commit (invoke shim codec function args s).1)
  invoked-IsAlive function args s payload spares alive done =
      elim (Bool-cases (function == "SaveData")) [
        | inl save ↦
            let e = (eq_iff function "SaveData").0 save in
            rw e (invoke_save-IsAlive args s payload (spares e) alive (rw e at done))
        | inr other ↦
            invoke-keeps shim codec (String × Option Error)
              (λ s'. get_state keepalive_test (commit s')) (quiet keepalive_test) function args s
              (λ e. cc (other, (eq_iff function "SaveData").1 e))
            ∙ alive
      ]

  Reach-IsAlive_next : {s : Stub} → Reach s → IsAlive (commit s)
  Reach-IsAlive_next (deployed s done) =
      commit_again keepalive_test (init shim s).1 ∙ init-IsAlive s done
  Reach-IsAlive_next (invoked {s} function args payload r spares done) =
      commit_again keepalive_test _
      ∙ invoked-IsAlive function args s payload spares (Reach-IsAlive_next r) done

  Reach-IsAlive : {s : Stub} → Reach s → IsAlive s
  Reach-IsAlive (deployed s done) = init-IsAlive s done
  Reach-IsAlive (invoked {s} function args payload r spares done) =
      invoked-IsAlive function args s payload spares (Reach-IsAlive_next r) done

  -- On a ledger whose reads see the last committed write of their key: from deployment on, through
  -- any committed transactions of which none saves another value under the key of the keepalive
  -- entry, KeepaliveQuery with a request that is not empty answers Reached and changes nothing.
  pub keepalive_reached :
      {s : Stub} (track_id text : String) (rest : List String)
      → text ≢ ""
      → Reach s
      → invoke shim codec "KeepaliveQuery" (track_id ∷ text ∷ rest) s ≡ (success "Reached", s)
  unfolding invoke keepalive_query
  keepalive_reached track_id text rest given r = rw (eq-false_of_ne text "" given, Reach-IsAlive r)

  keepalive_other :
      (track_id text value : String) (rest : List String) (s : Stub)
      → text ≢ ""
      → value ≢ keepalive_test
      → get_state keepalive_test s ≡ (value, none)
      → invoke shim codec "KeepaliveQuery" (track_id ∷ text ∷ rest) s
        ≡ (failure ("ERROR! KeepaliveQuery get result is " ++ value), s)
  unfolding invoke keepalive_query
  keepalive_other track_id text value rest s given other read =
      rw (eq-false_of_ne text "" given, read, eq-false_of_ne value keepalive_test other)

  -- On a ledger whose reads see the last committed write of their key: if a SaveData under the key
  -- of the keepalive entry writes another value than the keepalive one, and is committed, then
  -- KeepaliveQuery fails: its error names the value that it found.
  pub keepalive_spoiled :
      (track_id text value : String) (rest : List String) (s s' : Stub)
      → text ≢ ""
      → value ≢ keepalive_test
      → codec.decode_invoke text no_invoke ≡ (record { key = keepalive_test; value = value }, none)
      → put_state keepalive_test value s ≡ (none, s')
      → let saved = commit (invoke shim codec "SaveData" (track_id ∷ text ∷ rest) s).1 in
        invoke shim codec "KeepaliveQuery" (track_id ∷ text ∷ rest) saved
        ≡ (failure ("ERROR! KeepaliveQuery get result is " ++ value), saved)
  keepalive_spoiled track_id text value rest s s' given other decoded written =
      let request : InvokeRequest = record { key = keepalive_test; value = value } in
      rw (invoke-save shim codec track_id text rest request s s' given decoded written) (
        keepalive_other track_id text value rest _ given other (
          event_keeps keepalive_test "SaveData" _ s'
          ∙ read_written keepalive_test value s s' written))
