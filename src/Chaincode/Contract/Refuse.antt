-- ===== src/Chaincode/Contract/Refuse.antt =====
-- The invocations that are refused before a handler runs.
use test_fabric.Base.{
  ◌<◌, ◌≡◌, ◌≢◌, ◌⊎◌, refl, String, none, some, List, [], ◌∷◌, length, get_elem?, inl, inr, arith,
  eq_iff, eq-false_of_ne,
}
use test_fabric.Chaincode.Shim.{Shim, Codec, failure}
use test_fabric.Chaincode.Handler.{Args}
use test_fabric.Chaincode.Contract.{check_args, invoke}

check_args-none :
    (args : List String) → (length args < 2) ⊎ (get_elem? args 1 ≡ some "") → check_args args ≡ none
unfolding check_args
check_args-none [] bad = refl
check_args-none (track_id ∷ []) bad = refl
check_args-none (track_id ∷ text ∷ rest) (inl short) = absurd (omega arith)
check_args-none (track_id ∷ text ∷ rest) (inr empty) = ground (arith, eq_iff text "")

module _ (shim : Shim) (codec : Codec) (function : String) (args : List String)
    (s : shim.Stub) where
  -- Fewer than two arguments, or an empty second one: the call fails and changes nothing.
  pub invoke-few_args :
      (length args < 2) ⊎ (get_elem? args 1 ≡ some "")
      → invoke shim codec function args s
        ≡ (failure "the invoke args length < 2 or arg[1] is empty", s)
  unfolding invoke
  invoke-few_args bad = rw (check_args-none args bad)

  -- With enough arguments, a name that is not in the table fails and changes nothing.
  pub invoke-unknown :
      (a : Args)
      → check_args args ≡ some a
      → function ≢ "SaveData"
      → function ≢ "DslQuery"
      → function ≢ "KeepaliveQuery"
      → invoke shim codec function args s ≡ (failure "the function name not exist!!", s)
  unfolding invoke
  invoke-unknown a checked save query keepalive = rw (
    checked,
    eq-false_of_ne function "SaveData" save,
    eq-false_of_ne function "DslQuery" query,
    eq-false_of_ne function "KeepaliveQuery" keepalive,
  )
