-- ===== src/Chaincode/Contract/Writes.antt =====
-- What a transaction may do to the stub: which calls write, which only read.
use test_fabric.Base.{
  ◌≡◌, ◌≢◌, refl, ◌∙◌, String, Option, none, some, List, Error, Result, ok, err, ◌==◌, Bool-cases,
  Option-cases, inl, inr, arith, eq_iff,
}
use test_fabric.Chaincode.Define.{QueryRequest}
use test_fabric.Chaincode.Shim.{Shim, Kv, Codec}
use test_fabric.Chaincode.Paging.{read_page, get_value_by_dsl}
use test_fabric.Chaincode.Handler.{Args, no_query, query_decoded, dsl_query, keepalive_query}
use test_fabric.Chaincode.Contract.{check_args, func_handler, call, invoke}

-- A part of the stub's state that queries leave alone, such as the writes or the event.
pub record IsQuiet (shim : Shim) (A : Type 0) (part : shim.Stub → A) : Type 0 where
  pub query_keeps :
      (syntax : String) (s : shim.Stub) → part (shim.get_query_result syntax s).1 ≡ part s
  pub close_keeps : (s : shim.Stub) → part (shim.close_iterator s).1 ≡ part s

module _ (shim : Shim) (codec : Codec) (A : Type 0) (part : shim.Stub → A)
    (quiet : IsQuiet shim A part) where
  open quiet use {query_keeps, close_keeps}

  read_page-keeps :
      (request : QueryRequest) (found : Result (List (Result Kv))) (s : shim.Stub)
      → part (read_page shim request found s).1 ≡ part s
  read_page-keeps request (ok items) s = close_keeps s
  read_page-keeps request (err e) s = refl

  get_value_by_dsl-keeps :
      (request : QueryRequest) (s : shim.Stub) → part (get_value_by_dsl shim request s).1 ≡ part s
  unfolding get_value_by_dsl
  get_value_by_dsl-keeps request s = elim (Bool-cases (request.dsl_syntax == "")) [
    | inl empty ↦ rw empty
    | inr asked ↦ rw asked (
        read_page-keeps request (shim.get_query_result request.dsl_syntax s).0
          (shim.get_query_result request.dsl_syntax s).1
        ∙ query_keeps request.dsl_syntax s)
  ]

  query_decoded-keeps :
      (args : Args) (decoded : QueryRequest × Option Error) (s : shim.Stub)
      → part (query_decoded shim codec args decoded s).1 ≡ part s
  query_decoded-keeps args (request, none) s = get_value_by_dsl-keeps request s
  query_decoded-keeps args (request, some e) s = refl

  -- The other two functions of the table, and a name that is not in it.
  call-keeps :
      (function : String) (args : Args) (s : shim.Stub)
      → function ≢ "SaveData"
      → part (call shim codec (func_handler shim codec function) function args s).1 ≡ part s
  unfolding func_handler dsl_query keepalive_query
  call-keeps function args s other = ground (
    arith,
    eq_iff function "SaveData",
    query_decoded-keeps args (codec.decode_query args.request no_query) s,
  )

  -- Any part of the ledger that the shim's queries and the closing of an iterator keep is kept by an
  -- invocation of any other function than SaveData: a query and the keepalive write nothing and set no event,
  -- and neither does a call that is refused.
  pub invoke-keeps :
      (function : String) (args : List String) (s : shim.Stub)
      → function ≢ "SaveData"
      → part (invoke shim codec function args s).1 ≡ part s
  unfolding invoke
  invoke-keeps function args s other = elim (Option-cases (check_args args)) [
    | inl refused ↦ rw refused
    | inr (checked, e) ↦ rw e (call-keeps function checked s other)
  ]
