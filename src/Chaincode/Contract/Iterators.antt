-- ===== src/Chaincode/Contract/Iterators.antt =====
-- No invocation leaves a result iterator open.
use test_fabric.Base.{
  ℕ, ◌+◌, ◌-◌, ◌≡◌, refl, ◌∙◌, String, Option, none, some, List, Error, Result, ok, err, ◌==◌,
  Bool-cases, Option-cases, inl, inr, arith,
}
use test_fabric.Chaincode.Define.{InvokeRequest, QueryRequest}
use test_fabric.Chaincode.Shim.{Shim, Kv, Codec}
use test_fabric.Chaincode.Reply.{invoke_response}
use test_fabric.Chaincode.Paging.{read_page, get_value_by_dsl}
use test_fabric.Chaincode.Handler.{
  Args, no_invoke, no_query, report_saved, save_decoded, save_data, query_decoded, dsl_query,
  keepalive_query,
}
use test_fabric.Chaincode.Contract.{check_args, func_handler, call, invoke}

-- A count of open iterators: a query that succeeds opens one, `Close` closes one, and no other
-- call of the stub touches it.
pub record IsCount (shim : Shim) (opened : shim.Stub → ℕ) : Type 0 where
  pub query_opens :
      (syntax : String) (s : shim.Stub) (items : List (Result Kv))
      → (shim.get_query_result syntax s).0 ≡ ok items
      → opened (shim.get_query_result syntax s).1 ≡ opened s + 1
  pub query_fails :
      (syntax : String) (s : shim.Stub) (e : Error)
      → (shim.get_query_result syntax s).0 ≡ err e
      → opened (shim.get_query_result syntax s).1 ≡ opened s
  pub close_closes : (s : shim.Stub) → opened (shim.close_iterator s).1 ≡ opened s - 1
  pub put_keeps : (k v : String) (s : shim.Stub) → opened (shim.put_state k v s).1 ≡ opened s
  pub event_keeps :
      (name text : String) (s : shim.Stub) → opened (shim.set_event name text s).1 ≡ opened s

module _ (shim : Shim) (codec : Codec) (opened : shim.Stub → ℕ) (count : IsCount shim opened) where
  open shim use {Stub, get_query_result, put_state}
  open count use {query_opens, query_fails, close_closes, put_keeps, event_keeps}

  get_value_by_dsl-opened :
      (request : QueryRequest) (s : Stub) → opened (get_value_by_dsl shim request s).1 ≡ opened s
  unfolding get_value_by_dsl
  get_value_by_dsl-opened request s = elim (Bool-cases (request.dsl_syntax == "")) [
    | inl empty ↦ rw empty
    | inr asked ↦ rw asked (read (get_query_result request.dsl_syntax s).0 refl)
  ]
    where
      read :
          (found : Result (List (Result Kv)))
          → (get_query_result request.dsl_syntax s).0 ≡ found
          → opened (read_page shim request found (get_query_result request.dsl_syntax s).1).1
            ≡ opened s
      read (ok items) e = omega (
        arith,
        close_closes (get_query_result request.dsl_syntax s).1,
        query_opens request.dsl_syntax s items e,
      )
      read (err error) e = query_fails request.dsl_syntax s error e

  report_saved-opened :
      (args : Args) (value function : String) (failed : Option Error) (s : Stub)
      → opened (report_saved shim codec function args value failed s).1 ≡ opened s
  unfolding invoke_response
  report_saved-opened args value function (some e) s = refl
  report_saved-opened args value function none s = event_keeps _ _ s

  save_decoded-opened :
      (args : Args) (function : String) (decoded : InvokeRequest × Option Error) (s : Stub)
      → opened (save_decoded shim codec function args decoded s).1 ≡ opened s
  unfolding invoke_response
  save_decoded-opened args function (request, some e) s = refl
  save_decoded-opened args function (request, none) s =
      report_saved-opened args request.value function _ _ ∙ put_keeps request.key request.value s

  query_decoded-opened :
      (args : Args) (decoded : QueryRequest × Option Error) (s : Stub)
      → opened (query_decoded shim codec args decoded s).1 ≡ opened s
  query_decoded-opened args (request, some e) s = refl
  query_decoded-opened args (request, none) s = get_value_by_dsl-opened request s

  call-opened :
      (function : String) (args : Args) (s : Stub)
      → opened (call shim codec (func_handler shim codec function) function args s).1 ≡ opened s
  unfolding func_handler save_data dsl_query keepalive_query
  call-opened function args s = ground (
    arith,
    save_decoded-opened args function (codec.decode_invoke args.request no_invoke) s,
    query_decoded-opened args (codec.decode_query args.request no_query) s,
  )

  -- If a query that is accepted opens one iterator, closing it closes one, and no other call of the
  -- shim opens or closes any, then every invocation leaves as many iterators open as it found: the
  -- one that a query opens is closed, also when a record cannot be read.
  pub invoke-opened :
      (function : String) (args : List String) (s : Stub)
      → opened (invoke shim codec function args s).1 ≡ opened s
  unfolding invoke
  invoke-opened function args s = elim (Option-cases (check_args args)) [
    | inl refused ↦ rw refused
    | inr (checked, e) ↦ rw e (call-opened function checked s)
  ]
