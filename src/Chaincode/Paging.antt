-- ===== src/Chaincode/Paging.antt =====
-- chaincode/utils/utils.go, GetValueByDSL: a page of the records that a query selects.
pub mod Scan
pub mod Window
pub mod Laws
use test_fabric.Base.{
  ℕ, String, Bool, true, false, Option, none, some, List, [], ◌∷◌, Error, Result, ok, err, State,
  ◌>>=◌, ◌>>◌, pure, ◌==◌, if◌then◌else◌,
}
use test_fabric.Chaincode.Define.{Page, Payload, nil, strings, QueryRequest}
use test_fabric.Chaincode.Shim.{Shim, Kv}
use Scan.{Cursor, start, scan, with_total}

-- The result, the error, and the request, which the caller shares and reads again.
abbrev pub Found : Type 0
Found = Payload × Option Error × QueryRequest

-- What the loop's end or its `return nil, err` makes of the cursor.
abbrev pub finish : QueryRequest → Option Error × Cursor → Found
finish request (none, c) = (strings c.results, none, with_total request c.total)
finish request (some e, c) = (nil, some e, with_total request c.total)

module _ (shim : Shim) where
  open shim use {Stub, get_query_result, close_iterator}

  -- The part behind `GetQueryResult`, with the deferred `Close`.
  abbrev pub read_page : QueryRequest → Result (List (Result Kv)) → State Stub Found
  read_page request (err e) = pure (nil, some e, request)
  read_page request (ok items) = do
    close_iterator
    pure (finish request (scan request items (start request)))

  unfoldable pub get_value_by_dsl : QueryRequest → State Stub Found
  get_value_by_dsl request =
      if request.dsl_syntax == ""
      then pure (nil, some " dsl syntax is empty!", request)
      else (do found ← get_query_result request.dsl_syntax; read_page request found)
