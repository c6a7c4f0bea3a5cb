-- ===== src/Chaincode/Paging/Laws.antt =====
-- What GetValueByDSL returns, on every outcome of the query.
use test_fabric.Base.{
  ℕ, zero, suc, ◌+◌, ◌*◌, ◌%◌, ◌<◌, ◌≡◌, ◌≢◌, refl, String, none, some, List, [], ◌∷◌, ◌++◌, map,
  Error, Result, ok, err, take, drop, length, arith, eq-false_of_ne, take-append-take-drop,
}
use native.Mathlib.Nat.{mod-eq_of_lt}
use test_fabric.Chaincode.Define.{Page, QueryRequest, uint_size, nil, strings}
use test_fabric.Chaincode.Shim.{Shim, Kv}
use test_fabric.Chaincode.Paging.{finish, get_value_by_dsl}
use test_fabric.Chaincode.Paging.Scan.{dec, skip_of, start, pick, scan, with_total}
use test_fabric.Chaincode.Paging.Window.{page_of, scan-start, scan-none, scan-append}

-- The loop over complete records.
finish_complete :
    (request : QueryRequest) (kvs : List Kv)
    → request.split_page.page_size < uint_size
    → finish request (scan request (map ok kvs) (start request))
      ≡ (strings (page_of request kvs), none, with_total request (length kvs % uint_size))
finish_complete request kvs fits =
    let (results, total) = scan-start request kvs fits in
    ground (arith, scan-none request kvs (start request), results, total)

-- The loop over records of which the one behind `kvs` fails to be read.
finish_broken :
    (request : QueryRequest) (kvs : List Kv) (e : Error) (rest : List (Result Kv))
    → request.split_page.page_size < uint_size
    → finish request (scan request (map ok kvs ++ err e ∷ rest) (start request))
      ≡ (nil, some e, with_total request (length kvs % uint_size))
unfolding scan
finish_broken request kvs e rest fits =
    let (_, total) = scan-start request kvs fits in
    rw (scan-append request kvs (err e ∷ rest) (start request), total)

module _ (shim : Shim) (request : QueryRequest) (s s' : shim.Stub)
    (asked : request.dsl_syntax ≢ "") where
  open shim use {Stub, get_query_result, close_iterator}

  -- If the selector is not empty, the page size is a uint and the records that are found can all be
  -- read, then the query returns the window of them that the page asks for, all of them if the page
  -- size is 0, sets the total to their number modulo 2 ^ 64, and closes the iterator.
  pub get_value_by_dsl-page :
      (kvs : List Kv)
      → request.split_page.page_size < uint_size
      → get_query_result request.dsl_syntax s ≡ (ok (map ok kvs), s')
      → get_value_by_dsl shim request s ≡ (
        (strings (page_of request kvs), none, with_total request (length kvs % uint_size)),
        (close_iterator s').1,
      )
  unfolding get_value_by_dsl
  get_value_by_dsl-page kvs fits found =
      rw (eq-false_of_ne request.dsl_syntax "" asked, found, finish_complete request kvs fits)

  -- A record that cannot be read makes the call fail with that error, whatever was collected; the
  -- total counts the records before it, and the iterator is closed.
  pub get_value_by_dsl-broken :
      (kvs : List Kv) (e : Error) (rest : List (Result Kv))
      → request.split_page.page_size < uint_size
      → get_query_result request.dsl_syntax s ≡ (ok (map ok kvs ++ err e ∷ rest), s')
      → get_value_by_dsl shim request s
        ≡ ((nil, some e, with_total request (length kvs % uint_size)), (close_iterator s').1)
  unfolding get_value_by_dsl
  get_value_by_dsl-broken kvs e rest fits found =
      rw (eq-false_of_ne request.dsl_syntax "" asked, found, finish_broken request kvs e rest fits)

-- The request for the page of a number, from 1 on.
abbrev pub at_page : QueryRequest → ℕ → QueryRequest
at_page request n = record request { split_page = record (request.split_page) { current_page = n } }

-- The pages 1 to n, one behind the other.
abbrev pub pages : QueryRequest → ℕ → List Kv → List String
pages request zero kvs = []
pages request (suc n) kvs = pages request n kvs ++ page_of (at_page request (suc n)) kvs

skip_of-page :
    (page : Page) (n : ℕ)
    → page.current_page ≡ suc n
    → suc n < uint_size
    → n * page.page_size < uint_size
    → skip_of page ≡ n * page.page_size
unfolding skip_of
skip_of-page page n e fits small =
    let before : dec page.current_page ≡ n = omega arith in rw before (mod-eq_of_lt small)

page_of-next :
    (request : QueryRequest) (n : ℕ) (kvs : List Kv)
    → 0 < request.split_page.page_size
    → suc n < uint_size
    → n * request.split_page.page_size < uint_size
    → page_of (at_page request (suc n)) kvs
      ≡ take request.split_page.page_size
          (drop (n * request.split_page.page_size) (map (pick request) kvs))
page_of-next request n kvs sized fits small =
    let page = (at_page request (suc n)).split_page in
    ground (arith, skip_of-page page n refl fits small)

-- The first n pages of a given size, which is not 0, are the first n times that many records in
-- their order: no record is missing or comes twice, as long as n and the offsets fit a uint.
pub pages-eq-take :
    (request : QueryRequest) (n : ℕ) (kvs : List Kv)
    → 0 < request.split_page.page_size
    → n < uint_size
    → n * request.split_page.page_size < uint_size
    → pages request n kvs ≡ take (n * request.split_page.page_size) (map (pick request) kvs)
pages-eq-take request zero kvs sized fits small =
    let start : 0 * request.split_page.page_size ≡ 0 = omega arith in rw start
pages-eq-take request (suc n) kvs sized fits small =
    let size = request.split_page.page_size in
    let texts = map (pick request) kvs in
    let below : n * size < uint_size = grind arith in
    let more : suc n * size ≡ n * size + size = grind arith in
    rw
      (
        pages-eq-take request n kvs sized (omega arith) below,
        page_of-next request n kvs sized fits below,
        more,
      )
      (take-append-take-drop (n * size) size texts)
