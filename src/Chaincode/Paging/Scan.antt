-- ===== src/Chaincode/Paging/Scan.antt =====
-- The loop of GetValueByDSL, and its two counters.
use test_fabric.Base.{
  ℕ, ◌+◌, ◌-◌, ◌*◌, ◌%◌, String, ◌&&◌, ◌||◌, Option, none, some, List, [], ◌∷◌, ◌++◌, Error, Result,
  ok, err, ltb, nat_eq, if◌then◌else◌,
}
use test_fabric.Chaincode.Define.{Page, QueryRequest, uint_size}
use test_fabric.Chaincode.Shim.{Kv}

-- `skipSize`, `needSize`, `request.SplitPage.TotalRecords` and `resultList`.
pub record Cursor : Type 0 where
  pub skip_size : ℕ
  pub need_size : ℕ
  pub total : ℕ
  pub results : List String

-- `n++` and `n--` on a uint.
abbrev pub inc : ℕ → ℕ
inc n = (n + 1) % uint_size

abbrev pub dec : ℕ → ℕ
dec n = (n + uint_size - 1) % uint_size

-- `(CurrentPage - 1) * PageSize`, in uint arithmetic.
unfoldable pub skip_of : Page → ℕ
skip_of page = dec page.current_page * page.page_size % uint_size

abbrev pub start : QueryRequest → Cursor
start request = record {
  skip_size = skip_of request.split_page;
  need_size = request.split_page.page_size;
  total = 0;
  results = [];
}

-- The key for a block query, else the value.
abbrev pub pick : QueryRequest → Kv → String
pick request kv = if request.block_flag then kv.key else kv.value

-- The loop's body on a record.
unfoldable pub step : QueryRequest → Kv → Cursor → Cursor
step request kv c =
    if ltb 0 c.skip_size && ltb 0 request.split_page.page_size
    then record c { skip_size = dec c.skip_size; total = inc c.total }
    else if ltb 0 c.need_size || nat_eq request.split_page.page_size 0
    then record c {
      need_size = dec c.need_size;
      total = inc c.total;
      results = c.results ++ pick request kv ∷ [];
    }
    else record c { total = inc c.total }

-- The loop: a failing `Next` ends it.
unfoldable pub scan : QueryRequest → List (Result Kv) → Cursor → Option Error × Cursor
unfolding step
scan request [] c = (none, c)
scan request (err e ∷ items) c = (some e, c)
scan request (ok kv ∷ items) c = scan request items (step request kv c)

abbrev pub with_total : QueryRequest → ℕ → QueryRequest
with_total request n = record request {
  split_page = record (request.split_page) { total_records = n };
}
