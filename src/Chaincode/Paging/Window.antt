-- ===== src/Chaincode/Paging/Window.antt =====
-- What the loop of GetValueByDSL collects: a window of the records, and how many there are.
use test_fabric.Base.{
  ℕ, zero, suc, ◌+◌, ◌%◌, ◌<◌, ◌≡◌, refl, ◌∙◌, String, none, List, [], ◌∷◌, ◌++◌, map, Result, ok,
  take, drop, length, nat_eq, nat_eq_iff, Bool-cases, inl, inr, take-nil, drop-nil, if◌then◌else◌,
  arith,
}
use mathlib.Core.List.{append-nil, append_assoc}
use test_fabric.Chaincode.Define.{QueryRequest, uint_size}
use test_fabric.Chaincode.Shim.{Kv}
use test_fabric.Chaincode.Paging.Scan.{Cursor, dec, skip_of, start, pick, step, scan}

-- The window that the page asks for: everything if its size is 0.
abbrev pub page_of : QueryRequest → List Kv → List String
page_of request kvs =
    if nat_eq request.split_page.page_size 0
    then map (pick request) kvs
    else take request.split_page.page_size
        (drop (skip_of request.split_page) (map (pick request) kvs))

-- The window that is left to collect at a cursor.
abbrev window : Cursor → List String → List String
window c texts = take c.need_size (drop c.skip_size texts)

dec-suc : (n : ℕ) → suc n < uint_size → dec (suc n) ≡ n
dec-suc n h = omega arith

abbrev at_cursor : ℕ → ℕ → ℕ → List String → Cursor
at_cursor skip need total results = record {
  skip_size = skip;
  need_size = need;
  total = total;
  results = results;
}

module _ (request : QueryRequest) (sized : 0 < request.split_page.page_size) where
  -- What is collected, and what is left to collect, are the window as before the record.
  step-window :
      (kv : Kv) (skip need total : ℕ) (results texts : List String)
      → skip < uint_size
      → need < uint_size
      → let c' = step request kv (at_cursor skip need total results) in
        (c'.results ++ window c' texts
          ≡ results ++ window (at_cursor skip need total results) (pick request kv ∷ texts))
        × (c'.skip_size < uint_size)
        × (c'.need_size < uint_size)
  unfolding step
  step-window kv (suc skip) need total results texts hs hn = ground (arith, dec-suc skip hs)
  step-window kv zero (suc need) total results texts hs hn =
      ground (arith, dec-suc need hn, append_assoc results (pick request kv ∷ []) (take need texts))
  step-window kv zero zero total results texts hs hn = ground arith

  scan-window :
      (kvs : List Kv) (c : Cursor)
      → c.skip_size < uint_size
      → c.need_size < uint_size
      → (scan request (map ok kvs) c).1.results ≡ c.results ++ window c (map (pick request) kvs)
  unfolding scan
  scan-window [] c hs hn = rw (drop-nil c.skip_size, take-nil c.need_size, append-nil)
  scan-window (kv ∷ kvs) c hs hn =
      let (same, hs', hn') =
        step-window kv c.skip_size c.need_size c.total c.results (map (pick request) kvs) hs hn in
      scan-window kvs (step request kv c) hs' hn' ∙ same

-- Without a page size nothing is skipped and nothing is left out.
scan-everything :
    (request : QueryRequest) (kvs : List Kv) (c : Cursor)
    → request.split_page.page_size ≡ 0
    → (scan request (map ok kvs) c).1.results ≡ c.results ++ map (pick request) kvs
unfolding scan
scan-everything request [] c none_sized = rw append-nil
scan-everything request (kv ∷ kvs) c none_sized = ground (
  arith,
  scan-everything request kvs (step request kv c) none_sized,
  append_assoc c.results (pick request kv ∷ []) (map (pick request) kvs),
)

scan-total :
    (request : QueryRequest) (kvs : List Kv) (c : Cursor)
    → c.total < uint_size
    → (scan request (map ok kvs) c).1.total ≡ (c.total + length kvs) % uint_size
unfolding scan
scan-total request [] c h = omega arith
scan-total request (kv ∷ kvs) c h = ground (arith, scan-total request kvs (step request kv c))

-- The records before a failing `Next` are read as if the query ended there.
pub scan-append :
    (request : QueryRequest) (kvs : List Kv) (items : List (Result Kv)) (c : Cursor)
    → scan request (map ok kvs ++ items) c ≡ scan request items (scan request (map ok kvs) c).1
unfolding scan
scan-append request [] items c = refl
scan-append request (kv ∷ kvs) items c = scan-append request kvs items (step request kv c)

pub scan-start :
    (request : QueryRequest) (kvs : List Kv)
    → request.split_page.page_size < uint_size
    → let c = (scan request (map ok kvs) (start request)).1 in
      (c.results ≡ page_of request kvs) × (c.total ≡ length kvs % uint_size)
unfolding skip_of
scan-start request kvs fits = elim (Bool-cases (nat_eq request.split_page.page_size 0)) [
  | inl unsized ↦ (
    rw (unsized, scan-everything request kvs (start request) ((nat_eq_iff _ _).0 unsized)),
    rw (scan-total request kvs (start request) (omega arith)) (omega arith),
  )
  | inr sized ↦ (
    rw (sized, scan-window request (ground arith) kvs (start request) (omega arith) fits),
    rw (scan-total request kvs (start request) (omega arith)) (omega arith),
  )
]

pub scan-none :
    (request : QueryRequest) (kvs : List Kv) (c : Cursor) → (scan request (map ok kvs) c).0 ≡ none
unfolding scan
scan-none request [] c = refl
scan-none request (kv ∷ kvs) c = scan-none request kvs (step request kv c)
