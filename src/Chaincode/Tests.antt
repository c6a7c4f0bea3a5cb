-- ===== src/Chaincode/Tests.antt =====
-- Runs of the chaincode on the stub in memory, and its theorems at concrete inputs.
use Prim.Native.String.{◌++◌ as str_append}
use test_fabric.Base.{
  ℕ, ◌≡◌, ◌≢◌, ◌⊎◌, ◌∙◌, ap, subst, refl, String, false, none, some, List, [], ◌∷◌, map, arith,
  eq_iff, inl, take,
}
use test_fabric.Chaincode.Define.{QueryRequest, nil, strings}
use test_fabric.Chaincode.Shim.{Shim, Kv, success, failure}
use mathlib.Core.Option.{some-injective}
use test_fabric.Chaincode.Reply.{status_of}
use test_fabric.Chaincode.Paging.{get_value_by_dsl}
use test_fabric.Chaincode.Paging.Scan.{with_total, pick, skip_of, scan}
use test_fabric.Chaincode.Paging.Window.{page_of}
use test_fabric.Chaincode.Paging.Laws.{
  get_value_by_dsl-page, get_value_by_dsl-broken, pages, pages-eq-take,
}
use test_fabric.Chaincode.Handler.{no_query, no_invoke, keepalive_test, save_data}
use test_fabric.Chaincode.Contract.{check_args, init, invoke}
use test_fabric.Chaincode.Contract.Save.{invoke-save_undecoded}
use test_fabric.Chaincode.Contract.Query.{invoke-query, invoke-query_broken, invoke-query_succeeds}
use test_fabric.Chaincode.Contract.Writes.{invoke-keeps}
use test_fabric.Chaincode.Contract.Refuse.{invoke-few_args, invoke-unknown}
use test_fabric.Chaincode.Contract.Iterators.{invoke-opened}
use test_fabric.Chaincode.Contract.Alive.{
  Spares, Reach, deployed, invoked, keepalive_reached, keepalive_spoiled,
}
use test_fabric.Chaincode.Memory.{
  Memory, memory_shim, memory_shim-IsCount, memory_shim-IsLedger, commit, codec,
}

abbrev kv : String → String → Kv
kv k v = record { key = k; value = v }

abbrev records : List Kv
records = kv "a" "1" ∷ kv "b" "2" ∷ kv "c" "3" ∷ kv "d" "4" ∷ kv "e" "5" ∷ []

abbrev fresh : Memory
fresh = record { committed = []; pending = []; event = none; open_iterators = 0 }

abbrev filled : Memory
filled = record fresh { committed = records }

abbrev opened : Memory
opened = record filled { open_iterators = 1 }

abbrev ask : String → ℕ → ℕ → QueryRequest
ask syntax page size = record {
  dsl_syntax = syntax;
  split_page = record { current_page = page; page_size = size; total_records = 0 };
  block_flag = false;
}

-- Every function that a run goes through.
runs : Unit {0}
unfolding invoke get_value_by_dsl skip_of scan status_of save_data
runs = tt

second_page :
    (get_value_by_dsl memory_shim (ask "all" 2 2) filled).0
    ≡ (strings ("3" ∷ "4" ∷ []), none, with_total (ask "all" 2 2) 5)
unfolding runs
second_page = refl

get_value_by_dsl-page_example :
    get_value_by_dsl memory_shim (ask "all" 2 2) filled
    ≡ ((strings (page_of (ask "all" 2 2) records), none, with_total (ask "all" 2 2) 5), filled)
get_value_by_dsl-page_example =
    get_value_by_dsl-page memory_shim (ask "all" 2 2) filled opened
      (ground (arith, eq_iff "all" "")) records (omega arith) refl

abbrev broken : QueryRequest
broken = ask "broken" 1 0

get_value_by_dsl-broken_example :
    get_value_by_dsl memory_shim broken filled
    ≡ ((nil, some "connection reset", with_total broken 5), filled)
get_value_by_dsl-broken_example =
    get_value_by_dsl-broken memory_shim broken filled opened (ground (arith, eq_iff "broken" ""))
      records "connection reset" [] (omega arith) refl

pages-eq-take_example :
    pages (ask "all" 1 2) 2 records ≡ take 4 (map (pick (ask "all" 1 2)) records)
pages-eq-take_example =
    pages-eq-take (ask "all" 1 2) 2 records (omega arith) (omega arith) (omega arith)

abbrev saved : Memory
saved = record fresh { pending = kv "a" "1" ∷ [] }

invoke-save_undecoded_example :
    invoke memory_shim codec "SaveData" ("t1" ∷ "{" ∷ []) fresh
    ≡ (failure "unexpected end of JSON input", fresh)
invoke-save_undecoded_example =
    invoke-save_undecoded memory_shim codec "t1" "{" [] (record { key = ""; value = "" }) fresh
      fresh (ground (arith, eq_iff "{" "")) "unexpected end of JSON input" refl

-- A peer that takes no more writes.
abbrev full_shim : Shim
full_shim = record memory_shim { put_state = λ k v m. (some "disk full", m) }

invoke-query_example :
    invoke memory_shim codec "DslQuery" ("t1" ∷ "page" ∷ []) filled
    ≡ (success "query:Success", filled)
unfolding status_of
invoke-query_example =
    invoke-query memory_shim codec "t1" "page" "query:Success" [] (ask "all" 2 2) filled opened
      (ground (arith, eq_iff "page" "")) records refl (ground (arith, eq_iff "all" ""))
      (omega arith) refl refl

invoke-query_broken_example :
    invoke memory_shim codec "DslQuery" ("t1" ∷ "broken" ∷ []) filled
    ≡ (success "query:connection reset", filled)
unfolding status_of
invoke-query_broken_example =
    invoke-query_broken memory_shim codec "t1" "broken" "query:connection reset" []
      (record no_query { dsl_syntax = "broken" }) filled opened (ground (arith, eq_iff "broken" ""))
      records "connection reset" [] refl (ground (arith, eq_iff "broken" "")) (omega arith) refl
      refl

invoke-query_succeeds_example :
    (answer : String) × ((invoke memory_shim codec "DslQuery" ("t1" ∷ "{" ∷ []) filled).0
      ≡ success answer)
invoke-query_succeeds_example =
    invoke-query_succeeds memory_shim codec "t1" "{" [] filled (ground (arith, eq_iff "{" ""))
      (λ r. refl)

invoke-keeps_example :
    (invoke memory_shim codec "DslQuery" ("t1" ∷ "page" ∷ []) filled).1.committed ≡ records
invoke-keeps_example =
    invoke-keeps memory_shim codec (List Kv) (λ m. m.committed)
      (record { query_keeps = λ syntax m. refl; close_keeps = λ m. refl }) "DslQuery"
      ("t1" ∷ "page" ∷ []) filled (ground (arith, eq_iff "DslQuery" "SaveData"))

invoke-few_args_example :
    invoke memory_shim codec "SaveData" ("t1" ∷ []) fresh
    ≡ (failure "the invoke args length < 2 or arg[1] is empty", fresh)
invoke-few_args_example =
    invoke-few_args memory_shim codec "SaveData" ("t1" ∷ []) fresh (inl (omega arith))

invoke-unknown_example :
    invoke memory_shim codec "Delete" ("t1" ∷ "x" ∷ []) fresh
    ≡ (failure "the function name not exist!!", fresh)
invoke-unknown_example =
    invoke-unknown memory_shim codec "Delete" ("t1" ∷ "x" ∷ []) fresh
      (record { track_id = "t1"; request = "x" }) (unfold check_args in refl)
      (ground (arith, eq_iff "Delete" "SaveData")) (ground (arith, eq_iff "Delete" "DslQuery"))
      (ground (arith, eq_iff "Delete" "KeepaliveQuery"))

invoke-opened_example :
    (invoke memory_shim codec "DslQuery" ("t1" ∷ "broken" ∷ []) filled).1.open_iterators ≡ 0
invoke-opened_example =
    invoke-opened memory_shim codec (λ m. m.open_iterators) memory_shim-IsCount "DslQuery"
      ("t1" ∷ "broken" ∷ []) filled

-- The ledger after its deployment and one SaveData.
abbrev lived : Memory
lived =
    commit
      (invoke memory_shim codec "SaveData" ("t1" ∷ "save" ∷ [])
        (commit (init memory_shim fresh).1)).1

a_ne_test : ◌≢◌ {A = String} "a" "test"
a_ne_test = ground (arith, eq_iff "a" "test")

Spares-save : Spares codec ("t1" ∷ "save" ∷ [])
unfolding check_args
Spares-save a request checked decoded =
    subst
      (λ b.
        codec.decode_invoke b.request no_invoke ≡ (request, none)
        → (request.key ≢ keepalive_test) ⊎ (request.value ≡ keepalive_test))
      (some-injective _ _ checked) (λ read. inl (λ e. a_ne_test (ap (λ p. p.0.key) read ∙ e)))
      decoded

lived-Reach : Reach memory_shim codec commit memory_shim-IsLedger lived
unfolding runs init
lived-Reach =
    invoked "SaveData" ("t1" ∷ "save" ∷ []) "invoke:Success" (deployed fresh refl)
      (λ _. Spares-save) refl

keepalive_reached_example :
    invoke memory_shim codec "KeepaliveQuery" ("t2" ∷ "reduPara" ∷ []) lived
    ≡ (success "Reached", lived)
keepalive_reached_example =
    keepalive_reached memory_shim codec commit memory_shim-IsLedger "t2" "reduPara" []
      (ground (arith, eq_iff "reduPara" "")) lived-Reach

keepalive_spoiled_example :
    let spoiled = commit (invoke memory_shim codec "SaveData" ("t1" ∷ "spoil" ∷ []) filled).1 in
    invoke memory_shim codec "KeepaliveQuery" ("t1" ∷ "spoil" ∷ []) spoiled
    ≡ (failure (str_append "ERROR! KeepaliveQuery get result is " "bad"), spoiled)
keepalive_spoiled_example =
    keepalive_spoiled memory_shim codec commit memory_shim-IsLedger "t1" "spoil" "bad" [] filled
      (record filled { pending = kv "test" "bad" ∷ [] }) (ground (arith, eq_iff "spoil" ""))
      (ground (arith, eq_iff "bad" "test")) refl refl
