-- ===== src/Chaincode/Memory.antt =====
-- A stub in memory, which shows that the laws asked of the shim can hold, and a codec that reads
-- four texts.
use Prim.Native.String.{◌++◌ as str_append}
use test_fabric.Base.{
  ℕ, ◌+◌, ◌-◌, ◌≡◌, refl, ap, subst, String, Option, none, some, List, [], ◌∷◌, ◌++◌, map, Error,
  Result, ok, err, ◌==◌, if◌then◌else◌, eq_refl, eq-false_of_ne,
}
use test_fabric.Chaincode.Shim.{Shim, Kv, Codec}
use test_fabric.Chaincode.Contract.Iterators.{IsCount}
use test_fabric.Chaincode.Contract.Alive.{IsLedger}

pub record Memory : Type 0 where
  pub committed : List Kv
  pub pending : List Kv
  pub event : Option (String × String)
  pub open_iterators : ℕ

abbrev pub read : String → List Kv → String × Option Error
read k [] = ("", none)
read k (kv ∷ kvs) = if k == kv.key then (kv.value, none) else read k kvs

-- A query for "broken" finds a record that cannot be read; a query for "syntax" is refused.
abbrev pub run_query : String → List Kv → Result (List (Result Kv))
run_query syntax kvs =
    if syntax == "syntax"
    then err "invalid query"
    else if syntax == "broken"
    then ok (map ok kvs ++ err "connection reset" ∷ [])
    else ok (map ok kvs)

abbrev opened_by : Result (List (Result Kv)) → ℕ → ℕ
opened_by (ok items) n = n + 1
opened_by (err e) n = n

abbrev pub memory_shim : Shim
memory_shim = record {
  Stub = Memory;
  put_state = λ k v m. (none, record m { pending = record { key = k; value = v } ∷ m.pending });
  get_state = λ k m. read k m.committed;
  get_query_result = λ syntax m. (
    run_query syntax m.committed,
    record m { open_iterators = opened_by (run_query syntax m.committed) m.open_iterators },
  );
  close_iterator = λ m. (tt, record m { open_iterators = m.open_iterators - 1 });
  set_event = λ name text m. (none, record m { event = some (name, text) });
}

abbrev pub commit : Memory → Memory
commit m = record m { committed = m.pending ++ m.committed; pending = []; event = none }

pub memory_shim-IsCount : IsCount memory_shim (λ m. m.open_iterators)
memory_shim-IsCount = record {
  query_opens = λ syntax m items e. ap (λ r. opened_by r m.open_iterators) e;
  query_fails = λ syntax m error e. ap (λ r. opened_by r m.open_iterators) e;
  close_closes = λ m. refl;
  put_keeps = λ k v m. refl;
  event_keeps = λ name text m. refl;
}

pub memory_shim-IsLedger : IsLedger memory_shim commit
memory_shim-IsLedger = record {
  read_written = λ k v m m' e.
      subst (λ w. read k (w.pending ++ w.committed) ≡ (v, none)) (ap (λ p. p.1) e) (rw (eq_refl k));
  read_other = λ j k v m m' e other.
      subst (λ w. read j (w.pending ++ w.committed) ≡ read j (m.pending ++ m.committed))
        (ap (λ p. p.1) e) (rw (eq-false_of_ne j k other));
  event_keeps = λ j name text m. refl;
  commit_again = λ j m. refl;
  quiet = λ j. record { query_keeps = λ syntax m. refl; close_keeps = λ m. refl };
}

abbrev pub codec : Codec
codec = record {
  decode_invoke = λ text request.
      if text == "save"
      then (record { key = "a"; value = "1" }, none)
      else if text == "spoil"
      then (record { key = "test"; value = "bad" }, none)
      else (request, some "unexpected end of JSON input");
  decode_query = λ text request.
      if text == "page"
      then (
        record request {
          dsl_syntax = "all";
          split_page = record { current_page = 2; page_size = 2; total_records = 0 };
        },
        none,
      )
      else if text == "broken"
      then (record request { dsl_syntax = "broken" }, none)
      else (request, some "unexpected end of JSON input");
  encode_invoke = λ r. (str_append "invoke:" r.res_status.status_msg, none);
  encode_query = λ r. (str_append "query:" r.res_status.status_msg, none);
}
