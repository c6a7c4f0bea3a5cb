-- ===== src/Apiserver/Sdk/Documents/Tests.antt =====
-- DSL on a database of two documents, one of which is no message.
use test_fabric.Apiserver.Sdk.BlockQuery.{Answer}
use test_fabric.Apiserver.Sdk.Documents.Returns.{dsl-done}
use test_fabric.Base.{ℕ, ◌≡◌, refl, false}
use test_fabric.Base.Go.{done}
use test_fabric.Apiserver.Sample.Net.{network, couch, draws}
use test_fabric.Apiserver.Define.{QueryRequest}
use test_fabric.Apiserver.Sample.{host, ciphers, has_sizes}
use test_fabric.Apiserver.Sdk.Documents.{dsl}
use test_fabric.Apiserver.Sdk.Documents.Agrees.{Agrees}
use test_fabric.Apiserver.Sdk.Documents.Unpaged.{outcome, dsl_unpaged}

abbrev request : ℕ → QueryRequest
request n = record {
  dsl_syntax = "all";
  split_page = record { current_page = n; page_size = 10; total_records = 0 };
  block_flag = false;
}

dsl_unpaged_example :
    outcome (dsl host ciphers network couch "bob" "DslQuery" (request 1) 0).0
    ≡ outcome (dsl host ciphers network couch "bob" "DslQuery" (request 7) 0).0
dsl_unpaged_example =
    dsl_unpaged host ciphers network couch "bob" "DslQuery" (request 1) (request 7) 0 refl refl refl

dsl-done_example :
    (answer : Answer) × ((dsl host ciphers network couch "bob" "DslQuery" (request 1) 0).0
      ≡ done answer)
    × Agrees answer
dsl-done_example =
    dsl-done host ciphers has_sizes network draws couch (λ w e. cc e) "bob" "DslQuery" (request 1) 0
