-- ===== src/Apiserver/Sdk/Documents.antt =====
-- apiserver/sdk/sdk.go: DSL, which queries the documents of a peer's CouchDB.
pub mod Agrees
pub mod Returns
pub mod Unpaged
pub mod Found
mod Tests
use Prim.Native.String.{◌++◌ as str_append}
use test_fabric.Base.{
  ℕ, ◌+◌, ◌%◌, ◌^◌, String, Option, none, some, List, [], ◌∷◌, ◌++◌, Error, Result, ok, err, State,
  get_elem?, length, nat_eq, ltb, ◌==◌, if◌then◌else◌,
}
use test_fabric.Base.Int.{pos}
use test_fabric.Base.Dict.{lookup}
use test_fabric.Base.Go.{Go, ◌>>=◌, pure, panic, call, or_panic}
use test_fabric.Apiserver.Define.{
  Page, ResponseStatus, QueryRequest, Message, Factor, nil, factors, QueryContents,
}
use test_fabric.Apiserver.Host.{Host, Ciphers}
use test_fabric.Apiserver.Message.{format_response_message}
use test_fabric.Apiserver.Sdk.Peers.{Network, generate_range_num}
use test_fabric.Apiserver.Sdk.BlockQuery.{Answer}

-- The clients of CouchDB, and encoding/json at the values that DSL passes to it. A document is its
-- text; `null` is the value that a missing key of a map reads as.
pub record Couch (World : Type 0) : Type 1 where
  pub Client : Type 0
  pub get_db_clients : State World (Result (List Client))
  pub query_documents : Client → String → State World (Result (List String))
  pub Json : Type 0
  pub null : Json
  pub decode_object : String → List (String × Json) × Option Error
  pub marshal : Json → String × Option Error
  pub decode_message : String → Message × Option Error

-- `DSL_QUERY`
abbrev pub dsl_query : String
dsl_query = "DslQuery"

-- `TotalRecords++` on a uint.
abbrev pub count : Page → Page
count page = record page { total_records = (page.total_records + 1) % 2 ^ 64 }

abbrev pub schema_of : String → String
schema_of function = if function == dsl_query then "/schema/factorList.json" else ""

-- `retFunc` with an error, and with none behind the last message.
abbrev pub ret_failed : String → Page → String → Error → Answer
ret_failed function page action e =
    let text = str_append action (str_append " failed:" e) in
    (
      record { schema = schema_of function; payload = nil },
      record { status_code = pos 1; status_msg = text },
      page,
      some text,
    )

abbrev pub ret_found : String → Page → List Factor → Answer
ret_found function page list = (
  record { schema = schema_of function; payload = factors list },
  record { status_code = pos 0; status_msg = "" },
  page,
  none,
)

-- The page that the size is read from: a page number 0 asks for the first thousand.
abbrev pub page_or_first : Page → Page
page_or_first page =
    if nat_eq page.current_page 0 then record page { current_page = 1; page_size = 1000 } else page

module _ (host : Host) (ciphers : Ciphers host.World) (network : Network host.World)
    (couch : Couch host.World) (user_id : String) where
  open host use {World}
  open couch use {
    Client, get_db_clients, query_documents, Json, null, decode_object, marshal, decode_message,
  }

  abbrev pub or_null : Option Json → Json
  or_null none = null
  or_null (some val) = val

  abbrev pub remove_data_wrapper : String → Json × Option Error
  remove_data_wrapper wrapped_value =
      (or_null (lookup "data" (decode_object wrapped_value).0), (decode_object wrapped_value).1)

  abbrev pub ask_client : String → Result (List Client) → Go World (Result (List String))
  ask_client dsl_syntax (err e) = pure (err (str_append "GetCouchDBClients failed:" e))
  ask_client dsl_syntax (ok clients) = do
    i ← generate_range_num network 0 (length clients)
    cli ← or_panic (get_elem? clients i) "index out of range"
    call (query_documents cli dsl_syntax)

  -- The messages that a document adds: one that does not decode is passed over.
  abbrev pub kept_message : Message × Option Error → List Message
  kept_message (message, none) = message ∷ []
  kept_message (message, some e) = []

  -- What reading a document comes to: the failed action and its error, or messages.
  abbrev pub marshalled : String × Option Error → Option (String × Error) × List Message
  marshalled (value_json, some e) = (some ("json mash", e), [])
  marshalled (value_json, none) = (none, kept_message (decode_message value_json))

  abbrev pub unwrapped : Json × Option Error → Option (String × Error) × List Message
  unwrapped (val, some e) = (some ("Unmarshal value", e), [])
  unwrapped (val, none) = marshalled (marshal val)

  -- The loop's way on from a document: a failed action ends it.
  abbrev pub stop_or_go :
      Page
      → List Message
      → Page × Option (String × Error) × List Message
      → Option (String × Error)
      → Page × Option (String × Error) × List Message
  stop_or_go page messages rest none = rest
  stop_or_go page messages rest (some e) = (page, some e, messages)

  -- The loop over the documents: the page counts them.
  unfoldable pub read_documents :
      Page → List Message → List String → Page × Option (String × Error) × List Message
  read_documents page messages [] = (page, none, messages)
  read_documents page messages (value ∷ qrs) =
      let read = unwrapped (remove_data_wrapper value) in
      let rest = read_documents (count page) (messages ++ read.1) qrs in
      stop_or_go (count page) messages rest read.0

  -- `retFunc("", err)` on what FormatResponseMessage made.
  abbrev pub formatted : String → Page → List Factor × Option Error → Answer
  formatted function page (list, none) = ret_found function page list
  formatted function page (list, some e) = (
    record { schema = schema_of function; payload = factors list },
    record { status_code = pos 1; status_msg = str_append " failed:" e },
    page,
    some (str_append " failed:" e),
  )

  abbrev pub answer_read : String → Page × Option (String × Error) × List Message → Go World Answer
  answer_read function (page, some (action, e), messages) = pure (ret_failed function page action e)
  answer_read function (page, none, messages) = do
    got ← format_response_message host ciphers user_id [] messages
    pure (formatted function page got)

  abbrev pub answer_queried : String → Page → Result (List String) → Go World Answer
  answer_queried function page (err e) = pure (ret_failed function page "QueryDocuments" e)
  answer_queried function page (ok qrs) = answer_read function (read_documents page [] qrs)

  unfoldable pub dsl : String → QueryRequest → Go World Answer
  unfolding read_documents
  dsl function request =
      if ltb 1000 (page_or_first request.split_page).page_size
      then pure
          (ret_failed function request.split_page "PageSize get" "PageSize is more than 1000!")
      else (do
        clients ← call get_db_clients
        qrs ← ask_client request.dsl_syntax clients
        answer_queried function request.split_page qrs)
