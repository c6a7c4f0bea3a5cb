-- ===== src/Apiserver/Handler/Web.antt =====
-- apiserver/utils/response.go: what a handler reads of a request and writes as its answer.
use test_fabric.Base.{ℕ, String, Option, none, some, List, [], ◌∷◌, ◌++◌, Error, Result}
use test_fabric.Base.Int.{pos}
use test_fabric.Apiserver.Define.{Factor, Page, QueryRequest, ResponseStatus, QueryContents}

-- What is read of `gin.Context`: the body, the headers (empty if absent) and the parameter "id".
pub record Request : Type 0 where
  pub body : Result String
  pub header : String → String
  pub id : String

-- The calls of `c.Writer`, in their order.
pub data WriterCall : Type 0 where
  set_header : String → String → WriterCall
  write_header : ℕ → WriterCall
  write : String → WriterCall

-- The values that are passed to `Response`.
pub data Body : Type 0 where
  nothing : Body
  tx_ids : List String → Body
  contents : QueryContents → Body

-- encoding/json at the types of the handlers. The errors of Marshal are dropped, and those of
-- decoding a page, which starts as zeros.
pub record WebCodec : Type 0 where
  pub encode_body : Body → String
  pub encode_status : ResponseStatus → String
  pub encode_page : Page → String
  pub encode_query : QueryRequest → String
  pub decode_factors : String → Result (List Factor)
  pub decode_page : String → Page

-- `http.StatusOK`, `http.StatusNoContent` and `http.StatusBadRequest`
abbrev pub status_ok : ℕ
status_ok = 200

abbrev pub status_no_content : ℕ
status_no_content = 204

abbrev pub status_bad_request : ℕ
status_bad_request = 400

abbrev pub page_header : WebCodec → Option Page → List WriterCall
page_header codec none = []
page_header codec (some page) = set_header "page" (codec.encode_page page) ∷ []

unfoldable pub response :
    WebCodec → Body → Request → ℕ → ResponseStatus → Option Page → List WriterCall
response codec body c status response_status page =
    set_header "version" (c.header "version")
      ∷ set_header "content-Type" (c.header "content-Type")
      ∷ set_header "trackId" (c.header "trackId")
      ∷ set_header "language" (c.header "language")
      ∷ set_header "responseStatus" (codec.encode_status response_status)
      ∷ page_header codec page
    ++ write_header status ∷ write (codec.encode_body body) ∷ []

-- `&define.ResponseStatus{0, "SUCCESS"}`, and the status of an error.
abbrev pub success : ResponseStatus
success = record { status_code = pos 0; status_msg = "SUCCESS" }

abbrev pub failure : Error → ResponseStatus
failure e = record { status_code = pos 1; status_msg = e }
