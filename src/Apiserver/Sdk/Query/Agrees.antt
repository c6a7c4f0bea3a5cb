-- ===== src/Apiserver/Sdk/Query/Agrees.antt =====
-- What Query answers, on every branch.
use test_fabric.Base.{
  String, ◌≡◌, refl, ◌≢◌, ◌⊎◌, inl, inr, Bool, true, false, Option, none, some, List, [], ◌∷◌,
  Error, Result, ok, err, get_elem?,
}
use test_fabric.Base.Int.{pos}
use test_fabric.Base.Go.{bind_any-After, done, panicked, After, or_panic}
use test_fabric.Apiserver.Define.{QueryResponse, Factor, Payload, factors, texts}
use test_fabric.Apiserver.Host.{Host, Ciphers}
use test_fabric.Apiserver.Message.Total.{HasSizes, format_response_message-done}
use test_fabric.Apiserver.Sdk.Peers.{Policy, Sdk, Network, get_send_peer_name}
use test_fabric.Apiserver.Sdk.BlockQuery.{Answer}
use test_fabric.Apiserver.Sdk.Query.{
  ReplyCodec, read_messages, answer_decoded, answer_response, query,
}
use test_fabric.Apiserver.Sdk.Events.{nil_pointer}

-- The payload of an answer without an error: texts for a block query, else factors.
abbrev pub Fits : Bool → Payload → Type 0
Fits true payload = (list : List String) × (payload ≡ texts list)
Fits false payload = (list : List Factor) × (payload ≡ factors list)

-- Not the answer of a block query.
abbrev pub IsNoTexts : Payload → Type 0
IsNoTexts payload = (list : List String) → payload ≢ texts list

-- Either there is an error, which is the text of the status 1, and there are no texts, or there is
-- no error and the payload fits the block flag.
abbrev pub Agrees : Bool → Answer → Type 0
Agrees flag (contents, status, page, e) =
    ((e ≡ some status.status_msg) × (status.status_code ≡ pos 1) × IsNoTexts contents.payload)
    ⊎ ((e ≡ none) × Fits flag contents.payload)

module _ (host : Host) (ciphers : Ciphers host.World) (sizes : HasSizes host)
    (network : Network host.World) (codec : ReplyCodec) (user_id : String) where
  answer_decoded-Agrees :
      (function : String) (flag : Bool) (got : QueryResponse × Option Error) (w : host.World)
      → After
          (Agrees flag)
          (answer_decoded host ciphers network codec user_id function flag got w).0
  answer_decoded-Agrees function flag (reply, some e) w = inl (refl, refl, λ list e. cc)
  answer_decoded-Agrees function true (reply, none) w = inr (refl, (reply.payload, refl))
  answer_decoded-Agrees function false (reply, none) w =
      let (fs, e, same) =
        format_response_message-done host ciphers sizes user_id []
          (read_messages codec reply.payload) w in
      rw e (inr (refl, (fs, refl)))

  answer_response-Agrees :
      (function : String) (flag : Bool) (response : Result (List (Option String))) (w : host.World)
      → After
          (Agrees flag)
          (answer_response host ciphers network codec user_id function flag response w).0
  answer_response-Agrees function flag (err e) w = inl (refl, refl, λ list e. cc)
  answer_response-Agrees function flag (ok []) w = tt
  answer_response-Agrees function flag (ok (none ∷ rest)) w = tt
  answer_response-Agrees function flag (ok (some payload ∷ rest)) w =
      answer_decoded-Agrees function flag (codec.decode_response payload _) w

  -- On a host whose opened files have sizes, if Query returns at all, its answer has an error that
  -- is the text of its status 1, and no list of texts, or it has no error, and its payload is a
  -- list of texts for a block query and a list of factors otherwise.
  pub query-Agrees :
      (policy : Policy) (sdk : Sdk) (function request : String) (flag : Bool) (w : host.World)
      → After
          (Agrees flag)
          (query host ciphers network codec user_id policy sdk function request flag w).0
  unfolding query
  query-Agrees policy sdk function request flag w =
      bind_any-After (Agrees flag) (get_send_peer_name network policy sdk) _ w λ names t.
        bind_any-After (Agrees flag) (or_panic (get_elem? names 0) "index out of range") _ t
          λ peer t. answer_response-Agrees function flag _ _

  -- If a peer is chosen, and it answers with an empty list and no error, Query panics: it asks for
  -- the text of an error that is nil.
  pub query_speechless :
      (policy : Policy) (sdk : Sdk) (function request peer : String) (peers : List String)
      (flag : Bool) (w : host.World)
      → (get_send_peer_name network policy sdk w).0 ≡ done (peer ∷ peers)
      → ((v : host.World) → (network.query (function ∷ request ∷ []) (peer ∷ []) v).0 ≡ ok [])
      → (query host ciphers network codec user_id policy sdk function request flag w).0
        ≡ panicked nil_pointer
  unfolding query
  query_speechless policy sdk function request peer peers flag w chosen silent =
      rw (chosen, silent (get_send_peer_name network policy sdk w).1)
