-- ===== src/Apiserver/Sdk/Documents/Found.antt =====
-- What DSL makes of documents that hold messages.
use test_fabric.Base.{
  ℕ, suc, ◌+◌, ◌%◌, ◌^◌, ◌<◌, String, ◌≡◌, refl, ap, false, none, some, List, [], ◌∷◌, ◌++◌, Error,
  ok, length, get_elem?-some, ltb, arith,
}
use mathlib.Core.List.{append-nil, append_assoc}
use test_fabric.Base.Go.{done}
use test_fabric.Apiserver.Define.{Page, Message, Factor, QueryRequest}
use test_fabric.Apiserver.Host.{Host, Ciphers}
use test_fabric.Apiserver.Message.Trust.{AesLaws}
use test_fabric.Apiserver.Message.RoundTrip.{IsUser}
use test_fabric.Apiserver.Message.Exchange.{AreSent, format_response_message-AreSent}
use test_fabric.Apiserver.Sdk.Peers.{Network}
use test_fabric.Apiserver.Sdk.Peers.Choice.{DrawsBelow, generate_range_num-below}
use test_fabric.Apiserver.Sdk.Documents.{
  Couch, count, ret_found, page_or_first, remove_data_wrapper, read_documents, answer_queried, dsl,
}

-- The page with so many records more, the total being a uint.
abbrev pub with_more : ℕ → Page → Page
with_more n page = record page { total_records = (page.total_records + n) % 2 ^ 64 }

module _ (host : Host) (ciphers : Ciphers host.World) (network : Network host.World)
    (couch : Couch host.World) (user_id : String) where
  -- A document is an object whose "data" can be written as a text.
  abbrev pub HasText : String → String → Type 0
  HasText value text =
      (val : couch.Json) × ((remove_data_wrapper host ciphers network couch user_id value).0 ≡ val)
      × ((remove_data_wrapper host ciphers network couch user_id value).1 ≡ none)
      × (couch.marshal val ≡ (text, none))

  -- Documents, and the messages that they hold. A document whose text is no message is passed over.
  pub data AreHeld : List String → List Message → Type 0 where
    nothing : AreHeld [] []
    held :
        {docs : List String} {ms : List Message} (value text : String) (m : Message)
        → HasText value text
        → couch.decode_message text ≡ (m, none)
        → AreHeld docs ms
        → AreHeld (value ∷ docs) (m ∷ ms)
    passed :
        {docs : List String} {ms : List Message} (value text : String) (m : Message) (e : Error)
        → HasText value text
        → couch.decode_message text ≡ (m, some e)
        → AreHeld docs ms
        → AreHeld (value ∷ docs) ms

  with_more-count : (n : ℕ) (page : Page) → with_more n (count page) ≡ with_more (suc n) page
  with_more-count n page = ap (λ t. record page { total_records = t }) (omega arith)

  read_documents-AreHeld :
      (docs : List String) (ms before : List Message) (page : Page)
      → AreHeld docs ms
      → page.total_records < 2 ^ 64
      → read_documents host ciphers network couch user_id page before docs
        ≡ (with_more (length docs) page, none, before ++ ms)
  unfolding read_documents
  read_documents-AreHeld docs ms before page nothing fits =
      let same : (page.total_records + 0) % 2 ^ 64 ≡ page.total_records = omega (arith, fits) in
      rw (append-nil, same) refl
  read_documents-AreHeld (_ ∷ docs) (_ ∷ ms) before page
        (held value text m (val, data_read, whole, written) decoded rest) fits =
      let later =
        read_documents-AreHeld docs ms (before ++ m ∷ []) (count page) rest (omega (arith, fits)) in
      rw (data_read, whole, written, decoded, later, append_assoc before (m ∷ []) ms)
        (ap (λ p. (p, none, before ++ m ∷ ms)) (with_more-count (length docs) page))
  read_documents-AreHeld (_ ∷ docs) ms before page
        (passed value text m e (val, data_read, whole, written) decoded rest) fits =
      let later =
        read_documents-AreHeld docs ms (before ++ []) (count page) rest (omega (arith, fits)) in
      rw (data_read, whole, written, decoded, later, append-nil)
        (ap (λ p. (p, none, before ++ ms)) (with_more-count (length docs) page))

  answer_queried-AreSent :
      (function : String) (page : Page) (docs : List String) (ms : List Message) (fs : List Factor)
      (w : host.World)
      → AesLaws ciphers
      → IsUser host ciphers user_id
      → AreHeld docs ms
      → AreSent host ciphers user_id fs ms
      → page.total_records < 2 ^ 64
      → (answer_queried host ciphers network couch user_id function page (ok docs) w).0
        ≡ done (ret_found function (with_more (length docs) page) fs)
  answer_queried-AreSent function page docs ms fs w laws u are_held sent fits =
      let read = read_documents-AreHeld docs ms [] page are_held fits in
      let opened = format_response_message-AreSent host ciphers user_id [] fs ms w laws u sent in
      rw (read, opened) refl

  -- `rand.Intn` draws below its bound, and CouchDB has clients, each of which answers the request
  -- with the same documents. They hold the messages of some factors, which were made at any nodes
  -- and which the user may read, and possibly documents that are no messages. Then DSL gives back
  -- these factors as they were sent, in the order of the documents, with no error, and counts all the
  -- documents in its page, if the page asks for a thousand at most.
  pub dsl-AreSent :
      (function : String) (request : QueryRequest) (clients : List couch.Client)
      (docs : List String) (ms : List Message) (fs : List Factor) (w : host.World)
      → DrawsBelow network
      → AesLaws ciphers
      → IsUser host ciphers user_id
      → (couch.get_db_clients w).0 ≡ ok clients
      → 0 < length clients
      → ((cli : couch.Client) (v : host.World)
          → (couch.query_documents cli request.dsl_syntax v).0 ≡ ok docs)
      → AreHeld docs ms
      → AreSent host ciphers user_id fs ms
      → ltb 1000 (page_or_first request.split_page).page_size ≡ false
      → request.split_page.total_records < 2 ^ 64
      → (dsl host ciphers network couch user_id function request w).0
        ≡ done (ret_found function (with_more (length docs) request.split_page) fs)
  unfolding dsl
  dsl-AreSent function request clients docs ms fs w draws laws u found there answers are_held sent
        small fits =
      let (i, drawn, below) =
        generate_range_num-below network draws (length clients) (couch.get_db_clients w).1 there in
      let (cli, at) = get_elem?-some clients i below in
      let last =
        answer_queried-AreSent function request.split_page docs ms fs _ laws u are_held sent fits in
      rw (small, found, drawn, at, answers cli) last
