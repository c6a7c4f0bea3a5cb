-- ===== src/Apiserver/Handler/Answers/Found.antt =====
-- What the handler of DslQuery answers when the database's documents hold messages.
use test_fabric.Base.{◌^◌, ◌<◌, String, ◌≡◌, refl, false, some, List, ok, length, ltb}
use test_fabric.Base.Int.{pos}
use test_fabric.Base.Go.{done}
use test_fabric.Apiserver.Define.{Message, Factor, factors}
use test_fabric.Apiserver.Host.{Host, Ciphers}
use test_fabric.Apiserver.Message.Trust.{AesLaws}
use test_fabric.Apiserver.Message.RoundTrip.{IsUser}
use test_fabric.Apiserver.Message.Exchange.{AreSent}
use test_fabric.Apiserver.Sdk.Peers.{Policy, Sdk, Network}
use test_fabric.Apiserver.Sdk.Peers.Choice.{DrawsBelow}
use test_fabric.Apiserver.Sdk.Events.{Protos}
use test_fabric.Apiserver.Sdk.BlockQuery.{EventCodec}
use test_fabric.Apiserver.Sdk.Documents.{Couch, page_or_first}
use test_fabric.Apiserver.Sdk.Documents.Found.{with_more, AreHeld, dsl-AreSent}
use test_fabric.Apiserver.Sdk.Query.{ReplyCodec}
use test_fabric.Apiserver.Handler.Web.{Request, contents, WebCodec, response}
use test_fabric.Apiserver.Handler.Search.{search}

module _ (host : Host) (ciphers : Ciphers host.World) (network : Network host.World)
    (couch : Couch host.World) (protos : Protos) (events : EventCodec) (codec : ReplyCodec)
    (web : WebCodec) (policy : Policy) (sdk : Sdk) (chain_id user_id : String) where
  -- `rand.Intn` draws below its bound, AES and base64 decode what they encoded, and the user's key
  -- opens what the user's certificate sealed. CouchDB has clients, each of which answers the body of
  -- the request with the same documents, which hold the messages that were made, at any nodes, of
  -- some factors that the user may read; the others of the documents hold no message. If the header
  -- "page" asks for a thousand documents at most (or for the page 0), and its total fits 64 bits,
  -- then the handler of DslQuery returns, and answers once: these factors as they were sent, in the
  -- documents' order, with the status 200, no error, and a page that counts all the documents.
  pub search-AreSent :
      (c : Request) (body : String) (clients : List couch.Client) (docs : List String)
      (ms : List Message) (fs : List Factor) (w : host.World)
      → DrawsBelow network
      → AesLaws ciphers
      → IsUser host ciphers user_id
      → c.body ≡ ok body
      → (couch.get_db_clients w).0 ≡ ok clients
      → 0 < length clients
      → ((cli : couch.Client) (v : host.World) → (couch.query_documents cli body v).0 ≡ ok docs)
      → AreHeld host ciphers network couch user_id docs ms
      → AreSent host ciphers user_id fs ms
      → ltb 1000 (page_or_first (web.decode_page (c.header "page"))).page_size ≡ false
      → (web.decode_page (c.header "page")).total_records < 2 ^ 64
      → (search host ciphers network couch protos events codec web policy sdk chain_id user_id c
          w).0
        ≡ done (
            response web
              (contents (record { schema = "/schema/factorList.json"; payload = factors fs }))
              c
              200
              (record { status_code = pos 0; status_msg = "" })
              (some (with_more (length docs) (web.decode_page (c.header "page")))))
  unfolding search
  search-AreSent c body clients docs ms fs w draws laws u read found there answers are_held sent
        small fits =
      let answered =
        dsl-AreSent host ciphers network couch user_id "DslQuery"
          (record {
            dsl_syntax = body;
            split_page = web.decode_page (c.header "page");
            block_flag = false;
          })
          clients docs ms fs w draws laws u found there answers are_held sent small fits in
      rw (read, answered) refl
