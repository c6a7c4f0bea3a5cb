-- ===== src/Apiserver/Handler/Answers/Stored.antt =====
-- From the server over the chaincode and the database back to a server: what nodes save is what
-- the handler of DslQuery gives to a user.
use test_fabric.Base.{
  ◌∙◌, ◌^◌, ◌<◌, String, ◌≡◌, ◌≢◌, ap, subst, ◌⊎◌, false, none, some, List, [], ◌∷◌, ◌++◌, Error,
  ok, In, length, ltb,
}
use test_fabric.Base.Int.{pos}
use test_fabric.Base.Go.{done}
use test_fabric.Apiserver.Define.{Message, Factor, factors}
use test_fabric.Apiserver.Host.{Host, Ciphers, Codec}
use test_fabric.Apiserver.Message.{is_sealed, make_message, format_request_message}
use test_fabric.Apiserver.Message.Trust.{AesLaws}
use test_fabric.Apiserver.Message.RoundTrip.{IsUser}
use test_fabric.Apiserver.Message.Exchange.{AreSent}
use test_fabric.Apiserver.Message.Encoded.{make_message-fabric_tx_id, format_request_message-encode}
use test_fabric.Apiserver.Sdk.Peers.{Policy, Sdk, Network}
use test_fabric.Apiserver.Sdk.Peers.Choice.{DrawsBelow}
use test_fabric.Apiserver.Sdk.Events.{Protos}
use test_fabric.Apiserver.Sdk.BlockQuery.{EventCodec}
use test_fabric.Apiserver.Sdk.Documents.{Couch, page_or_first, remove_data_wrapper}
use test_fabric.Apiserver.Sdk.Documents.Found.{with_more, HasText, AreHeld, nothing, held, passed}
use test_fabric.Apiserver.Sdk.Query.{ReplyCodec}
use test_fabric.Apiserver.Handler.Web.{Request, contents, WebCodec, response}
use test_fabric.Apiserver.Handler.Search.{search}
use test_fabric.Apiserver.Handler.Answers.Found.{search-AreSent}
use test_fabric.Chaincode.Shim.{Shim, Codec as CcCodec, success}
use test_fabric.Chaincode.Handler.{no_invoke}
use test_fabric.Chaincode.Contract.{invoke}
use test_fabric.Chaincode.Contract.Stored.{invoke-save_read}
use test_fabric.Chaincode.Contract.Alive.{IsLedger}

-- The programs read each other's JSON of a message: the chaincode the server's request with it, and
-- a server the message in a document, whose value is decoded, encoded again in any order of its keys,
-- and decoded as a message. `parse` is `json.Unmarshal` into an `interface{}`.
pub record IsReadBack {World : Type 0} (codec : Codec) (chaincode : CcCodec) (couch : Couch World)
    (parse : String → couch.Json) (m : Message) : Type 0 where
  pub requests :
      (text : String)
      → codec.encode_request
          (record { key = m.factor.fabric_tx_id; value = (codec.encode_message m).0 })
        ≡ (text, none)
      → chaincode.decode_invoke text no_invoke
        ≡ (record { key = m.factor.fabric_tx_id; value = (codec.encode_message m).0 }, none)
  pub text : String
  pub encoded_again : couch.marshal (parse (codec.encode_message m).0) ≡ (text, none)
  pub documents : couch.decode_message text ≡ (m, none)

module _ (host : Host) (ciphers : Ciphers host.World) (codec : Codec) (shim : Shim)
    (chaincode : CcCodec) (commit : shim.Stub → shim.Stub) (network : Network host.World)
    (couch : Couch host.World) (parse : String → couch.Json) (user_id : String) where
  -- A factor that was saved: at some node the server made a text of it, the chaincode's SaveData
  -- succeeded with this text, and the document is an object that has, as its "data", the JSON value
  -- that the ledger then has under the factor's id. The user may read the factor.
  pub record IsStored (request : Factor) (document : String) : Type 0 where
    pub w : host.World
    pub s : shim.Stub
    pub track_id : String
    pub text : String
    pub rest : List String
    pub reply : String
    pub made : (format_request_message host ciphers codec request w).0 ≡ done (text, none)
    pub given : text ≢ ""
    pub saved : (invoke shim chaincode "SaveData" (track_id ∷ text ∷ rest) s).0 ≡ success reply
    pub may_read :
        (is_sealed request.crypto_flag ≡ false)
        ⊎ In user_id (request.receiver ++ request.sender ∷ [])
    pub holds : remove_data_wrapper host ciphers network couch user_id document ≡ (
      parse
          (shim.get_state request.fabric_tx_id
            (commit (invoke shim chaincode "SaveData" (track_id ∷ text ∷ rest) s).1)).0,
      none,
    )
    pub reads :
        (m : Message)
        → (make_message host ciphers request w).0 ≡ done (ok m)
        → IsReadBack codec chaincode couch parse m

  -- Factors that were saved, and the documents that hold them, among documents that are no messages.
  pub data AreStored : List Factor → List String → Type 0 where
    empty : AreStored [] []
    stored :
        {requests : List Factor} {documents : List String} (request : Factor) (document : String)
        → IsStored request document
        → AreStored requests documents
        → AreStored (request ∷ requests) (document ∷ documents)
    skipped :
        {requests : List Factor} {documents : List String} (document text : String) (m : Message)
        (e : Error)
        → HasText host ciphers network couch user_id document text
        → couch.decode_message text ≡ (m, some e)
        → AreStored requests documents
        → AreStored requests (document ∷ documents)

  module _ (ledger : IsLedger shim commit) where
    AreStored-AreHeld :
        (requests : List Factor) (documents : List String)
        → AreStored requests documents
        → (ms : List Message) × AreHeld host ciphers network couch user_id documents ms
          × AreSent host ciphers user_id requests ms
    AreStored-AreHeld [] [] empty = ([], nothing, tt)
    AreStored-AreHeld (request ∷ requests) [] impossible = elim impossible [ ]
    AreStored-AreHeld (_ ∷ requests) (_ ∷ documents) (stored request document one rest) =
        let (ms, are_held, sent) = AreStored-AreHeld requests documents rest in
        let (m, message, encoded) =
          format_request_message-encode host ciphers codec request one.text one.w one.made in
        let agree = one.reads m message in
        let value = (codec.encode_message m).0 in
        let after =
          commit (invoke shim chaincode "SaveData" (one.track_id ∷ one.text ∷ one.rest) one.s).1 in
        let read : shim.get_state request.fabric_tx_id after ≡ (value, none) =
          subst (λ k. shim.get_state k after ≡ (value, none))
            (make_message-fabric_tx_id host ciphers request m one.w message)
            (invoke-save_read shim chaincode commit ledger one.track_id one.text one.reply one.rest
              (record { key = m.factor.fabric_tx_id; value = value }) one.s one.given
              (agree.requests one.text encoded) one.saved) in
        let unwrapped : remove_data_wrapper host ciphers network couch user_id document
            ≡ (parse value, none) =
          one.holds ∙ ap (λ r. (parse r.0, none)) read in
        (
          m ∷ ms,
          held document agree.text m
              (parse value, ap (λ r. r.0) unwrapped, ap (λ r. r.1) unwrapped, agree.encoded_again)
              agree.documents are_held,
          ((one.w, message, one.may_read), sent),
        )
    AreStored-AreHeld requests (_ ∷ documents) (skipped document text m e has_text undecoded rest) =
        let (ms, are_held, sent) = AreStored-AreHeld requests documents rest in
        (ms, passed document text m e has_text undecoded are_held, sent)

    -- `rand.Intn` draws below its bound, AES and base64 decode what they encoded, and the user's
    -- key opens what the user's certificate sealed. The ledger's reads see the last committed write
    -- of their key. Factors were made into requests at any nodes, and SaveData of the chaincode
    -- succeeded with each; the programs read each other's JSON of their messages, also when a value
    -- was decoded and encoded again. CouchDB has clients, each of which answers the body of a
    -- request with the same documents: for each of the factors, in their order, the one whose data
    -- is the value that the ledger then had under the factor's id, and possibly documents that are
    -- no messages. If the user may read the factors, and the header "page" asks for a thousand
    -- documents at most, or for the page 0, with a total that fits 64 bits, then the handler of
    -- DslQuery returns, and answers once: the factors as they were sent, with the status 200, no
    -- error, and a page that counts all the documents.
    pub search-AreStored :
        (protos : Protos) (events : EventCodec) (replies : ReplyCodec) (web : WebCodec)
        (policy : Policy) (sdk : Sdk) (chain_id : String) (c : Request) (body : String)
        (clients : List couch.Client) (documents : List String) (requests : List Factor)
        (w : host.World)
        → DrawsBelow network
        → AesLaws ciphers
        → IsUser host ciphers user_id
        → c.body ≡ ok body
        → (couch.get_db_clients w).0 ≡ ok clients
        → 0 < length clients
        → ((cli : couch.Client) (v : host.World)
            → (couch.query_documents cli body v).0 ≡ ok documents)
        → AreStored requests documents
        → ltb 1000 (page_or_first (web.decode_page (c.header "page"))).page_size ≡ false
        → (web.decode_page (c.header "page")).total_records < 2 ^ 64
        → (search host ciphers network couch protos events replies web policy sdk chain_id user_id c
            w).0
          ≡ done (
              response web
                (contents
                  (record { schema = "/schema/factorList.json"; payload = factors requests }))
                c
                200
                (record { status_code = pos 0; status_msg = "" })
                (some (with_more (length documents) (web.decode_page (c.header "page")))))
    search-AreStored protos events replies web policy sdk chain_id c body clients documents requests
          w draws laws u read found there answers are_stored small fits =
        let (ms, are_held, sent) = AreStored-AreHeld requests documents are_stored in
        search-AreSent host ciphers network couch protos events replies web policy sdk chain_id
          user_id c body clients documents ms requests w draws laws u read found there answers
          are_held sent small fits
