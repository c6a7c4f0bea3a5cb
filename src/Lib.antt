-- ===== src/Lib.antt =====
-- The factoring platform: a chaincode that stores and queries records on a Fabric ledger
-- (chaincode/), a REST server in front of it (apiserver/), and a listener for its events
-- (eventserver/).
--
-- Chaincode, over the shim of the peer. Chaincode.Define has the types of
-- chaincode/define/define.go. Chaincode.Shim has what the peer and encoding/json supply, as two
-- records of functions that every definition takes: Shim (ChaincodeStubInterface over an abstract
-- state, Stub) and Codec (Marshal and Unmarshal at the types that are passed to them).
-- Chaincode.Reply, Chaincode.Paging and its child Scan model chaincode/utils/utils.go:
-- InvokeResponse is invoke_response, QueryResponse is query_response, GetValueByDSL is
-- get_value_by_dsl, its loop scan, the loop's body step. Chaincode.Handler models
-- chaincode/handler/handler.go (save_data, dsl_query, keepalive_query), and Chaincode.Contract
-- chaincode/chaincode.go (init, invoke, func_handler). Chaincode.Memory is a stub in memory that
-- meets every law which is asked of the shim.
--
-- Apiserver.Define has the types of apiserver/define. Apiserver.Host has what the server takes
-- from outside for its messages: files and random numbers, the ciphers, base64 and encoding/json,
-- as three records of functions. Apiserver.Crypto models apiserver/utils/crypto.go (ReadFile is
-- read_file, GenerateKey generate_key, AesEncrypt aes_encrypt and so on), Apiserver.Message
-- apiserver/utils/message.go: FormatRequestMessage is format_request_message, made of make_message
-- and encode, and FormatResponseMessage is format_response_message with open_message as the body
-- of its loop. Its child modules have the laws that are asked of the ciphers and the files (Trust)
-- and what follows from them. Apiserver.Sdk.Peers models the part of apiserver/sdk/sdk.go that
-- chooses peers and orderers (SetSendPeerOrder, GetSendPeerName, getSendOrderName) and the calls
-- that use the choice (Invoke, PeerKeepalive); the package's variables are the record Sdk, and
-- gohfc and math/rand the record Network. Apiserver.Sdk.Keys models checkAndRemove, with the array
-- behind the slice, Apiserver.Sdk.Events GetChainCodeEvents over the protocol buffers (record
-- Protos), Apiserver.Sdk.Blocks GetBlockByTxids (get_block_by_txids, its loop walk, whose rounds
-- are the length of the slice at the start), and Apiserver.Sdk.BlockQuery BlockQuery and
-- BlockQueryEx, with analysisCCEvent and calHash,
-- where the factors that share an array of receivers are read in the memory of the end; Apiserver.Sdk.Documents models DSL over the clients of CouchDB (record Couch).
-- Code that may panic is in the monad Go of Base.Go, whose runs end with a value or a panic. A Go
-- map is an association list (Base.Dict), and a range over it goes in the order of that list,
-- where Go fixes no order.
--
-- Apiserver.Sdk.Query models Query (query) and Apiserver.Sdk.Peers InitSDK from the outcome of
-- gohfc's own. Apiserver.Handler models the package handler: a handler is a run that ends with the
-- calls of the response writer (Web.response is utils.Response), Save is SaveData, Search has
-- DslQuery (search), BlockQuery and BlockQueryEx (block_query_handler, block_query_ex_handler, both
-- search_blocks over the block query that they ask), Keepalive is KeepaliveQuery, Random
-- GetRandomString, and Routes the table of router.go with the handler of each route. Answers has
-- what the handlers answer; its child Stored follows factors from a server over the chaincode and
-- the database to the reader, as Eventserver.Filter.Delivered does over the chaincode's event.
-- Base.Total has what it takes for a run not to panic. Apiserver.Main models apiserver/main.go, where the rest of
-- ListenAndServe is a parameter.
--
-- Eventserver. Queue models messagequeue.go (InitMQ is init_mq, its loop connect_all; SendMessage
-- is send_message, its loop publish_first), Progress and Recover handleevent.go (SetBlockInfo is
-- set_block_info, GetBlockInfo get_block_info, CheckAndRecoverEvent, whose call in
-- main is commented out, check_and_recover, its loop
-- over the missed blocks recover), Filter FilterEvent of filterevent.go with the types of event.go,
-- Alias the rest of filterevent.go (GetUserAlias is get_user_alias, its endless loop
-- try_addresses), Listen listenevent.go, and Main eventserver/main.go. The event server uses the
-- server's FormatResponseMessage from a vendored copy of apiserver/utils that is the same code. An
-- endless loop is a function of what has come through its channel so far, or of the number of its
-- rounds so far.
--
-- Not modelled: the libraries under vendor, which are other projects' code, the scripts that build
-- images, the tests of apiserver/unit-test, which call a running server, logging, GetSDK and GetTxId,
-- each one line that hands out a variable or calls a library, and PathExists, IsFileExist and
-- GetPrivateKey, which nothing calls.
--
-- A Go string and a []byte are one type, String, read byte by byte; a Go error is its text, and
-- nil is none. An int that is only stored is an integer of Base.Int; a uint is a number below 2 ^
-- 64 with its wrap-around written out. Loops run over lists or over a number of rounds that is
-- fixed at their start, so no fuel is needed. Only recover_while of Eventserver.Recover.Missed, the
-- loop over the missed blocks as it is written, runs on fuel: its counter grows by one each round,
-- so more fuel than the height is enough. Logging is left out.
pub mod Base
pub mod Chaincode
pub mod Apiserver
pub mod Eventserver
