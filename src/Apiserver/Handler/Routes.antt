-- ===== src/Apiserver/Handler/Routes.antt =====
-- apiserver/router/router.go: the table of routes, and the handler of each.
use Prim.Native.String.{◌++◌ as str_append}
use test_fabric.Base.{String, Option, none, some, List, [], ◌∷◌, Error, State}
use test_fabric.Base.Go.{Go}
use test_fabric.Apiserver.Host.{Host, Ciphers, Codec}
use test_fabric.Apiserver.Sdk.Peers.{Policy, Sdk, Network}
use test_fabric.Apiserver.Sdk.Events.{Protos}
use test_fabric.Apiserver.Sdk.BlockQuery.{EventCodec}
use test_fabric.Apiserver.Sdk.Documents.{Couch}
use test_fabric.Apiserver.Sdk.Query.{ReplyCodec}
use test_fabric.Apiserver.Handler.Web.{Request, WriterCall, WebCodec}
use test_fabric.Apiserver.Handler.Save.{save_data}
use test_fabric.Apiserver.Handler.Search.{search, block_query_handler, block_query_ex_handler}
use test_fabric.Apiserver.Handler.Keepalive.{keepalive_query}

-- The names of the handlers that the routes lead to.
pub data Handler : Type 0 where
  on_save_data on_dsl_query on_keepalive_query on_block_query on_block_query_ex : Handler

pub data Method : Type 0 where
  post head get : Method

pub record Route : Type 0 where
  pub method : Method
  pub path : String
  pub handler : Handler

abbrev pub in_factor : Method → String → Handler → Route
in_factor method path handler = record {
  method = method;
  path = str_append "/factor" path;
  handler = handler;
}

-- createRouter, without the static files under "/schema".
abbrev pub create_router : List Route
create_router =
    in_factor post "/saveData" on_save_data
    ∷ in_factor post "/dslQuery" on_dsl_query
    ∷ in_factor head "/keepaliveQuery" on_keepalive_query
    ∷ in_factor get "/block/:id" on_block_query
    ∷ in_factor get "/blockQuery/:id" on_block_query_ex
    ∷ []

-- GetRouter: the router is made once, and kept.
unfoldable pub get_router : State (Option (List Route)) (List Route)
get_router none = (create_router, some create_router)
get_router (some router) = (router, some router)

-- What the running server works with: the outside world, its configuration and its variables.
pub record Server : Type 1 where
  pub host : Host
  pub ciphers : Ciphers host.World
  pub network : Network host.World
  pub couch : Couch host.World
  pub protos : Protos
  pub codec : Codec
  pub events : EventCodec
  pub replies : ReplyCodec
  pub web : WebCodec
  pub run_shell : String → State host.World (Option Error)
  pub policy : Policy
  pub sdk : Sdk
  pub chain_id : String
  pub user_id : String
  pub target_order_addr : String

module _ (server : Server) where
  open server use {
    host, ciphers, network, couch, protos, codec, events, replies, web, run_shell, policy, sdk,
    chain_id, user_id, target_order_addr,
  }

  unfoldable pub handle : Handler → Request → Go host.World (List WriterCall)
  unfolding save_data search block_query_handler block_query_ex_handler keepalive_query
  handle on_save_data = save_data host ciphers network codec web policy sdk
  handle on_dsl_query =
      search host ciphers network couch protos events replies web policy sdk chain_id user_id
  handle on_keepalive_query = keepalive_query network run_shell web policy sdk target_order_addr
  handle on_block_query =
      block_query_handler host ciphers network couch protos events replies web policy sdk chain_id
        user_id
  handle on_block_query_ex =
      block_query_ex_handler host ciphers network couch protos events replies web policy sdk
        chain_id user_id
