-- ===== src/Eventserver/Main.antt =====
-- eventserver/main.go: the start of the event server. InitSDK is the one of the REST server's
-- package sdk.
pub mod Readable
use Prim.Native.String.{◌++◌}
use test_fabric.Base.{ℕ, String, Option, none, some, List, [], ◌∷◌, Error, Result, State}
use test_fabric.Base.Go.{Go, ◌>>=◌, pure, panic, call}
use test_fabric.Apiserver.Host.{Host, Ciphers}
use test_fabric.Apiserver.Main.{System, with_gohfc}
use test_fabric.Apiserver.Sdk.Peers.{Sdk, init_sdk}
use test_fabric.Eventserver.Alias.{set_user_alias_with_file}
use test_fabric.Eventserver.Recover.{Chain, get_block_height}
use test_fabric.Eventserver.Filter.{EventJson, filter_event}
use test_fabric.Eventserver.Listen.{EventBlock, listen_event}

-- What viper reads, and the blocks of gohfc.
pub record Settings (World : Type 0) : Type 0 where
  pub channel_id : State World String
  pub mq_addresses : State World (List String)
  pub user_alias : State World String
  pub listen_full_block : String → String → State World (Result (List EventBlock))

module _ (host : Host) (ciphers : Ciphers host.World) (json : EventJson)
    (system : System host.World) (chain : Chain host.World) (settings : Settings host.World) where
  open host use {World}

  abbrev pub ended : Option Error → Go World (Unit {0})
  ended none = pure tt
  ended (some e) = panic e

  abbrev pub listen_from : String → String → Option ℕ → Go World (Unit {0})
  listen_from chain_id alias none = panic "Get block height failed!"
  listen_from chain_id alias (some height) = do
    failed ←
        listen_event settings.listen_full_block chain_id
          (some (filter_event host ciphers json alias))
    ended failed

  -- The addresses of the brokers are only looked at for being there: nothing connects to them.
  abbrev pub with_addresses : String → String → List String → Go World (Unit {0})
  with_addresses chain_id alias [] = panic "The mq_address is empty!"
  with_addresses chain_id alias (addr ∷ addrs) = do
    height ← get_block_height chain chain_id
    listen_from chain_id (set_user_alias_with_file alias "") height

  abbrev pub started : Option Error × Sdk → Go World (Unit {0})
  started (some e, sdk) = pure tt
  started (none, sdk) = do
    chain_id ← call settings.channel_id
    addresses ← call settings.mq_addresses
    alias ← call settings.user_alias
    with_addresses chain_id alias addresses

  unfoldable pub main : Sdk → String → String → Go World (Unit {0})
  unfolding init_sdk
  main sdk config_path config_name = do
    let file = system.join config_path (config_name ++ ".yaml")
    failed ← call (system.init_gohfc file)
    ready ← with_gohfc system sdk file failed
    started ready
