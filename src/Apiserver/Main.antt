-- ===== src/Apiserver/Main.antt =====
-- apiserver/main.go: how the server starts, and its file with the process id.
pub mod PidFile
use Prim.Native.String.{◌++◌}
use test_fabric.Base.{
  ℕ, String, Bool, true, false, ◌||◌, Option, none, some, List, [], ◌∷◌, Error, Result, ok, err,
  State, ◌==◌, if◌then◌else◌,
}
use test_fabric.Base.Go.{Go, ◌>>=◌, ◌>>◌, pure, panic, call}
use test_fabric.Apiserver.Sdk.Peers.{ClientConfig, Policy, Sdk, init_sdk}
use test_fabric.Apiserver.Handler.Keepalive.{set_order_addr_to_probe}

-- What the server's start takes from the system, from viper, gohfc and endless.
pub record System (World : Type 0) : Type 0 where
  pub join : String → String → String
  pub init_gohfc : String → State World (Option Error)
  pub new_client_config : String → State World (Result ClientConfig)
  pub policy : State World Policy
  pub probe_order : State World String
  -- `!os.IsNotExist` of the error of `os.Stat`, `os.Remove` and `ioutil.WriteFile`.
  pub exists : String → State World Bool
  pub remove : String → State World (Unit {0})
  pub write_file : String → String → State World (Option Error)
  pub getpid : State World ℕ
  pub decimal : ℕ → String
  -- The rest of ListenAndServe, behind its call of BeforeBegin; and whether an error's text has
  -- "use of closed network connection".
  pub serve : State World (Option Error)
  pub is_closed : Error → Bool

abbrev pub pid_file : String
pid_file = "apiserver.pid"

-- The flags `configPath` and `configName`, or the defaults for both if one is empty.
abbrev pub config_flags : String → String → String × String
config_flags path name = if path == "" || name == "" then ("./", "client_sdk") else (path, name)

module _ {World : Type 0} (system : System World) where
  open system use {
    join, init_gohfc, new_client_config, policy, probe_order, exists, remove, write_file, getpid,
    decimal, serve, is_closed,
  }

  abbrev pub check_file_is_exist : String → State World Bool
  check_file_is_exist = exists

  abbrev pub written : Option Error → Go World (Unit {0})
  written none = pure tt
  written (some e) = panic ("Api server write pid file failed! err:" ++ e)

  -- An old file is removed, and no new one is written in its place.
  abbrev pub save_pid : ℕ → Bool → Go World (Unit {0})
  save_pid pid true = call (remove pid_file)
  save_pid pid false = do failed ← call (write_file pid_file (decimal pid)); written failed

  unfoldable pub before_begin : Go World (Unit {0})
  before_begin = do
    pid ← call getpid
    found ← call (check_file_is_exist pid_file)
    save_pid pid found

  abbrev pub stopped : Option Error → Go World (Unit {0})
  stopped none = pure tt
  stopped (some e) = if is_closed e then pure tt else panic e

  abbrev pub run_server : Bool × String → Go World (Unit {0})
  run_server (false, addr) = panic "can not get the order address to be probed."
  run_server (true, addr) = do before_begin; failed ← call serve; stopped failed

  abbrev pub initialised : Option Error × Sdk → Go World (Unit {0})
  initialised (some e, sdk) = panic e
  initialised (none, sdk) = do addr ← call probe_order; run_server (set_order_addr_to_probe addr "")

  -- InitSDK returns at the first error, of gohfc or of reading the configuration, and leaves the
  -- variables as they are; after that SetSendPeerOrder reads the policy.
  abbrev pub with_config : Sdk → Result ClientConfig → Go World (Option Error × Sdk)
  with_config sdk (err e) = pure (some e, sdk)
  with_config sdk (ok config) = do rules ← call policy; pure (init_sdk none rules (ok config) sdk)

  abbrev pub with_gohfc : Sdk → String → Option Error → Go World (Option Error × Sdk)
  with_gohfc sdk file (some e) = pure (some e, sdk)
  with_gohfc sdk file none = do config ← call (new_client_config file); with_config sdk config

  -- The configuration is read once by gohfc and once by SetSendPeerOrder.
  unfoldable pub main : Sdk → String → String → Go World (Unit {0})
  unfolding before_begin init_sdk set_order_addr_to_probe
  main sdk config_path config_name = do
    let flags = config_flags config_path config_name
    let file = join flags.0 (flags.1 ++ ".yaml")
    failed ← call (init_gohfc file)
    ready ← with_gohfc sdk file failed
    initialised ready
