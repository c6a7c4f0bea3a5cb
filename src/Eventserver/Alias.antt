-- ===== src/Eventserver/Alias.antt =====
-- eventserver/handle/filterevent.go: the user's alias, from the configuration and from RabbitMQ.
pub mod Turns
pub mod Last
use Prim.Native.String.{◌++◌, len, slice}
use text.Mathlib.Text.{starts_with}
use test_fabric.Base.{
  ℕ, zero, suc, ◌+◌, ◌-◌, ◌%◌, ◌^◌, String, Bool, true, false, ◌||◌, not, Option, none, some, List,
  [], ◌∷◌, Error, Result, ok, err, State, ◌==◌, if◌then◌else◌, ltb, nat_eq, length, get_elem?,
}
use test_fabric.Base.Go.{Go, ◌>>=◌, ◌>>◌, pure, call, or_panic}

abbrev pub prefix_user_alias : String
prefix_user_alias = "user_alias:"

-- SetUserAliasWithFile on the variable `userAlias`.
abbrev pub set_user_alias_with_file : String → String → String
set_user_alias_with_file alias user_alias = if alias == "" then user_alias else alias

-- The shell, fmt's `%q`, and the client of RabbitMQ (streadway/amqp) that listens. The messages of a
-- consumer are those that come until its channel is closed.
pub record Consumer (World : Type 0) : Type 1 where
  pub quote : String → String
  pub run_bash : String → State World (Option Error)
  pub Connection : Type 0
  pub Channel : Type 0
  pub Queue : Type 0
  pub dial : String → State World (Result Connection)
  pub open_channel : Connection → State World (Result Channel)
  pub qos : Channel → State World (Option Error)
  pub declare : Channel → String → State World (Result Queue)
  pub consume : Channel → Queue → State World (Result (List String))

-- `strings.HasSuffix(path, "/")`
abbrev pub ends_with_slash : String → Bool
ends_with_slash path = slice path (len path - 1) (len path) == "/"

abbrev pub config_file_path : String → String → String
config_file_path path file =
    if ends_with_slash path then path ++ file ++ ".yaml" else path ++ "/" ++ file ++ ".yaml"

abbrev pub sed_command : String → String → String
sed_command alias target = "$(sed 's/^    alias.*/    alias: " ++ alias ++ "/g' " ++ target ++ ")"

-- What is behind the prefix of a message, none if it has another start.
abbrev pub alias_in : String → Option String
alias_in body =
    if starts_with body prefix_user_alias
    then some (slice body (len prefix_user_alias) (len body))
    else none

-- `mqAddrs[(tryNum-1)%addrsNum]` behind the increment of `tryNum`, an int of 64 bits that is kept
-- modulo 2 ^ 64; the remainder of a negative number is 0 or negative.
abbrev pub next_try : ℕ → ℕ
next_try tries = (tries + 1) % 2 ^ 64

abbrev pub addr_index : ℕ → ℕ → Option ℕ
addr_index try_num addrs_num =
    let before = (try_num + (2 ^ 64 - 1)) % 2 ^ 64 in
    if ltb before (2 ^ 63)
    then some (before % addrs_num)
    else if nat_eq ((2 ^ 64 - before) % addrs_num) 0
    then some 0
    else none

abbrev pub elem_at : List String → Option ℕ → Option String
elem_at addrs none = none
elem_at addrs (some i) = get_elem? addrs i

module _ {World : Type 0} (consumer : Consumer World) where
  open consumer use {
    quote, run_bash, Connection, Channel, Queue, dial, open_channel, qos, declare, consume,
  }

  abbrev pub ran : Option Error → Bool
  ran none = true
  ran (some e) = false

  -- The shell is to evaluate the command in the text that echo prints.
  abbrev pub echo_command : String → String → String
  echo_command alias target = "echo " ++ quote (sed_command alias target) ++ " > " ++ target

  unfoldable pub set_user_alias : String → String → String → Go World Bool
  set_user_alias config_path config_file alias = if alias == "" then pure false else (do
    failed ← call (run_bash (echo_command alias (config_file_path config_path config_file)))
    pure (ran failed))

  module _ (mq_queue config_path config_file : String) where
    -- The loop's body on a message. Whether the file was written makes no difference.
    abbrev pub take_alias : Option String → String → Go World String
    take_alias none user_alias = pure user_alias
    take_alias (some alias) user_alias = do
      set_ok ← set_user_alias config_path config_file alias
      pure alias

    unfoldable pub take_messages : List String → String → Go World String
    take_messages [] user_alias = pure user_alias
    take_messages (body ∷ msgs) user_alias = do
      user_alias ← take_alias (alias_in body) user_alias
      take_messages msgs user_alias

    abbrev pub with_messages : String → Result (List String) → Go World String
    with_messages user_alias (err e) = pure user_alias
    with_messages user_alias (ok msgs) = take_messages msgs user_alias

    abbrev pub with_queue : String → Channel → Result Queue → Go World String
    with_queue user_alias channel (err e) = pure user_alias
    with_queue user_alias channel (ok queue) = do
      msgs ← call (consume channel queue)
      with_messages user_alias msgs

    abbrev pub with_qos : String → Channel → Option Error → Go World String
    with_qos user_alias channel (some e) = pure user_alias
    with_qos user_alias channel none = do
      queue ← call (declare channel mq_queue)
      with_queue user_alias channel queue

    abbrev pub with_channel : String → Result Channel → Go World String
    with_channel user_alias (err e) = pure user_alias
    with_channel user_alias (ok channel) = do
      failed ← call (qos channel)
      with_qos user_alias channel failed

    -- The deferred Close of the connection waits for the end of the endless loop.
    abbrev pub with_connection : String → Result Connection → Go World String
    with_connection user_alias (err e) = pure user_alias
    with_connection user_alias (ok conn) = do
      channel ← call (open_channel conn)
      with_channel user_alias channel

    -- One round of the endless loop, and as many rounds as there are so far: the user's alias.
    unfoldable pub try_address : List String → ℕ → String → Go World String
    try_address mq_addrs try_num user_alias = do
      mq_addr ←
          or_panic (elem_at mq_addrs (addr_index try_num (length mq_addrs))) "index out of range"
      conn ← call (dial mq_addr)
      with_connection user_alias conn

    unfoldable pub try_addresses : ℕ → List String → ℕ → String → Go World String
    try_addresses zero mq_addrs try_num user_alias = pure user_alias
    try_addresses (suc rounds) mq_addrs try_num user_alias = do
      user_alias ← try_address mq_addrs (next_try try_num) user_alias
      try_addresses rounds mq_addrs (next_try try_num) user_alias

    -- GetUserAlias, for as many rounds as its endless loop had so far.
    unfoldable pub get_user_alias : ℕ → List String → String → Go World String
    unfolding try_addresses
    get_user_alias rounds mq_addrs user_alias =
        if nat_eq (length mq_addrs) 0 || mq_queue == "" || config_path == "" || config_file == ""
        then pure user_alias
        else try_addresses rounds mq_addrs 0 user_alias
