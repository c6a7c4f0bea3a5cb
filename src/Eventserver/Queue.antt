-- ===== src/Eventserver/Queue.antt =====
-- eventserver/messagequeue/messagequeue.go: messages go to the first of several brokers that takes
-- them.
pub mod Delivery
pub mod Start
mod Tests
use test_fabric.Base.{
  String, Option, none, some, List, [], ◌∷◌, ◌++◌, Error, Result, ok, err, State, ◌>>=◌, ◌>>◌, pure,
  ◌==◌, if◌then◌else◌,
}

-- The client of RabbitMQ (streadway/amqp).
pub record Amqp (World : Type 0) : Type 1 where
  pub Connection : Type 0
  pub Channel : Type 0
  pub Queue : Type 0
  pub dial : String → State World (Result Connection)
  pub open_channel : Connection → State World (Result Channel)
  pub declare : Channel → String → State World (Result Queue)
  pub queue_name : Queue → String
  -- A channel, a queue's name and a body.
  pub publish : Channel → String → String → State World (Option Error)
  pub close_connection : Connection → State World (Unit {0})
  pub close_channel : Channel → State World (Unit {0})

-- The `interface{}` that is sent.
pub data Msg : Type 0 where
  bytes : String → Msg
  text : String → Msg
  other : Msg

-- The two type assertions of SendMessage.
abbrev pub data_of : Msg → Result String
data_of (bytes s) = ok s
data_of (text s) = ok s
data_of other = err "Unexpect msg type !"

module _ {World : Type 0} (amqp : Amqp World) where
  open amqp use {
    Connection, Channel, Queue, dial, open_channel, declare, queue_name, publish, close_connection,
    close_channel,
  }

  pub record MqInfo : Type 0 where
    pub conn : Connection
    pub channel : Channel
    pub queue : Queue

  abbrev pub declared : Connection → Channel → Result Queue → Option MqInfo
  declared conn channel (err e) = none
  declared conn channel (ok queue) = some (record { conn = conn; channel = channel; queue = queue })

  abbrev pub with_channel : String → Connection → Result Channel → State World (Option MqInfo)
  with_channel name conn (err e) = pure none
  with_channel name conn (ok channel) = do
    queue ← declare channel name
    pure (declared conn channel queue)

  abbrev pub with_connection : String → Result Connection → State World (Option MqInfo)
  with_connection name (err e) = pure none
  with_connection name (ok conn) = do channel ← open_channel conn; with_channel name conn channel

  -- The body of InitMQ's loop: the broker at an address, none if a step fails.
  unfoldable pub connect : String → String → State World (Option MqInfo)
  connect name addr = do conn ← dial addr; with_connection name conn

  abbrev pub add_mq : List MqInfo → Option MqInfo → List MqInfo
  add_mq mqs none = mqs
  add_mq mqs (some mq) = mqs ++ mq ∷ []

  unfoldable pub connect_all : String → List MqInfo → List String → State World (List MqInfo)
  connect_all name mqs [] = pure mqs
  connect_all name mqs (addr ∷ addresses) = do
    mq ← connect name addr
    connect_all name (add_mq mqs mq) addresses

  abbrev pub suitable : List MqInfo → Option Error
  suitable [] = some "There's no suitable mq!"
  suitable (mq ∷ mqs) = none

  -- InitMQ on the variable `mqs`: its error, and the variable afterwards.
  unfoldable pub init_mq :
      String → List String → List MqInfo → State World (Option Error × List MqInfo)
  unfolding connect_all
  init_mq queue_name addresses mqs = do
    mqs ← connect_all queue_name mqs addresses
    pure (suitable mqs, mqs)

  unfoldable pub close : List MqInfo → State World (Unit {0})
  close [] = pure tt
  close (mq ∷ mqs) = do close_connection mq.conn; close_channel mq.channel; close mqs

  abbrev pub or_next : Option Error → State World (Option Error) → State World (Option Error)
  or_next none next = pure none
  or_next (some e) next = next

  -- The loop of SendMessage: it ends with the first broker that takes the data.
  unfoldable pub publish_first : String → List MqInfo → State World (Option Error)
  publish_first body [] = pure (some "Send message to mq failed: the mq send error!")
  publish_first body (mq ∷ mqs) = do
    failed ← publish mq.channel (queue_name mq.queue) body
    or_next failed (publish_first body mqs)

  abbrev pub send_data : List MqInfo → Result String → State World (Option Error)
  send_data mqs (err e) = pure (some e)
  send_data mqs (ok body) =
      if body == "" then pure (some "The message is empty!") else publish_first body mqs

  unfoldable pub send_message : List MqInfo → Msg → State World (Option Error)
  unfolding publish_first
  send_message mqs msg = send_data mqs (data_of msg)
