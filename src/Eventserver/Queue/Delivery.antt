-- ===== src/Eventserver/Queue/Delivery.antt =====
-- SendMessage as a mailbox: what it promises, whichever brokers are up.
use test_fabric.Base.{
  String, ◌≡◌, refl, ◌≢◌, ◌∙◌, ap, inl, inr, Bool, true, false, Option, none, some, List, [], ◌∷◌,
  ◌++◌, Error, Result, ok, err, In, Bool-cases, ◌==◌, eq-false_of_ne, if◌then◌else◌,
}
use test_fabric.Eventserver.Queue.{
  Amqp, MqInfo, Msg, data_of, publish_first, send_data, send_message,
}

-- Which channels take messages, and what was taken: a channel, a queue's name and a body each. A
-- channel that is up takes what is published, and one that is down refuses it and takes nothing.
pub record Delivers {World : Type 0} (amqp : Amqp World) : Type 0 where
  pub is_up : amqp.Channel → Bool
  pub log : World → List (amqp.Channel × String × String)
  pub taken :
      (c : amqp.Channel) (queue body : String) (w : World)
      → is_up c ≡ true
      → ((amqp.publish c queue body w).0 ≡ none)
        × (log (amqp.publish c queue body w).1 ≡ log w ++ (c, queue, body) ∷ [])
  pub refused :
      (c : amqp.Channel) (queue body : String) (w : World)
      → is_up c ≡ false
      → ((e : Error) × ((amqp.publish c queue body w).0 ≡ some e))
        × (log (amqp.publish c queue body w).1 ≡ log w)

module _ {World : Type 0} (amqp : Amqp World) (delivers : Delivers amqp) where
  open delivers use {is_up, log, taken, refused}

  abbrev pub Entry : Type 0
  Entry = amqp.Channel × String × String

  -- The specification: the first broker that is up gets the message, if it is not empty.
  abbrev pub first_up : String → List (MqInfo amqp) → Result Entry
  first_up body [] = err "Send message to mq failed: the mq send error!"
  first_up body (mq ∷ mqs) =
      if is_up mq.channel
      then ok (mq.channel, amqp.queue_name mq.queue, body)
      else first_up body mqs

  abbrev pub route : List (MqInfo amqp) → Result String → Result Entry
  route mqs (err e) = err e
  route mqs (ok body) = if body == "" then err "The message is empty!" else first_up body mqs

  -- An error and nothing taken, or no error and one entry more.
  abbrev pub post : Result Entry → List Entry → Option Error × List Entry
  post (err e) entries = (some e, entries)
  post (ok entry) entries = (none, entries ++ entry ∷ [])

  publish_first-refines :
      (body : String) (mqs : List (MqInfo amqp)) (w : World)
      → ((publish_first amqp body mqs w).0, log (publish_first amqp body mqs w).1)
        ≡ post (first_up body mqs) (log w)
  unfolding publish_first
  publish_first-refines body [] w = refl
  publish_first-refines body (mq ∷ mqs) w =
      let queue = amqp.queue_name mq.queue in
      elim (Bool-cases (is_up mq.channel)) [
        | inl up ↦
            let (sent, logged) = taken mq.channel queue body w up in rw (up, sent, logged) refl
        | inr down ↦
            let ((e, failed), kept) = refused mq.channel queue body w down in
            rw (down, failed, ← kept) (publish_first-refines body mqs _)
      ]

  send_data-refines :
      (mqs : List (MqInfo amqp)) (message : Result String) (w : World)
      → ((send_data amqp mqs message w).0, log (send_data amqp mqs message w).1)
        ≡ post (route mqs message) (log w)
  send_data-refines mqs (err e) w = refl
  send_data-refines mqs (ok body) w = elim (Bool-cases (body == "")) [
    | inl empty ↦ rw empty refl
    | inr full ↦ rw full (publish_first-refines body mqs w)
  ]

  -- If a broker that is up takes what is published to it, and one that is down refuses it, then
  -- SendMessage refines the mailbox: its error and what the brokers have taken afterwards are those
  -- of posting the message to the first broker that is up.
  pub send_message-refines :
      (mqs : List (MqInfo amqp)) (msg : Msg) (w : World)
      → ((send_message amqp mqs msg w).0, log (send_message amqp mqs msg w).1)
        ≡ post (route mqs (data_of msg)) (log w)
  unfolding send_message
  send_message-refines mqs msg w = send_data-refines mqs (data_of msg) w

  first_up-ok :
      (body : String) (mqs : List (MqInfo amqp)) (mq : MqInfo amqp)
      → In mq mqs
      → is_up mq.channel ≡ true
      → (m : MqInfo amqp) × In m mqs
        × (is_up m.channel ≡ true)
        × (first_up body mqs ≡ ok (m.channel, amqp.queue_name m.queue, body))
  first_up-ok body [] mq member up = absurd member
  first_up-ok body (m ∷ mqs) mq member up = elim (Bool-cases (is_up m.channel)) [
    | inl here ↦ (m, inl refl, here, rw here refl)
    | inr down ↦ elim member [
      | inl same ↦ cc
      | inr later ↦
          let (n, i, on, e) = first_up-ok body mqs mq later up in (n, inr i, on, rw down e)
    ]
  ]

  -- If a broker that is up takes what is published to it, one that is down refuses it, and one of
  -- the brokers is up, then a message that has bytes, and is not empty, is sent: SendMessage
  -- returns no error, and one broker, which is up, has taken the message once.
  pub send_message-delivers :
      (mqs : List (MqInfo amqp)) (mq : MqInfo amqp) (msg : Msg) (body : String) (w : World)
      → In mq mqs
      → is_up mq.channel ≡ true
      → data_of msg ≡ ok body
      → body ≢ ""
      → (m : MqInfo amqp) × In m mqs
        × (is_up m.channel ≡ true)
        × ((send_message amqp mqs msg w).0 ≡ none)
        × (log (send_message amqp mqs msg w).1
            ≡ log w ++ (m.channel, amqp.queue_name m.queue, body) ∷ [])
  send_message-delivers mqs mq msg body w member up given full =
      let (m, i, on, e) = first_up-ok body mqs mq member up in
      let done : ((send_message amqp mqs msg w).0, log (send_message amqp mqs msg w).1)
          ≡ (none, log w ++ (m.channel, amqp.queue_name m.queue, body) ∷ []) =
        send_message-refines mqs msg w ∙ rw (given, eq-false_of_ne body "" full, e) refl in
      (m, i, on, ap (λ p. p.0) done, ap (λ p. p.1) done)
