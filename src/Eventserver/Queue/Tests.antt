-- ===== src/Eventserver/Queue/Tests.antt =====
-- Brokers in memory, of which those whose address starts the list are down.
use test_fabric.Base.{
  String, ◌≡◌, refl, inl, inr, true, none, some, List, [], ◌∷◌, ◌++◌, ok, err, In, ◌==◌,
  if◌then◌else◌, eq_iff, arith,
}
use test_fabric.Eventserver.Queue.{
  Amqp, MqInfo, text, connect, connect_all, init_mq, publish_first, send_message,
}
use test_fabric.Eventserver.Queue.Delivery.{
  Delivers, route, post, send_message-refines, send_message-delivers,
}

-- The world is what was taken. A channel is the address of its broker.
abbrev World : Type 0
World = List (String × String × String)

abbrev amqp : Amqp World
amqp = record {
  Connection = String;
  Channel = String;
  Queue = String;
  dial = λ addr w. (if addr == "gone" then err "refused" else ok addr, w);
  open_channel = λ c w. (ok c, w);
  declare = λ c name w. (ok name, w);
  queue_name = λ q. q;
  publish =
      λ c queue body w. if c == "up" then (none, w ++ (c, queue, body) ∷ []) else (some "down", w);
  close_connection = λ c w. (tt, w);
  close_channel = λ c w. (tt, w);
}

abbrev delivers : Delivers amqp
delivers = record {
  is_up = λ c. c == "up";
  log = λ w. w;
  taken = λ c queue body w up. rw up (refl, refl);
  refused = λ c queue body w down. rw down (("down", refl), refl);
}

abbrev mq : String → MqInfo amqp
mq addr = record { conn = addr; channel = addr; queue = "events" }

abbrev mqs : List (MqInfo amqp)
mqs = mq "old" ∷ mq "up" ∷ []

init_run : (init_mq amqp "events" ("gone" ∷ "old" ∷ "up" ∷ []) [] []).0 ≡ (none, mqs)
unfolding init_mq connect_all connect
init_run = refl

send_run : send_message amqp mqs (text "hello") [] ≡ (none, ("up", "events", "hello") ∷ [])
unfolding send_message publish_first
send_run = refl

send_message-refines_example :
    ((send_message amqp mqs (text "hello") []).0, (send_message amqp mqs (text "hello") []).1)
    ≡ post amqp delivers (route amqp delivers mqs (ok "hello")) []
send_message-refines_example = send_message-refines amqp delivers mqs (text "hello") []

send_message-delivers_example :
    (m : MqInfo amqp) × In m mqs
    × ((m.channel == "up") ≡ true)
    × ((send_message amqp mqs (text "hello") []).0 ≡ none)
    × ((send_message amqp mqs (text "hello") []).1 ≡ (m.channel, m.queue, "hello") ∷ [])
send_message-delivers_example =
    send_message-delivers amqp delivers mqs (mq "up") (text "hello") "hello" [] (inr (inl refl))
      refl refl (ground (arith, eq_iff "hello" ""))
