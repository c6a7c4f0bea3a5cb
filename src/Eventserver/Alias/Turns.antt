-- ===== src/Eventserver/Alias/Turns.antt =====
-- Which addresses are dialled, and in what order.
use test_fabric.Base.{
  ℕ, zero, suc, ◌+◌, ◌-◌, ◌%◌, ◌^◌, ◌<◌, ◌≤◌, String, ◌≡◌, refl, sym, ◌∙◌, ap, Bool, true, false,
  ◌||◌, Option, none, some, List, [], ◌∷◌, ◌++◌, Error, Result, ok, err, State, ◌==◌, length,
  if◌then◌else◌, get_elem?, get_elem?-some, ltb, nat_eq, arith, Bool-cases, inl, inr,
}
use test_fabric.Base.Go.{Go, ◌>>=◌, pure, call, done}
use mathlib.Core.List.{append-nil, append_assoc}
use test_fabric.Eventserver.Alias.{
  Consumer, addr_index, next_try, ran, set_user_alias, alias_in, take_alias, take_messages,
  with_messages, with_queue, with_qos, with_channel, with_connection, try_address, try_addresses,
  get_user_alias,
}

next_try-suc : (tries : ℕ) → tries < 2 ^ 63 → next_try tries ≡ suc tries
next_try-suc tries h = omega (arith, h)

addr_index-mod : (tries n : ℕ) → tries < 2 ^ 63 → addr_index (suc tries) n ≡ some (tries % n)
addr_index-mod tries n h =
    let before : (suc tries + (2 ^ 64 - 1)) % 2 ^ 64 ≡ tries = omega (arith, h) in
    let below : ltb tries (2 ^ 63) ≡ true = ground arith in rw (before, below) refl

abbrev pub with_turn : Option String → List String → List String
with_turn none later = []
with_turn (some addr) later = addr ∷ later

-- The addresses in turn, from a number of tries on.
abbrev pub turns : List String → ℕ → ℕ → List String
turns addrs zero tries = []
turns addrs (suc rounds) tries =
    with_turn (get_elem? addrs (tries % length addrs)) (turns addrs rounds (suc tries))

-- The world keeps a list of the addresses that were dialled; nothing else changes it.
pub record LogsDials {World : Type 0} (consumer : Consumer World) : Type 0 where
  pub log : World → List String
  pub dialled : (addr : String) (w : World) → log (consumer.dial addr w).1 ≡ log w ++ addr ∷ []
  pub opens : (c : consumer.Connection) (w : World) → log (consumer.open_channel c w).1 ≡ log w
  pub limits : (c : consumer.Channel) (w : World) → log (consumer.qos c w).1 ≡ log w
  pub declares :
      (c : consumer.Channel) (name : String) (w : World) → log (consumer.declare c name w).1 ≡ log w
  pub consumes :
      (c : consumer.Channel) (q : consumer.Queue) (w : World)
      → log (consumer.consume c q w).1 ≡ log w
  pub runs : (command : String) (w : World) → log (consumer.run_bash command w).1 ≡ log w

module _ {World : Type 0} (consumer : Consumer World) (logs : LogsDials consumer)
    (mq_queue config_path config_file : String) where
  open logs use {log, dialled, opens, limits, declares, consumes, runs}

  -- A run that ends with a value and dials nothing.
  abbrev IsQuiet : {A : Type 0} → Go World A → Type 0
  IsQuiet {A = A} m = (w : World) → ((a : A) × ((m w).0 ≡ done a)) × (log (m w).1 ≡ log w)

  pure-IsQuiet : {A : Type 0} (a : A) → IsQuiet (pure a)
  pure-IsQuiet a w = ((a, refl), refl)

  bind-IsQuiet :
      {A B : Type 0} (m : Go World A) (f : A → Go World B)
      → IsQuiet m
      → ((a : A) → IsQuiet (f a))
      → IsQuiet (m >>= f)
  bind-IsQuiet m f q h w =
      let ((a, e), l) = q w in let ((b, ended), kept) = h a (m w).1 in rw e ((b, ended), kept ∙ l)

  call-IsQuiet :
      {A B : Type 0} (m : State World A) (f : A → Go World B)
      → ((w : World) → log (m w).1 ≡ log w)
      → ((a : A) → IsQuiet (f a))
      → IsQuiet (call m >>= f)
  call-IsQuiet m f keeps h = bind-IsQuiet (call m) f (λ w. (((m w).0, refl), keeps w)) h

  set_user_alias-IsQuiet :
      (alias : String) → IsQuiet (set_user_alias consumer config_path config_file alias)
  unfolding set_user_alias
  set_user_alias-IsQuiet alias w = elim (Bool-cases (alias == "")) [
    | inl empty ↦ rw empty (pure-IsQuiet false w)
    | inr full ↦ rw full (
        call-IsQuiet (consumer.run_bash _) (λ failed. pure (ran consumer failed)) (runs _)
          (λ failed. pure-IsQuiet _) w)
  ]

  take_alias-IsQuiet :
      (found : Option String) (old : String)
      → IsQuiet (take_alias consumer mq_queue config_path config_file found old)
  take_alias-IsQuiet none old = pure-IsQuiet old
  take_alias-IsQuiet (some alias) old =
      bind-IsQuiet _ (λ set_ok. pure alias) (set_user_alias-IsQuiet alias)
        (λ set_ok. pure-IsQuiet alias)

  take_messages-IsQuiet :
      (msgs : List String) (old : String)
      → IsQuiet (take_messages consumer mq_queue config_path config_file msgs old)
  unfolding take_messages
  take_messages-IsQuiet [] old = pure-IsQuiet old
  take_messages-IsQuiet (body ∷ msgs) old =
      bind-IsQuiet _ (take_messages consumer mq_queue config_path config_file msgs)
        (take_alias-IsQuiet (alias_in body) old) (take_messages-IsQuiet msgs)

  with_messages-IsQuiet :
      (old : String) (msgs : Result (List String))
      → IsQuiet (with_messages consumer mq_queue config_path config_file old msgs)
  with_messages-IsQuiet old (err e) = pure-IsQuiet old
  with_messages-IsQuiet old (ok msgs) = take_messages-IsQuiet msgs old

  with_queue-IsQuiet :
      (old : String) (channel : consumer.Channel) (queue : Result consumer.Queue)
      → IsQuiet (with_queue consumer mq_queue config_path config_file old channel queue)
  with_queue-IsQuiet old channel (err e) = pure-IsQuiet old
  with_queue-IsQuiet old channel (ok queue) =
      call-IsQuiet (consumer.consume channel queue) _ (consumes channel queue)
        (with_messages-IsQuiet old)

  with_qos-IsQuiet :
      (old : String) (channel : consumer.Channel) (failed : Option Error)
      → IsQuiet (with_qos consumer mq_queue config_path config_file old channel failed)
  with_qos-IsQuiet old channel (some e) = pure-IsQuiet old
  with_qos-IsQuiet old channel none =
      call-IsQuiet (consumer.declare channel mq_queue) _ (declares channel mq_queue)
        (with_queue-IsQuiet old channel)

  with_channel-IsQuiet :
      (old : String) (channel : Result consumer.Channel)
      → IsQuiet (with_channel consumer mq_queue config_path config_file old channel)
  with_channel-IsQuiet old (err e) = pure-IsQuiet old
  with_channel-IsQuiet old (ok channel) =
      call-IsQuiet (consumer.qos channel) _ (limits channel) (with_qos-IsQuiet old channel)

  with_connection-IsQuiet :
      (old : String) (conn : Result consumer.Connection)
      → IsQuiet (with_connection consumer mq_queue config_path config_file old conn)
  with_connection-IsQuiet old (err e) = pure-IsQuiet old
  with_connection-IsQuiet old (ok conn) =
      call-IsQuiet (consumer.open_channel conn) _ (opens conn) (with_channel-IsQuiet old)

  try_address-log :
      (addrs : List String) (tries : ℕ) (addr old : String) (w : World)
      → tries < 2 ^ 63
      → get_elem? addrs (tries % length addrs) ≡ some addr
      → ((alias : String) × ((try_address consumer mq_queue config_path config_file addrs
              (suc tries)
              old
              w).0
            ≡ done alias))
        × (log (try_address consumer mq_queue config_path config_file addrs (suc tries) old w).1
            ≡ log w ++ addr ∷ [])
  unfolding try_address
  try_address-log addrs tries addr old w h there =
      let dial = consumer.dial addr w in
      let (ended, kept) = with_connection-IsQuiet old dial.0 dial.1 in
      rw (addr_index-mod tries (length addrs) h, there) (ended, kept ∙ dialled addr w)

  -- As long as the count of the tries is an int (the first 2 ^ 63 rounds), the loop indexes the
  -- addresses within their bounds: it does not panic, and it dials them in turn, the first again
  -- after the last.
  try_addresses-turns :
      (rounds : ℕ) (addrs : List String) (tries : ℕ) (old : String) (w : World)
      → 0 < length addrs
      → tries + rounds ≤ 2 ^ 63
      → ((alias : String) × ((try_addresses consumer mq_queue config_path config_file rounds addrs
              tries old w).0
            ≡ done alias))
        × (log (try_addresses consumer mq_queue config_path config_file rounds addrs tries old w).1
            ≡ log w ++ turns addrs rounds tries)
  unfolding try_addresses
  try_addresses-turns zero addrs tries old w some_addr few = ((old, refl), rw append-nil refl)
  try_addresses-turns (suc rounds) addrs tries old w some_addr few =
      let below : tries < 2 ^ 63 = omega (arith, few) in
      let (addr, there) = get_elem?-some addrs (tries % length addrs) (omega (arith, some_addr)) in
      let ((alias, ended), tried) = try_address-log addrs tries addr old w below there in
      let v = (try_address consumer mq_queue config_path config_file addrs (suc tries) old w).1 in
      let (rest, all) =
        try_addresses-turns rounds addrs (suc tries) alias v some_addr (omega (arith, few)) in
      rw (next_try-suc tries below, there, ended)
        (
          rest,
          all
              ∙ ap (λ l. l ++ turns addrs rounds (suc tries)) tried
              ∙ append_assoc (log w) (addr ∷ []) (turns addrs rounds (suc tries)),
        )

  -- What the first check of GetUserAlias refuses.
  abbrev pub is_refused : List String → Bool
  is_refused addrs =
      nat_eq (length addrs) 0 || mq_queue == "" || config_path == "" || config_file == ""

  -- In the first 2 ^ 63 rounds of its loop GetUserAlias indexes the addresses within their bounds,
  -- whatever its arguments are: it does not panic. It dials nothing if an argument is empty, and
  -- otherwise the addresses in turn, beginning again with the first after the last.
  pub get_user_alias-turns :
      (rounds : ℕ) (addrs : List String) (old : String) (w : World)
      → rounds ≤ 2 ^ 63
      → ((alias : String) × ((get_user_alias consumer mq_queue config_path config_file rounds addrs
              old w).0
            ≡ done alias))
        × (log (get_user_alias consumer mq_queue config_path config_file rounds addrs old w).1
            ≡ log w ++ (if is_refused addrs then [] else turns addrs rounds 0))
  unfolding get_user_alias
  get_user_alias-turns rounds [] old w few = ((old, refl), sym (append-nil (log w)))
  get_user_alias-turns rounds (addr ∷ addrs) old w few =
      elim (Bool-cases (is_refused (addr ∷ addrs))) [
        | inl missing ↦ rw missing ((old, refl), sym (append-nil (log w)))
        | inr given ↦
            rw given
              (try_addresses-turns rounds (addr ∷ addrs) 0 old w (omega arith) (omega (arith, few)))
      ]
