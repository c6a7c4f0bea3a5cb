-- ===== src/Eventserver/Main/Readable.antt =====
-- How the event server ends: whether an event stops it.
use test_fabric.Base.{
  ℕ, String, ◌≡◌, refl, inl, inr, Bool, true, false, Bool-cases, Option, none, some, List, [], ◌∷◌,
  Error, ok, if◌then◌else◌,
}
use test_fabric.Base.Go.{Run, done, panicked}
use test_fabric.Base.Total.{IsTotal}
use test_fabric.Apiserver.Define.{InvokeResponse, Message}
use test_fabric.Apiserver.Host.{Host, Ciphers}
use test_fabric.Apiserver.Message.Total.{HasSizes, format_response_message-done}
use test_fabric.Apiserver.Main.{System}
use test_fabric.Apiserver.Sdk.Peers.{ClientConfig, Policy, Sdk, init_sdk}
use test_fabric.Eventserver.Recover.{Chain, get_block_height}
use test_fabric.Eventserver.Filter.{
  ChainEvent, EventJson, empty_response, filter_message, filter_decoded, filter_event,
}
use test_fabric.Eventserver.Listen.{EventBlock, listen_event}
use test_fabric.Eventserver.Listen.First.{
  all_first_events, filter_all, listen_blocks-all_first_events,
}
use test_fabric.Eventserver.Main.{Settings, listen_from, started, main}

abbrev pub is_filled : List String → Bool
is_filled [] = false
is_filled (text ∷ texts) = true

-- A value that does not decode, or one with a text in its payload.
abbrev pub has_text : InvokeResponse × Option Error → Bool
has_text (response_data, some e) = true
has_text (response_data, none) = is_filled response_data.payload

abbrev pub is_readable : EventJson → ChainEvent → Bool
is_readable json event = has_text (json.decode_event event.value empty_response)

abbrev pub are_readable : EventJson → List ChainEvent → Bool
are_readable json [] = true
are_readable json (event ∷ events) =
    if is_readable json event then are_readable json events else false

-- The end of the server's listening to some blocks.
abbrev pub ending : Bool → Run (Unit {0})
ending true = done tt
ending false = panicked "index out of range"

module _ (host : Host) (ciphers : Ciphers host.World) (sizes : HasSizes host) (json : EventJson)
    (user_alias : String) where
  filter_message-IsTotal :
      (response_data : InvokeResponse) (decoded : Message × Option Error)
      → IsTotal (filter_message host ciphers json user_alias response_data decoded)
  filter_message-IsTotal response_data (m, some e) w = (none, refl)
  filter_message-IsTotal response_data (m, none) w =
      let (fs, e, same) =
        format_response_message-done host ciphers sizes user_alias [] (m ∷ []) w in
      rw e (_, refl)

  first_text-IsTotal :
      (response_data : InvokeResponse) (texts : List String)
      → is_filled texts ≡ true
      → IsTotal (
          filter_decoded host ciphers json user_alias
            (record response_data { payload = texts }, none))
  first_text-IsTotal response_data [] filled = cc
  first_text-IsTotal response_data (text ∷ texts) filled =
      filter_message-IsTotal (record response_data { payload = text ∷ texts })
        (json.decode_message text)

  first_text-panicked :
      (response_data : InvokeResponse) (texts : List String) (w : host.World)
      → is_filled texts ≡ false
      → (filter_decoded host ciphers json user_alias
          (record response_data { payload = texts }, none)
          w).0
        ≡ panicked "index out of range"
  first_text-panicked response_data [] w empty = refl
  first_text-panicked response_data (text ∷ texts) w empty = cc

  filter_decoded-IsTotal :
      (decoded : InvokeResponse × Option Error)
      → has_text decoded ≡ true
      → IsTotal (filter_decoded host ciphers json user_alias decoded)
  filter_decoded-IsTotal (response_data, some e) readable = λ w. (none, refl)
  filter_decoded-IsTotal (response_data, none) readable =
      first_text-IsTotal response_data response_data.payload readable

  filter_decoded-panicked :
      (decoded : InvokeResponse × Option Error) (w : host.World)
      → has_text decoded ≡ false
      → (filter_decoded host ciphers json user_alias decoded w).0 ≡ panicked "index out of range"
  filter_decoded-panicked (response_data, some e) w unreadable = cc
  filter_decoded-panicked (response_data, none) w unreadable =
      first_text-panicked response_data response_data.payload w unreadable

  -- The filter goes through all the events, or up to the first one without a text, which stops it.
  filter_all-ending :
      (events : List ChainEvent) (w : host.World)
      → (filter_all (filter_event host ciphers json user_alias) events w).0
        ≡ ending (are_readable json events)
  unfolding filter_all filter_event
  filter_all-ending [] w = refl
  filter_all-ending (event ∷ events) w = elim (Bool-cases (is_readable json event)) [
    | inl readable ↦
        let decoded = json.decode_event event.value empty_response in
        let (answer, e) = filter_decoded-IsTotal decoded readable w in
        rw (e, readable)
          (filter_all-ending events (filter_decoded host ciphers json user_alias decoded w).1)
    | inr unreadable ↦
        let stopped =
          filter_decoded-panicked (json.decode_event event.value empty_response) w unreadable in
        rw (stopped, unreadable) refl
  ]

-- What the event server finds as it starts: gohfc is set up and gives a configuration that InitSDK
-- accepts, there is an address of a broker, and the peer tells the height of the chain; then these
-- blocks come.
pub record Starts {World : Type 0} (system : System World) (chain : Chain World)
    (settings : Settings World) (sdk : Sdk) (notify : List EventBlock) : Type 0 where
  pub policy : Policy
  pub config : ClientConfig
  pub inits : (file : String) (w : World) → (system.init_gohfc file w).0 ≡ none
  pub configured : (file : String) (w : World) → (system.new_client_config file w).0 ≡ ok config
  pub ruled : (w : World) → (system.policy w).0 ≡ policy
  pub accepted : (init_sdk none policy (ok config) sdk).0 ≡ none
  pub address : String
  pub addresses : List String
  pub addressed : (w : World) → (settings.mq_addresses w).0 ≡ address ∷ addresses
  pub height : (chain_id : String) (w : World) → ℕ
  pub told :
      (chain_id : String) (w : World)
      → (get_block_height chain chain_id w).0 ≡ done (some (height chain_id w))
  pub listens :
      (chain_id : String) (w : World) → (settings.listen_full_block "peer" chain_id w).0 ≡ ok notify

module _ (host : Host) (ciphers : Ciphers host.World) (sizes : HasSizes host) (json : EventJson)
    (system : System host.World) (chain : Chain host.World) (settings : Settings host.World) where
  listen_from-ending :
      (sdk : Sdk) (chain_id alias : String) (height : ℕ) (notify : List EventBlock) (w : host.World)
      → Starts system chain settings sdk notify
      → (listen_from host ciphers json system chain settings chain_id alias (some height) w).0
        ≡ ending (are_readable json (all_first_events notify))
  unfolding listen_event
  listen_from-ending sdk chain_id alias height notify w starts =
      let events = all_first_events notify in
      let filter = filter_event host ciphers json alias in
      let v = (settings.listen_full_block "peer" chain_id w).1 in
      let same = listen_blocks-all_first_events filter notify v in
      let ends = filter_all-ending host ciphers sizes json alias events v in
      elim (Bool-cases (are_readable json events)) [
        | inl readable ↦ rw (starts.listens chain_id w, same, rw readable at ends, readable) refl
        | inr unreadable ↦
            rw (starts.listens chain_id w, same, rw unreadable at ends, unreadable) refl
      ]

  started-ending :
      (sdk : Sdk) (initialised : Option Error × Sdk) (notify : List EventBlock) (w : host.World)
      → Starts system chain settings sdk notify
      → initialised.0 ≡ none
      → (started host ciphers json system chain settings initialised w).0
        ≡ ending (are_readable json (all_first_events notify))
  started-ending sdk (some e, ready) notify w starts accepted = cc
  started-ending sdk (none, ready) notify w starts accepted =
      let chain_id = (settings.channel_id w).0 in
      rw (starts.addressed, starts.told)
        (listen_from-ending sdk chain_id _ (starts.height chain_id w) notify _ starts)

  -- On a host whose opened files have sizes, if gohfc starts and InitSDK accepts its configuration,
  -- an address of a broker is configured, the peer tells the height of the chain, and blocks come:
  -- if the first event of each of their transactions does not decode, or decodes with at least one
  -- text in its payload, then the event server goes through all the blocks without a panic, whatever
  -- the texts and the messages in them are; else it panics, as it indexes an empty payload.
  pub main-ending :
      (sdk : Sdk) (path name : String) (notify : List EventBlock) (w : host.World)
      → Starts system chain settings sdk notify
      → (main host ciphers json system chain settings sdk path name w).0
        ≡ ending (are_readable json (all_first_events notify))
  unfolding main
  main-ending sdk path name notify w starts =
      rw (starts.inits, starts.configured, starts.ruled)
        (started-ending sdk (init_sdk none starts.policy (ok starts.config) sdk) notify _ starts
          starts.accepted)
