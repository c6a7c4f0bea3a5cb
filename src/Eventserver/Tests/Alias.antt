-- ===== src/Eventserver/Tests/Alias.antt =====
-- A broker with two addresses in memory, of which the first is down, and the theorems on the alias.
use test_fabric.Base.{
  String, ◌≡◌, refl, none, List, [], ◌∷◌, ◌++◌, ok, err, ◌==◌, if◌then◌else◌, arith,
}
use test_fabric.Base.Go.{done}
use test_fabric.Eventserver.Alias.{
  Consumer, take_messages, try_addresses, try_address, get_user_alias, set_user_alias,
}
use test_fabric.Eventserver.Alias.Turns.{LogsDials, turns, is_refused, get_user_alias-turns}

-- The world is the list of the addresses that were dialled.
abbrev consumer : Consumer (List String)
consumer = record {
  quote = λ s. s;
  run_bash = λ command w. (none, w);
  Connection = String;
  Channel = String;
  Queue = String;
  dial = λ addr w. (if addr == "down" then err "refused" else ok addr, w ++ addr ∷ []);
  open_channel = λ c w. (ok c, w);
  qos = λ c w. (none, w);
  declare = λ c name w. (ok name, w);
  consume = λ c q w. (ok ("user_alias:ann" ∷ "hello" ∷ "user_alias:bob" ∷ []), w);
}

abbrev logs : LogsDials consumer
logs = record {
  log = λ w. w;
  dialled = λ addr w. refl;
  opens = λ c w. refl;
  limits = λ c w. refl;
  declares = λ c name w. refl;
  consumes = λ c q w. refl;
  runs = λ command w. refl;
}

abbrev addrs : List String
addrs = "down" ∷ "up" ∷ []

get_user_alias_run :
    get_user_alias consumer "alias" "/etc" "client" 3 addrs "old" []
    ≡ (done "bob", "down" ∷ "up" ∷ "down" ∷ [])
unfolding get_user_alias try_addresses try_address take_messages set_user_alias
get_user_alias_run = refl

get_user_alias-turns_example :
    ((alias : String) × ((get_user_alias consumer "alias" "/etc" "client" 3 addrs "old" []).0
        ≡ done alias))
    × ((get_user_alias consumer "alias" "/etc" "client" 3 addrs "old" []).1
        ≡ []
          ++ (if is_refused consumer logs "alias" "/etc" "client" addrs
              then []
              else turns addrs 3 0))
get_user_alias-turns_example =
    get_user_alias-turns consumer logs "alias" "/etc" "client" 3 addrs "old" [] (omega arith)
