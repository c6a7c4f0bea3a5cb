-- ===== src/Eventserver/Alias/Last.antt =====
-- Which alias stays.
use test_fabric.Base.{
  String, ◌≡◌, refl, ◌∙◌, ap, Bool, false, Option, none, some, List, [], ◌∷◌, Bool-cases, inl, inr,
  ◌==◌,
}
use test_fabric.Base.Go.{done, then_run}
use test_fabric.Eventserver.Alias.{Consumer, alias_in, set_user_alias, take_alias, take_messages}

abbrev pub or_old : Option String → String → String
or_old none old = old
or_old (some alias) old = alias

-- The alias of the last message that has one, or the old one.
abbrev pub last_alias : List String → String → String
last_alias [] old = old
last_alias (body ∷ msgs) old = last_alias msgs (or_old (alias_in body) old)

module _ {World : Type 0} (consumer : Consumer World)
    (mq_queue config_path config_file : String) where
  set_user_alias-done :
      (alias : String) (w : World)
      → (b : Bool) × ((set_user_alias consumer config_path config_file alias w).0 ≡ done b)
  unfolding set_user_alias
  set_user_alias-done alias w = elim (Bool-cases (alias == "")) [
    | inl empty ↦ (false, rw empty refl)
    | inr full ↦ rw full (_, refl)
  ]

  take_alias-done :
      (found : Option String) (old : String) (w : World)
      → (take_alias consumer mq_queue config_path config_file found old w).0
        ≡ done (or_old found old)
  take_alias-done none old w = refl
  take_alias-done (some alias) old w = let (b, ended) = set_user_alias-done alias w in rw ended refl

  -- Taking the messages of a queue ends with the alias of the last message that has the prefix,
  -- whether or not an alias could be written to the configuration; if no message has it, the old
  -- alias stays. It does not panic.
  pub take_messages-last_alias :
      (msgs : List String) (old : String) (w : World)
      → (take_messages consumer mq_queue config_path config_file msgs old w).0
        ≡ done (last_alias msgs old)
  unfolding take_messages
  take_messages-last_alias [] old w = refl
  take_messages-last_alias (body ∷ msgs) old w =
      let taken = take_alias consumer mq_queue config_path config_file (alias_in body) old w in
      ap
        (λ r. (then_run (take_messages consumer mq_queue config_path config_file msgs) r taken.1).0)
        (take_alias-done (alias_in body) old w)
      ∙ take_messages-last_alias msgs (or_old (alias_in body) old) taken.1
