-- ===== src/Eventserver/Listen/First.antt =====
-- Which events ListenEvent gives to the filter.
use test_fabric.Base.{String, ◌≡◌, refl, ◌∙◌, sym, ap, Option, List, [], ◌∷◌, ◌++◌}
use test_fabric.Base.Go.{Go, then_run, bind-cong, bind_assoc, ◌>>◌, pure}
use test_fabric.Eventserver.Filter.{ChainEvent}
use test_fabric.Eventserver.Listen.{EventBlock, listen_block, listen_blocks}

-- The first event of each transaction that has one.
abbrev pub first_events : EventBlock → List ChainEvent
first_events [] = []
first_events ([] ∷ transactions) = first_events transactions
first_events ((event ∷ events) ∷ transactions) = event ∷ first_events transactions

abbrev pub all_first_events : List EventBlock → List ChainEvent
all_first_events [] = []
all_first_events (b ∷ notify) = first_events b ++ all_first_events notify

module _ {World : Type 0} (filter_handler : ChainEvent → Go World (Option String)) where
  -- The filter on one event after the other.
  unfoldable pub filter_all : List ChainEvent → Go World (Unit {0})
  filter_all [] = pure tt
  filter_all (event ∷ events) = do filter_handler event; filter_all events

  filter_all-append :
      (xs ys : List ChainEvent) (w : World)
      → filter_all (xs ++ ys) w ≡ (filter_all xs >> filter_all ys) w
  unfolding filter_all
  filter_all-append [] ys w = refl
  filter_all-append (x ∷ xs) ys w =
      bind-cong (filter_handler x) _ _ w (λ answer v. filter_all-append xs ys v)
      ∙ sym (bind_assoc (filter_handler x) _ _ w)

  listen_block-first_events :
      (b : EventBlock) (w : World) → listen_block filter_handler b w ≡ filter_all (first_events b) w
  unfolding filter_all listen_block
  listen_block-first_events [] w = refl
  listen_block-first_events ([] ∷ transactions) w = listen_block-first_events transactions w
  listen_block-first_events ((event ∷ events) ∷ transactions) w =
      bind_assoc (filter_handler event) _ _ w
      ∙ bind-cong (filter_handler event) _ _ w λ answer v. listen_block-first_events transactions v

  -- Listening to blocks is giving the filter the first event of every transaction that has one, in
  -- the order of the blocks and of the transactions in them, until the filter panics: the other
  -- events of a transaction never come to the filter.
  pub listen_blocks-all_first_events :
      (notify : List EventBlock) (w : World)
      → listen_blocks filter_handler notify w ≡ filter_all (all_first_events notify) w
  unfolding filter_all listen_blocks
  listen_blocks-all_first_events [] w = refl
  listen_blocks-all_first_events (b ∷ notify) w =
      ap (λ r. then_run (λ _. listen_blocks filter_handler notify) r.0 r.1)
        (listen_block-first_events b w)
      ∙ bind-cong (filter_all (first_events b)) _ _ w
          (λ u v. listen_blocks-all_first_events notify v)
      ∙ sym (filter_all-append (first_events b) (all_first_events notify) w)
