-- ===== src/Eventserver/Listen.antt =====
-- eventserver/listenevent/listenevent.go: each transaction's first event goes to the filter.
pub mod First
use test_fabric.Base.{
  String, Bool, true, false, Option, none, some, List, [], ◌∷◌, Error, Result, ok, err, State,
}
use test_fabric.Base.Go.{Go, ◌>>=◌, ◌>>◌, pure, call}
use test_fabric.Eventserver.Filter.{ChainEvent}

-- A block is the list of its transactions, and a transaction that of its events.
abbrev pub EventBlock : Type 0
EventBlock = List (List ChainEvent)

module _ {World : Type 0} (filter_handler : ChainEvent → Go World (Option String)) where
  -- The loop's body on a transaction. What the filter returns is not used.
  abbrev pub filter_first : List ChainEvent → Go World (Unit {0})
  filter_first [] = pure tt
  filter_first (event ∷ events) = do filter_handler event; pure tt

  unfoldable pub listen_block : EventBlock → Go World (Unit {0})
  listen_block [] = pure tt
  listen_block (r ∷ transactions) = do filter_first r; listen_block transactions

  -- The endless loop, for the blocks that have come so far.
  unfoldable pub listen_blocks : List EventBlock → Go World (Unit {0})
  listen_blocks [] = pure tt
  listen_blocks (b ∷ notify) = do listen_block b; listen_blocks notify

-- `ListenEventFullBlock("peer", chainID)`: an error, or the blocks that come through the channel.
-- With a filter the loop does not return, so there is an answer only for what has come so far.
unfoldable pub listen_event :
    {World : Type 0}
    → (String → String → State World (Result (List EventBlock)))
    → String
    → Option (ChainEvent → Go World (Option String))
    → Go World (Option Error)
unfolding listen_blocks listen_block
listen_event listen_full_block chain_id filter_handler = do
  notify ← call (listen_full_block "peer" chain_id)
  listen_notified filter_handler notify
  where
    listen_notified :
        {World : Type 0}
        → Option (ChainEvent → Go World (Option String))
        → Result (List EventBlock)
        → Go World (Option Error)
    listen_notified filter_handler (err e) = pure (some e)
    listen_notified none (ok notify) = pure (some "The filter handler is null!")
    listen_notified (some filter_handler) (ok notify) = do
      listen_blocks filter_handler notify
      pure none
