-- ===== src/Apiserver/Sdk/Blocks/Tests.antt =====
-- GetBlockByTxids on a ledger in which each transaction has a block of its own.
use test_fabric.Apiserver.Sample.Net.{
  config, accepted, draws, responds, network, protos, policy, sdk, events,
}
use test_fabric.Apiserver.Sdk.Peers.Calls.{started}
use test_fabric.Apiserver.Sdk.Blocks.Returns.{get_block_by_txids-done}
use test_fabric.Apiserver.Sdk.BlockQuery.Returns.{block_query-done, block_query_ex-done}
use test_fabric.Base.{
  ℕ, ◌<◌, String, ◌≡◌, ◌≢◌, refl, Option, some, List, [], ◌∷◌, Error, All, get_elem?, map, arith,
}
use test_fabric.Base.Go.{Run, done, panicked}
use test_fabric.Base.Dict.{lookup, insert}
use test_fabric.Apiserver.Sdk.Peers.{generate_range_num, pick_name, get_send_peer_name}
use test_fabric.Apiserver.Sdk.Keys.{Keys, shift, remove_key, check_and_remove}
use test_fabric.Apiserver.Sdk.Keys.Laws.{
  IsShifted, elements_of, check_and_remove-without_first, check_and_remove-IsShifted,
}
use test_fabric.Apiserver.Sdk.Events.{events_of, get_chain_code_events}
use test_fabric.Apiserver.Sdk.Blocks.{
  Infos, get_block_by_txid, take_events, take_transactions, take_block, walk, get_block_by_txids,
}
use test_fabric.Apiserver.Sdk.Blocks.Requested.{IsFound}
use test_fabric.Apiserver.Sdk.BlockQuery.{Answer, block_query, block_query_ex}
use test_fabric.Apiserver.Sdk.BlockQuery.Rows.{IsAnswer, HasRows, HasBlocks}

abbrev txids : List String
txids = "t1" ∷ "t2" ∷ "t3" ∷ []

abbrev hashes : Run (Infos × Option Error) → List String
hashes (done (infos, e)) = map (λ entry. entry.0) infos
hashes (panicked e) = []

-- Three transactions are asked for, each in its own block: the second block is not among those
-- that are returned.
lost_run : hashes (get_block_by_txids network protos policy sdk "ch" txids 0).0 ≡ "t1" ∷ "t3" ∷ []
unfolding get_block_by_txids generate_range_num pick_name get_send_peer_name shift remove_key
    check_and_remove events_of get_chain_code_events get_block_by_txid take_events take_transactions
    take_block walk lookup insert
lost_run = refl

abbrev keys : Keys
keys = record { array = txids; len = 3 }

check_and_remove-without_first_example :
    elements_of (check_and_remove keys "t2") ≡ some ("t1" ∷ "t3" ∷ [])
check_and_remove-without_first_example = check_and_remove-without_first keys "t2" (omega arith)

nothing_before : (j : ℕ) → j < 0 → get_elem? txids j ≢ some "t1"
nothing_before j low = absurd (omega (arith, low))

check_and_remove-IsShifted_example :
    (left : Keys) × (check_and_remove keys "t1" ≡ some left) × IsShifted 0 3 txids left.array
check_and_remove-IsShifted_example =
    check_and_remove-IsShifted keys "t1" 0 (omega arith) (omega arith) refl nothing_before

get_block_by_txids-done_example :
    (found : Infos × Option Error) × ((get_block_by_txids network protos policy
        (started policy config)
        "ch"
        txids
        0).0
      ≡ done found)
    × All (IsFound txids) found.0
get_block_by_txids-done_example =
    get_block_by_txids-done network draws protos policy config accepted "ch" responds txids 0

block_query-done_example :
    (answer : Answer) × ((block_query events network protos policy
        (started policy config)
        "ch"
        txids
        0).0
      ≡ done answer)
    × IsAnswer (HasRows events txids) answer
block_query-done_example =
    block_query-done events network draws protos policy config accepted "ch" responds txids 0

block_query_ex-done_example :
    (answer : Answer) × ((block_query_ex events network protos policy
        (started policy config)
        "ch"
        txids
        0).0
      ≡ done answer)
    × IsAnswer (HasBlocks events txids) answer
block_query_ex-done_example =
    block_query_ex-done events network draws protos policy config accepted "ch" responds txids 0
