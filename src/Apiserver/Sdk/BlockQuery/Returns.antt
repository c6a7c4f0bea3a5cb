-- ===== src/Apiserver/Sdk/BlockQuery/Returns.antt =====
-- BlockQuery and BlockQueryEx always return, on messages that are whole.
use test_fabric.Base.{String, ◌≡◌, refl, none, List, [], ◌∷◌, ok, All}
use test_fabric.Base.Go.{done, pure}
use test_fabric.Base.Total.{bind-Returns}
use test_fabric.Apiserver.Sdk.Peers.{ClientConfig, Policy, Network, set_send_peer_order}
use test_fabric.Apiserver.Sdk.Peers.Ready.{empty_sdk}
use test_fabric.Apiserver.Sdk.Peers.Choice.{DrawsBelow}
use test_fabric.Apiserver.Sdk.Peers.Calls.{started}
use test_fabric.Apiserver.Sdk.Events.{Protos}
use test_fabric.Apiserver.Sdk.Blocks.{get_block_by_txids}
use test_fabric.Apiserver.Sdk.Blocks.Requested.{IsFound}
use test_fabric.Apiserver.Sdk.Blocks.Returns.{HasResponse, get_block_by_txids-done}
use test_fabric.Apiserver.Sdk.BlockQuery.{
  EventCodec, Answer, row_answer, block_answer, block_query, block_query_ex,
}
use test_fabric.Apiserver.Sdk.BlockQuery.Rows.{
  IsAnswer, HasRows, HasBlocks, row_answer-IsAnswer, block_answer-IsAnswer,
}

module _ (codec : EventCodec) {World : Type 0} (network : Network World)
    (draws : DrawsBelow network) (protos : Protos) (policy : Policy) (config : ClientConfig)
    (accepted : (set_send_peer_order policy (ok config) empty_sdk).0 ≡ none) (chain_id : String)
    (answered : (txid : String) (peers : List String) (w : World)
      → HasResponse protos
          (network.query_by_qscc ("GetBlockByTxID" ∷ chain_id ∷ txid ∷ []) peers w).0)
    (txids : List String) (w : World) where
  -- If SetSendPeerOrder accepts the configuration, `rand.Intn` draws below its bound, and no
  -- pointer that the server follows in the peers' answers to GetBlockByTxID, and in the blocks that
  -- these decode to, is nil, then BlockQuery returns for any list of transactions, and its error is
  -- nil. Either its status is 1 and it has no payload, or its status is 0 and each row of its
  -- payload is about a transaction that was asked for, in a block with a hash that is not empty.
  pub block_query-done :
      (answer : Answer) × ((block_query codec network protos policy
          (started policy config)
          chain_id
          txids
          w).0
        ≡ done answer)
      × IsAnswer (HasRows codec txids) answer
  unfolding block_query
  block_query-done =
      bind-Returns (λ r. All (IsFound txids) r.0) (IsAnswer (HasRows codec txids))
        (get_block_by_txids network protos policy (started policy config) chain_id txids)
        (λ info. pure (row_answer codec info))
        (get_block_by_txids-done network draws protos policy config accepted chain_id answered
          txids)
        (λ info all v. (row_answer codec info, refl, row_answer-IsAnswer codec txids info all)) w

  -- If SetSendPeerOrder accepts the configuration, `rand.Intn` draws below its bound, and no
  -- pointer that the server follows in the peers' answers to GetBlockByTxID, and in the blocks that
  -- these decode to, is nil, then BlockQueryEx returns for any list of transactions, and its error
  -- is nil. Either its status is 1 and it has no payload, or its status is 0 and each block of its
  -- payload has a hash that is not empty and only events of transactions that were asked for.
  pub block_query_ex-done :
      (answer : Answer) × ((block_query_ex codec network protos policy
          (started policy config)
          chain_id
          txids
          w).0
        ≡ done answer)
      × IsAnswer (HasBlocks codec txids) answer
  unfolding block_query_ex
  block_query_ex-done =
      bind-Returns (λ r. All (IsFound txids) r.0) (IsAnswer (HasBlocks codec txids))
        (get_block_by_txids network protos policy (started policy config) chain_id txids)
        (λ info. pure (block_answer codec info))
        (get_block_by_txids-done network draws protos policy config accepted chain_id answered
          txids)
        (λ info all v. (block_answer codec info, refl, block_answer-IsAnswer codec txids info all))
        w
