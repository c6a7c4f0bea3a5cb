-- ===== src/Eventserver/Recover/Restart.antt =====
-- CheckAndRecoverEvent after a restart: from the file to the peer.
use test_fabric.Base.{
  ℕ, zero, suc, ◌+◌, ◌-◌, String, ◌≡◌, refl, ◌∙◌, ap, true, none, some, List, [], ◌∷◌, ◌++◌, ok,
}
use test_fabric.Base.Go.{done}
use test_fabric.Eventserver.Progress.{
  BlockInfo, Disk, file_save_name, set_block_info, get_block_info, record_events,
}
use test_fabric.Eventserver.Progress.Resume.{HoldsData, get_block_info-set_block_info}
use test_fabric.Eventserver.Recover.{
  Chain, PeerResponse, get_block_by_number, recover, check_and_recover,
}
use test_fabric.Eventserver.Recover.Missed.{LogsQueries, requests, recover-log}

-- A peer that answers each query with a block.
pub record ServesBlocks {World : Type 0} (chain : Chain World) : Type 0 where
  pub serves :
      (args peers : List String) (w : World)
      → (payload : String) × (rest : List PeerResponse) × (block : chain.Block) × (n : ℕ)
        × ((chain.query_by_qscc args peers w).0
            ≡ ok (record { error = none; payload = some payload } ∷ rest))
        × (chain.unmarshal_block payload ≡ ok block)
        × (chain.number block ≡ some n)

module _ {World : Type 0} (chain : Chain World) (chain_id : String)
    (serving : ServesBlocks chain) where
  -- The loop comes to its end.
  recover-done :
      (rounds start : ℕ) (w : World) → (recover chain chain_id rounds start w).0 ≡ done true
  unfolding recover get_block_by_number
  recover-done zero start w = refl
  recover-done (suc rounds) start w =
      let (payload, rest, block, n, answered, decoded, numbered) =
        serving.serves ("GetBlockByNumber" ∷ chain_id ∷ chain.format_uint start ∷ []) ("peer0" ∷ [])
          w in
      rw (answered, decoded, numbered) (recover-done rounds (start + 1) _)

  module _ (disk : Disk World) (holds : HoldsData disk) (logs : LogsQueries chain)
      -- Reading the file asks the peer for nothing.
      (reads : (w : World) → logs.log (disk.read_file file_save_name w).1 ≡ logs.log w) where
    open logs use {log}

    get_block_info-log : (old : BlockInfo) (w : World) → log (get_block_info disk old w).1 ≡ log w
    unfolding get_block_info
    get_block_info-log old w = reads w

    -- If a file that was written and synced reads as what was written, the JSON of an info decodes
    -- to it, SetBlockInfo has written an info without an error, and the peer answers each query
    -- with a block, then CheckAndRecoverEvent, which no start of the event server calls (its call in
    -- eventserver/main.go is commented out), goes through the missed blocks to the end: it asks the peer for each block from the number in that info up to the height, once and
    -- in order, and for nothing else.
    pub check_and_recover-set_block_info :
        (info old : BlockInfo) (height : ℕ) (w : World)
        → (set_block_info disk info w).0 ≡ none
        → let v = (set_block_info disk info w).1 in
          ((check_and_recover chain disk true chain_id height old [] v).0 ≡ done tt)
          × (log (check_and_recover chain disk true chain_id height old [] v).1
              ≡ log v ++ requests chain chain_id (height - info.block_number) info.block_number)
    unfolding check_and_recover record_events
    check_and_recover-set_block_info info old height w saved =
        let v = (set_block_info disk info w).1 in
        let got = get_block_info-set_block_info disk holds info old w saved in
        let u = (get_block_info disk old v).1 in
        let rounds = height - info.block_number in
        let ended = recover-done rounds info.block_number u in
        let asked = recover-log chain chain_id logs rounds info.block_number u ended in
        rw (got, ended)
          (
            refl,
            asked
                ∙ ap (λ l. l ++ requests chain chain_id rounds info.block_number)
                    (get_block_info-log old v),
          )
