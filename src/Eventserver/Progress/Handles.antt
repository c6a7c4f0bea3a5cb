-- ===== src/Eventserver/Progress/Handles.antt =====
-- The files that SetBlockInfo leaves open.
use test_fabric.Base.{
  ℕ, suc, ◌+◌, ◌-◌, String, ◌≡◌, ◌∙◌, List, [], ◌∷◌, ok, length, All, Option-cases, inl, inr, arith,
}
use test_fabric.Eventserver.Progress.{
  BlockInfo, BlockInfoAll, Disk, file_save_name, set_block_info, record_events,
}

-- How many files are open: a created one is, until it is closed; nothing else changes the number.
-- Files can always be created.
pub record CountsFiles {World : Type 0} (disk : Disk World) : Type 0 where
  pub opened : World → ℕ
  pub creates : (w : World) → (f : disk.File) × ((disk.create file_save_name w).0 ≡ ok f)
  pub created : (w : World) → opened (disk.create file_save_name w).1 ≡ suc (opened w)
  pub closed : (f : disk.File) (w : World) → opened (disk.close f w).1 ≡ opened w - 1
  pub written :
      (f : disk.File) (bytes : String) (w : World) → opened (disk.write f bytes w).1 ≡ opened w
  pub synced : (f : disk.File) (w : World) → opened (disk.sync f w).1 ≡ opened w

module _ {World : Type 0} (disk : Disk World) (counts : CountsFiles disk) where
  open counts use {opened}

  -- The infos of the messages can be encoded.
  abbrev pub IsEncodable : BlockInfoAll → Type 0
  IsEncodable message = (bytes : String) × (disk.encode_info message.block_info ≡ ok bytes)

  set_block_info-opened :
      (info : BlockInfo) (bytes : String) (w : World)
      → disk.encode_info info ≡ ok bytes
      → opened (set_block_info disk info w).1 ≡ suc (opened w)
  unfolding set_block_info
  set_block_info-opened info bytes w encoded =
      let (f, created) = counts.creates w in
      let v = (disk.create file_save_name w).1 in
      elim (Option-cases (disk.write f bytes v).0) [
        | inl wrote ↦
            rw (encoded, created, wrote)
              (counts.synced f (disk.write f bytes v).1
                ∙ counts.written f bytes v
                ∙ counts.created w)
        | inr (e, failed) ↦
            rw (encoded, created, failed) (counts.written f bytes v ∙ counts.created w)
      ]

  -- If the file can be created, which leaves one more open, and neither a write nor a sync opens or
  -- closes one, then each message whose info can be encoded leaves one more file open, whether it
  -- is written or not: no file is ever closed.
  pub record_events-opened :
      (messages : List BlockInfoAll) (w : World)
      → All IsEncodable messages
      → opened (record_events disk messages w).1 ≡ opened w + length messages
  unfolding record_events
  record_events-opened [] w all = omega arith
  record_events-opened (message ∷ messages) w ((bytes, encoded), all) =
      let one = set_block_info-opened message.block_info bytes w encoded in
      let rest = record_events-opened messages (set_block_info disk message.block_info w).1 all in
      omega (arith, one, rest)
