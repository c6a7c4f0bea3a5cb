-- ===== src/Eventserver/Progress/Resume.antt =====
-- Where a restarted event server goes on.
use Prim.Native.String.{◌++◌ as str_append}
use test_fabric.Base.{
  String, ◌≡◌, ◌≢◌, refl, ◌∙◌, ap, sym, none, some, Error, ok, Option-cases, Result-cases, inl, inr,
}
use test_fabric.Eventserver.Progress.{
  BlockInfo, Disk, file_save_name, save_encoded, set_block_info, get_block_info, start_number,
}

-- A file that was created, written and synced reads as what was written, and what was encoded
-- decodes.
pub record HoldsData {World : Type 0} (disk : Disk World) : Type 0 where
  pub synced :
      (f : disk.File) (bytes : String) (w : World)
      → (disk.create file_save_name w).0 ≡ ok f
      → let v = (disk.create file_save_name w).1 in
        (disk.write f bytes v).0 ≡ none
        → let u = (disk.write f bytes v).1 in
          (disk.sync f u).0 ≡ none → (disk.read_file file_save_name (disk.sync f u).1).0 ≡ ok bytes
  pub decodes :
      (info old : BlockInfo) (bytes : String)
      → disk.encode_info info ≡ ok bytes
      → disk.decode_info bytes old ≡ (info, none)

-- A write into a new file that fails has written a part of the bytes, none perhaps, but not all; and
-- no JSON of an info without its end decodes.
pub record LosesData {World : Type 0} (disk : Disk World) : Type 0 where
  pub cut_short :
      (f : disk.File) (bytes : String) (e : Error) (w : World)
      → (disk.create file_save_name w).0 ≡ ok f
      → let v = (disk.create file_save_name w).1 in
        (disk.write f bytes v).0 ≡ some e
        → (part missing : String) × (str_append part missing ≡ bytes)
          × (missing ≢ "")
          × ((disk.read_file file_save_name (disk.write f bytes v).1).0 ≡ ok part)
  pub undecodable :
      (info old : BlockInfo) (part missing : String)
      → disk.encode_info info ≡ ok (str_append part missing)
      → missing ≢ ""
      → (e : Error) × (got : BlockInfo) × (disk.decode_info part old ≡ (got, some e))

module _ {World : Type 0} (disk : Disk World) (holds : HoldsData disk) where
  save_encoded-reads :
      (bytes : String) (w : World)
      → (save_encoded disk (ok bytes) w).0 ≡ none
      → (disk.read_file file_save_name (save_encoded disk (ok bytes) w).1).0 ≡ ok bytes
  save_encoded-reads bytes w saved = elim (Result-cases (disk.create file_save_name w).0) [
    | inl (f, created) ↦
        let v = (disk.create file_save_name w).1 in
        elim (Option-cases (disk.write f bytes v).0) [
          | inl wrote ↦
              rw (created, wrote)
                (holds.synced f bytes w created wrote (rw (created, wrote) at saved))
          | inr (e, failed) ↦ let ended = rw (created, failed) at saved in cc
        ]
    | inr (e, failed) ↦ let ended = rw failed at saved in cc
  ]

  -- If a file that was written and synced reads as what was written, and the JSON of an info
  -- decodes to it, then what SetBlockInfo has written without an error is what GetBlockInfo reads,
  -- whatever the variable held before.
  pub get_block_info-set_block_info :
      (info old : BlockInfo) (w : World)
      → (set_block_info disk info w).0 ≡ none
      → (get_block_info disk old (set_block_info disk info w).1).0 ≡ (info, none)
  unfolding set_block_info get_block_info
  get_block_info-set_block_info info old w saved = elim (Result-cases (disk.encode_info info)) [
    | inl (bytes, encoded) ↦
        let read = save_encoded-reads bytes w (rw encoded at saved) in
        rw (encoded, read, holds.decodes info old bytes encoded) refl
    | inr (e, failed) ↦ let ended = rw failed at saved in cc
  ]

module _ {World : Type 0} (disk : Disk World) (loses : LosesData disk) where
  -- If a write that fails has written a part of the bytes but not all, and no JSON of an info
  -- without its end decodes, then a SetBlockInfo that creates the file, and whose write into it
  -- fails, returns that error and loses the old progress: GetBlockInfo does not decode the file
  -- afterwards, and CheckAndRecoverEvent would begin at block 0.
  pub set_block_info_lost :
      (info old : BlockInfo) (bytes : String) (f : disk.File) (e : Error) (w : World)
      → disk.encode_info info ≡ ok bytes
      → (disk.create file_save_name w).0 ≡ ok f
      → (disk.write f bytes (disk.create file_save_name w).1).0 ≡ some e
      → ((set_block_info disk info w).0 ≡ some e)
        × ((get_block_info disk old (set_block_info disk info w).1).0.1 ≢ none)
        × (start_number disk (get_block_info disk old (set_block_info disk info w).1).0 ≡ 0)
  unfolding set_block_info get_block_info
  set_block_info_lost info old bytes f e w encoded created failed =
      let (part, missing, whole, cut, read) = loses.cut_short f bytes e w created failed in
      let (e', got, undecoded) =
        loses.undecodable info old part missing (encoded ∙ ap ok (sym whole)) cut in
      (
        rw (encoded, created, failed) refl,
        rw (encoded, created, failed, read, undecoded) (λ n. cc),
        rw (encoded, created, failed, read, undecoded) refl,
      )
