-- ===== src/Eventserver/Progress.antt =====
-- eventserver/handle/handleevent.go: the file that tells how far the events were handled.
pub mod Resume
pub mod Handles
use test_fabric.Base.{
  ℕ, String, Option, none, some, List, [], ◌∷◌, Error, Result, ok, err, State, ◌>>=◌, ◌>>◌, pure,
}
use test_fabric.Base.Int.{ℤ, pos}

pub record BlockInfo : Type 0 where
  pub block_number : ℕ
  pub tx_index : ℤ

-- What comes through the channel: BlockInfoAll, whose message is not looked at.
pub record BlockInfoAll : Type 0 where
  pub block_info : BlockInfo
  pub msg_info : String

-- The files: `os.Create`, the methods of `os.File` and `ioutil.ReadFile`; and encoding/json.
pub record Disk (World : Type 0) : Type 1 where
  pub File : Type 0
  pub create : String → State World (Result File)
  pub write : File → String → State World (Option Error)
  pub sync : File → State World (Option Error)
  pub close : File → State World (Option Error)
  pub read_file : String → State World (Result String)
  pub encode_info : BlockInfo → Result String
  pub decode_info : String → BlockInfo → BlockInfo × Option Error

abbrev pub file_save_name : String
file_save_name = "current.info"

module _ {World : Type 0} (disk : Disk World) where
  open disk use {File, create, write, sync, close, read_file, encode_info, decode_info}

  -- After the write: Close stands in a branch that asks for the error to be nil again, behind the
  -- branch that it is not nil, so it is never reached.
  abbrev pub after_write : File → Option Error → State World (Option Error)
  after_write f none = sync f
  after_write f (some e) = pure (some e)

  abbrev pub into_file : String → Result File → State World (Option Error)
  into_file bytes (err e) = pure (some e)
  into_file bytes (ok f) = do failed ← write f bytes; after_write f failed

  abbrev pub save_encoded : Result String → State World (Option Error)
  save_encoded (err e) = pure (some e)
  save_encoded (ok bytes) = do f ← create file_save_name; into_file bytes f

  unfoldable pub set_block_info : BlockInfo → State World (Option Error)
  set_block_info info = save_encoded (encode_info info)

  abbrev pub decode_into : BlockInfo → Result String → BlockInfo × Option Error
  decode_into info (err e) = (info, some e)
  decode_into info (ok bytes) = decode_info bytes info

  -- GetBlockInfo: the variable `info` afterwards, and the error.
  unfoldable pub get_block_info : BlockInfo → State World (BlockInfo × Option Error)
  get_block_info info = do bytes ← read_file file_save_name; pure (decode_into info bytes)

  -- The number to start at: 0 after an error.
  abbrev pub start_number : BlockInfo × Option Error → ℕ
  start_number (info, none) = info.block_number
  start_number (info, some e) = 0

  -- The endless loop over the channel, for the messages that have come so far: an error is logged.
  unfoldable pub record_events : List BlockInfoAll → State World (Unit {0})
  unfolding set_block_info
  record_events [] = pure tt
  record_events (block_info ∷ from_listen) = do
    set_block_info block_info.block_info
    record_events from_listen
