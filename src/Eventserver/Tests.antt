-- ===== src/Eventserver/Tests.antt =====
-- A disk and a peer in memory, and the event server's theorems at concrete inputs.
mod Ledger
mod Alias
mod Start
use Prim.Native.String.{◌++◌ as str_append}
use text.Mathlib.TextLemmas.{append_cancel_left}
use test_fabric.Base.{
  ◌∙◌, ℕ, zero, suc, ◌+◌, ◌-◌, String, ◌≡◌, refl, sym, ap, subst, ◌≢◌, inl, inr, Bool, true, false,
  Option, none, some, List, [], ◌∷◌, ◌++◌, Error, Result, ok, err, State, length, ◌==◌,
  if◌then◌else◌, eq_iff, arith, Bool-cases,
}
use test_fabric.Base.Int.{ℤ, pos, negsuc}
use test_fabric.Base.Go.{Go, Run, done}
use test_fabric.Base.Dict.{insert}
use test_fabric.Eventserver.Progress.{
  BlockInfo, BlockInfoAll, Disk, file_save_name, set_block_info, get_block_info, start_number,
  record_events,
}
use test_fabric.Eventserver.Progress.Resume.{
  HoldsData, LosesData, get_block_info-set_block_info, set_block_info_lost,
}
use test_fabric.Eventserver.Recover.{Chain, check_and_recover}
use test_fabric.Eventserver.Recover.Missed.{LogsQueries, requests}
use test_fabric.Eventserver.Recover.Restart.{ServesBlocks, check_and_recover-set_block_info}
use test_fabric.Eventserver.Progress.Handles.{CountsFiles, record_events-opened}

-- What "current.info" holds, how many files are open, and the queries that the peer was asked.
record World : Type 0 where
  file : Result String
  opened : ℕ
  asked : List (List String)

abbrev write_if : Bool → String → World → Option Error × World
write_if true bytes w = (some "no space left on device", w)
write_if false bytes w = (none, record w { file = ok bytes })

-- There is a text for two infos. The one for block 0 cannot be written.
abbrev encode_pair : ℕ → ℤ → Result String
encode_pair zero (pos zero) = ok "full"
encode_pair (suc zero) (pos zero) = ok "one"
encode_pair n i = err "unsupported value"

abbrev info_at : ℕ → BlockInfo
info_at n = record { block_number = n; tx_index = pos 0 }

abbrev decode : String → BlockInfo → BlockInfo × Option Error
decode text old =
    if text == "full"
    then (info_at 0, none)
    else if text == "one"
    then (info_at 1, none)
    else (old, some "unexpected end of JSON input")

abbrev disk : Disk World
disk = record {
  File = Unit {0};
  create = λ name w. (ok tt, record w { file = ok ""; opened = suc w.opened });
  write = λ f bytes w. write_if (bytes == "full") bytes w;
  sync = λ f w. (none, w);
  close = λ f w. (none, record w { opened = w.opened - 1 });
  read_file = λ name w. (w.file, w);
  encode_info = λ info. encode_pair info.block_number info.tx_index;
  decode_info = decode;
}

write_if-wrote :
    (full : Bool) (bytes : String) (w : World)
    → (write_if full bytes w).0 ≡ none
    → (write_if full bytes w).1.file ≡ ok bytes
write_if-wrote true bytes w wrote = cc
write_if-wrote false bytes w wrote = refl

write_if-opened :
    (full : Bool) (bytes : String) (w : World) → (write_if full bytes w).1.opened ≡ w.opened
write_if-opened true bytes w = refl
write_if-opened false bytes w = refl

decode-encode_pair :
    (n : ℕ) (i : ℤ) (old : BlockInfo) (bytes : String)
    → encode_pair n i ≡ ok bytes
    → decode bytes old ≡ (record { block_number = n; tx_index = i }, none)
decode-encode_pair zero (pos zero) old bytes e =
    let it : "full" ≡ bytes = cc in subst (λ s. decode s old ≡ (info_at 0, none)) it refl
decode-encode_pair zero (pos (suc i)) old bytes e = cc
decode-encode_pair zero (negsuc i) old bytes e = cc
decode-encode_pair (suc zero) (pos zero) old bytes e =
    let it : "one" ≡ bytes = cc in subst (λ s. decode s old ≡ (info_at 1, none)) it refl
decode-encode_pair (suc zero) (pos (suc i)) old bytes e = cc
decode-encode_pair (suc zero) (negsuc i) old bytes e = cc
decode-encode_pair (suc (suc n)) i old bytes e = cc

holds : HoldsData disk
holds = record {
  synced = λ f bytes w created wrote ended.
      write_if-wrote (bytes == "full") bytes (record w { file = ok ""; opened = suc w.opened })
        wrote;
  decodes = λ info old bytes e. decode-encode_pair info.block_number info.tx_index old bytes e;
}

abbrev counts : CountsFiles disk
counts = record {
  opened = λ w. w.opened;
  creates = λ w. (tt, refl);
  created = λ w. refl;
  closed = λ f w. refl;
  written = λ f bytes w. write_if-opened (bytes == "full") bytes w;
  synced = λ f w. refl;
}

abbrev start : World
start = record { file = err "no such file"; opened = 0; asked = [] }

abbrev after_one : World
after_one = record { file = ok "one"; opened = 1; asked = [] }

set_block_info_run : set_block_info disk (info_at 1) start ≡ (none, after_one)
unfolding set_block_info
set_block_info_run = refl

get_block_info-set_block_info_example :
    (get_block_info disk (info_at 7) (set_block_info disk (info_at 1) start).1).0
    ≡ (info_at 1, none)
get_block_info-set_block_info_example =
    get_block_info-set_block_info disk holds (info_at 1) (info_at 7) start
      (ap (λ r. r.0) set_block_info_run)

-- A disk that is full after one byte, and holds one info at most.
abbrev write_short : Bool → String → World → Option Error × World
write_short true bytes w = (some "no space left on device", record w { file = ok "f" })
write_short false bytes w = (none, record w { file = ok bytes })

abbrev full_disk : Disk World
full_disk = record disk {
  write = λ f bytes w. write_short (bytes == "full") bytes w;
  encode_info = λ info. ok "full";
  decode_info = λ text old.
      if text == "full" then (info_at 0, none) else (old, some "unexpected end of JSON input");
}

write_short-cut :
    (bytes : String) (e : Error) (w : World)
    → (write_short (bytes == "full") bytes w).0 ≡ some e
    → (part missing : String) × (str_append part missing ≡ bytes)
      × (missing ≢ "")
      × ((write_short (bytes == "full") bytes w).1.file ≡ ok part)
write_short-cut bytes e w failed = elim (Bool-cases (bytes == "full")) [
  | inl full ↦ (
    "f",
    "ull",
    sym ((eq_iff bytes "full").0 full),
    (λ e. ground (arith, eq_iff "ull" "")),
    rw full refl,
  )
  | inr other ↦ let wrote = rw other at failed in cc
]

decode_part :
    (part missing : String) (old : BlockInfo)
    → "full" ≡ str_append part missing
    → missing ≢ ""
    → (e : Error) × (got : BlockInfo) × (full_disk.decode_info part old ≡ (got, some e))
decode_part part missing old whole cut = elim (Bool-cases (part == "full")) [
  | inl same ↦
      let it : part ≡ "full" = (eq_iff part "full").0 same in
      absurd (cut (append_cancel_left part missing "" (sym whole ∙ rw it refl)))
  | inr other ↦ ("unexpected end of JSON input", old, rw other refl)
]

loses : LosesData full_disk
loses = record {
  cut_short = λ f bytes e w created failed.
      write_short-cut bytes e (record w { file = ok ""; opened = suc w.opened }) failed;
  undecodable = λ info old part missing encoded cut.
      let whole : "full" ≡ str_append part missing = cc in decode_part part missing old whole cut;
}

set_block_info_lost_example :
    ((set_block_info full_disk (info_at 0) after_one).0 ≡ some "no space left on device")
    × ((get_block_info full_disk (info_at 1) (set_block_info full_disk (info_at 0) after_one).1).0.1
        ≢ none)
    × (start_number full_disk
          (get_block_info full_disk
            (info_at 1)
            (set_block_info full_disk (info_at 0) after_one).1).0
        ≡ 0)
set_block_info_lost_example =
    set_block_info_lost full_disk loses (info_at 0) (info_at 1) "full" tt "no space left on device"
      after_one refl refl refl

abbrev message_at : ℕ → BlockInfoAll
message_at n = record { block_info = info_at n; msg_info = "" }

record_events-opened_example :
    (record_events disk (message_at 1 ∷ message_at 0 ∷ []) start).1.opened
    ≡ 0 + length (message_at 1 ∷ message_at 0 ∷ [])
record_events-opened_example =
    record_events-opened disk counts (message_at 1 ∷ message_at 0 ∷ []) start
      (("one", refl), (("full", refl), tt))

abbrev chain : Chain World
chain = record {
  query_by_qscc = λ args peers w. (
    ok (record { error = none; payload = some "block" } ∷ []),
    record w { asked = w.asked ++ args ∷ [] },
  );
  format_uint = λ n. "7";
  Block = String;
  unmarshal_block = λ s. ok s;
  number = λ b. some 7;
  unmarshal_height = λ s. ok 3;
}

abbrev logs : LogsQueries chain
logs = record { log = λ w. w.asked; logged = λ args peers w. refl }

serving : ServesBlocks chain
serving = record { serves = λ args peers w. ("block", [], "block", 7, refl, refl, refl) }

check_and_recover-set_block_info_example :
    ((check_and_recover chain disk true "ch" 3
        (info_at 7)
        []
        (set_block_info disk (info_at 1) start).1).0
      ≡ done tt)
    × ((check_and_recover chain disk true "ch" 3
          (info_at 7)
          []
          (set_block_info disk (info_at 1) start).1).1.asked
        ≡ (set_block_info disk (info_at 1) start).1.asked ++ requests chain "ch" (3 - 1) 1)
check_and_recover-set_block_info_example =
    check_and_recover-set_block_info chain "ch" serving disk holds logs (λ w. refl) (info_at 1)
      (info_at 7) 3 start (ap (λ r. r.0) set_block_info_run)
