-- ===== src/Journal/Replay.antt =====
-- crates/downpour-storage/src/journal/replay.rs: replaying a journal. The reader is a string of
-- bytes, which is read without an I/O error; a round of the loop takes the bytes that are left.
pub mod Frame
pub mod Written
pub mod Torn
pub mod Fuel
use Prim.Native.String.{String}
use downpour.Prelude.{
  ℕ, zero, suc, ◌+◌, Bool, true, false, not, List, [], ◌∷◌, ◌++◌, ltb, ◌==◌, if◌then◌else◌, max_u64,
  length, take, drop, Result, ok, err, ◌>>=◌, Option, none, some,
}
use downpour.Journal.{Bytes, FileHeader, FramedRecord}
use downpour.Journal.Format.{FormatError, truncated, from_le_bytes, decode_header, decode_prefix}

pub data ReplayStop : Type 0 where
  clean_eof : ReplayStop
  damaged_tail : FormatError → ReplayStop
  sequence_gap : ℕ → ℕ → ReplayStop

pub record ReplayOutcome : Type 0 where
  pub header : FileHeader
  pub records : List FramedRecord
  pub valid_bytes : ℕ
  pub stop : ReplayStop

-- The last constructor is the end of the fuel, which the source has not.
pub data ReplayError : Type 0 where
  format : FormatError → ReplayError
  io : String → ReplayError
  out_of_fuel : ReplayError

-- A round stops, or takes a record of so many bytes and leaves the bytes behind it.
pub data Round : Type 0 where
  stopped : ReplayStop → Round
  taken : FramedRecord → ℕ → Bytes → Round

abbrev pub check_sequence : ℕ → FramedRecord → ℕ → Bytes → Round
check_sequence expected f consumed rest =
    if not (f.sequence == expected)
    then stopped (sequence_gap expected f.sequence)
    else taken f consumed rest

-- The frame is what could be read of the prefix and the `suffix_len` bytes behind it.
abbrev pub decode_read : (Bytes → ℕ) → ℕ → Bytes → Bytes → ℕ → Round
decode_read crc expected frame rest suffix_len =
    if ltb (length frame) (11 + suffix_len)
    then stopped (damaged_tail (truncated (11 + suffix_len) (length frame)))
    else elim (decode_prefix crc frame) [
      | err e ↦ stopped (damaged_tail e)
      | ok (f, consumed) ↦ check_sequence expected f consumed rest
    ]

-- `u16::from_le_bytes([prefix[9], prefix[10]])` and the four bytes of the checksum
abbrev pub suffix_length : Bytes → ℕ
suffix_length prefix = from_le_bytes (take 2 (drop 9 prefix)) + 4

unfoldable pub replay_round : (Bytes → ℕ) → ℕ → Bytes → Round
replay_round crc expected s =
    let prefix = take 11 s in
    let suffix_len = suffix_length prefix in
    if length prefix == 0
    then stopped clean_eof
    else if ltb (length prefix) 11
    then stopped (damaged_tail (truncated 11 (length prefix)))
    else decode_read crc expected (take (11 + suffix_len) s) (drop (11 + suffix_len) s) suffix_len

abbrev pub checked_add : ℕ → ℕ → String → Result ℕ ReplayError
checked_add a b message = if ltb max_u64 (a + b) then err (io message) else ok (a + b)

-- The loop, with the records, the expected number and the valid bytes so far.
unfoldable pub replay_loop :
    (Bytes → ℕ)
    → ℕ
    → FileHeader
    → List FramedRecord
    → ℕ
    → ℕ
    → Bytes
    → Result ReplayOutcome ReplayError
replay_loop crc zero header records expected valid_bytes s = err out_of_fuel
replay_loop crc (suc fuel) header records expected valid_bytes s =
    elim (replay_round crc expected s) [
      | stopped reason ↦
          ok (record {
            header = header;
            records = records;
            valid_bytes = valid_bytes;
            stop = reason;
          })
      | taken f consumed rest ↦
          checked_add valid_bytes consumed "journal byte offset overflow" >>= λ valid.
          checked_add expected 1 "journal sequence overflow" >>= λ next.
          replay_loop crc fuel header (records ++ f ∷ []) next valid rest
    ]

-- A round that takes a record takes bytes: one more round than there are bytes is enough.
unfoldable pub replay_bytes : (Bytes → ℕ) → Bytes → Result ReplayOutcome ReplayError
replay_bytes crc s = elim (decode_header crc (take 72 s)) [
  | err e ↦ err (format e)
  | ok header ↦ replay_loop crc (suc (length s)) header [] 0 72 (drop 72 s)
]

-- `recover_journal`: the outcome, and the file that it leaves.
unfoldable pub recover_journal : (Bytes → ℕ) → Bytes → Result ReplayOutcome ReplayError × Bytes
recover_journal crc file = elim (replay_bytes crc file) [
  | err e ↦ (err e, file)
  | ok outcome ↦ elim outcome.stop [
    | clean_eof ↦ (ok outcome, file)
    | _ ↦ (ok outcome, take outcome.valid_bytes file)
  ]
]
