-- ===== src/Compaction.antt =====
-- crates/downpour-storage/src/journal/compaction.rs: the replacement journal that compaction writes.
-- The checksum of the crc crate is an argument.
pub mod Records
pub mod Length
pub mod Replacement
pub mod Journaled
pub mod Replace
use Prim.Native.String.{String}
use downpour.Prelude.{
  ℕ, suc, ◌+◌, Option, none, some, List, [], ◌∷◌, ◌++◌, ltb, if◌then◌else◌, max_u64, Result, ok,
  err, ◌>>=◌,
}
use downpour.Journal.{
  Bytes, FileHeader, JournalRecord, identity_update, truncate, checkpoint, block_complete, sealed,
  FramedRecord,
}
use downpour.Journal.State.{CompletedBlock, EffectiveState}
use downpour.Journal.Format.{FormatError, encode_header, encode_record}
use downpour.Journal.Replay.{ReplayError}

pub data CompactionError : Type 0 where
  replay : ReplayError → CompactionError
  io : String → CompactionError
  invalid_state : String → CompactionError
  block_digest_mismatch : ℕ → ℕ → CompactionError
  format : FormatError → CompactionError

abbrev pub Compacted : Type 0 → Type 0
Compacted A = Result A CompactionError

-- `try_fold` of the merged blocks' lengths.
unfoldable pub sum_covered : ℕ → List CompletedBlock → Compacted ℕ
sum_covered total [] = ok total
sum_covered total (b ∷ bs) =
    if ltb max_u64 (total + b.len)
    then err (invalid_state "covered byte count overflows u64")
    else sum_covered (total + b.len) bs

unfoldable pub identity_records : List Bytes → List JournalRecord → List JournalRecord
identity_records [] rest = rest
identity_records (cbor ∷ identities) rest = identity_update cbor ∷ identity_records identities rest

unfoldable pub block_records : List CompletedBlock → List JournalRecord → List JournalRecord
block_records [] rest = rest
block_records (b ∷ bs) rest = block_complete b.offset b.len b.blake3 ∷ block_records bs rest

abbrev pub truncate_record : Option ℕ → List JournalRecord → List JournalRecord
truncate_record none rest = rest
truncate_record (some new_length) rest = truncate new_length ∷ rest

abbrev pub seal_record : Option Bytes → List JournalRecord
seal_record none = []
seal_record (some final_blake3) = sealed final_blake3 ∷ []

-- The pushes, in their order.
abbrev pub semantic_records : EffectiveState → List CompletedBlock → ℕ → ℕ → List JournalRecord
semantic_records st merged covered_bytes wall_clock = identity_records st.identities (
    truncate_record st.last_truncate
      (checkpoint covered_bytes wall_clock ∷ block_records merged (seal_record st.seal)))

-- `enumerate`
unfoldable pub framed_from : ℕ → List JournalRecord → List FramedRecord
framed_from sequence [] = []
framed_from sequence (r ∷ rest) =
    record { sequence = sequence; record_ = r } ∷ framed_from (suc sequence) rest

-- The loop that encodes, with the bytes so far.
unfoldable pub encode_all : (Bytes → ℕ) → Bytes → List FramedRecord → Compacted Bytes
encode_all crc encoded [] = ok encoded
encode_all crc encoded (f ∷ rest) = elim (encode_record crc f) [
  | err e ↦ err (format e)
  | ok frame ↦ encode_all crc (encoded ++ frame) rest
]

unfoldable pub encode_replacement :
    (Bytes → ℕ) → FileHeader → EffectiveState → List CompletedBlock → ℕ → Compacted Bytes
encode_replacement crc header st merged wall_clock = sum_covered 0 merged >>= λ covered_bytes.
    encode_all crc (encode_header crc header)
      (framed_from 0 (semantic_records st merged covered_bytes wall_clock))
