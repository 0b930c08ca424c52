-- ===== src/Writer/Batch.antt =====
-- crates/downpour-storage/src/writer.rs: the types of the durable writer, and what it computes on a
-- batch of staged blocks. The traits DurableData and DurableJournal are records of operations; a
-- method with `&mut self` returns its result beside the state that it leaves.
use Prim.Native.String.{String}
use downpour.Prelude.{
  ℕ, ◌+◌, ◌-◌, ◌*◌, Bool, true, false, ◌||◌, ◌&&◌, Option, none, some, List, [], ◌∷◌, ltb, ◌==◌,
  if◌then◌else◌, max_u64, Result, ok, err,
}
use downpour.Intervals.{IntervalMap, IntervalMapError, Range, WorkerId, complete_range}
use downpour.Journal.{Bytes, FramedRecord, block_complete}
use downpour.Journal.Format.{FormatError}
use downpour.PartFile.{IoError, PartFileError, part_file_io}

pub data WriterError : Type 0 where
  part_file : PartFileError → WriterError
  format : FormatError → WriterError
  interval : IntervalMapError → WriterError
  io : String → IoError → WriterError
  journal_already_exists : WriterError
  length_mismatch : ℕ → ℕ → WriterError
  interval_length_mismatch : ℕ → ℕ → WriterError
  empty_block : WriterError
  block_too_large : ℕ → WriterError
  range_overflow : ℕ → ℕ → WriterError
  overlapping_staged : ℕ → ℕ → ℕ → ℕ → WriterError
  batch_length_overflow : WriterError
  sequence_exhausted : WriterError
  no_space : ℕ → WriterError
  poisoned : WriterError

abbrev pub Written {ℓ} : Type ℓ → Type ℓ
Written A = Result A WriterError

pub record DurableData (D : Type 0) : Type 0 where
  pub total_length : D → ℕ
  pub write_all_at : D → ℕ → Bytes → Written (Unit {0}) × D
  pub sync_data : D → Written (Unit {0}) × D

pub record DurableJournal (J : Type 0) : Type 0 where
  pub total_length : J → ℕ
  pub append : J → FramedRecord → Written (Unit {0}) × J
  pub sync_data : J → Written (Unit {0}) × J

pub record StagedBlock : Type 0 where
  pub range : Range
  pub record_length : ℕ
  pub worker : WorkerId
  pub blake3 : Bytes

pub record DurableBlock : Type 0 where
  pub sequence : ℕ
  pub range : Range
  pub worker : WorkerId
  pub blake3 : Bytes

pub record DurableWriter (D J : Type 0) : Type 0 where
  pub file : D
  pub journal : J
  pub next_sequence : ℕ
  pub staged : List StagedBlock
  pub staged_bytes : ℕ
  pub first_staged_at : Option ℕ
  pub is_poisoned : Bool
  pub disk_full_at : Option ℕ
  pub durable_bytes : ℕ

-- Two seconds in nanoseconds, and eight mebibytes.
abbrev pub journal_flush_interval : ℕ
journal_flush_interval = 2000000000

abbrev pub journal_flush_bytes : ℕ
journal_flush_bytes = 8 * 1024 * 1024

-- What a method returns, the writer that it leaves, and the interval map.
abbrev pub Committed : Type 0 → Type 0 → Type 0
Committed D J = Written (List DurableBlock) × DurableWriter D J × IntervalMap

-- The loop over `next_intervals.complete(..)`.
unfoldable pub complete_staged :
    IntervalMap → List StagedBlock → Result IntervalMap IntervalMapError
complete_staged m [] = ok m
complete_staged m (b ∷ bs) =
    let (result, next) = complete_range m b.range b.worker in
    elim result [ err e ↦ err e | ok _ ↦ complete_staged next bs ]

-- The journal record of a block, and the block with its sequence. The source's second check of the
-- sequence, for each block, passes since the check for the whole batch has passed.
abbrev pub record_of : ℕ → StagedBlock → FramedRecord
record_of sequence b = record {
  sequence = sequence;
  record_ = block_complete b.range.start b.record_length b.blake3;
}

unfoldable pub records_of : ℕ → List StagedBlock → List FramedRecord
records_of sequence [] = []
records_of sequence (b ∷ bs) = record_of sequence b ∷ records_of (sequence + 1) bs

unfoldable pub blocks_of : ℕ → List StagedBlock → List DurableBlock
blocks_of sequence [] = []
blocks_of sequence (b ∷ bs) =
    record { sequence = sequence; range = b.range; worker = b.worker; blake3 = b.blake3 }
    ∷ blocks_of (sequence + 1) bs

abbrev saturating_add : ℕ → ℕ → ℕ
saturating_add a b = if ltb max_u64 (a + b) then max_u64 else a + b

unfoldable pub add_durable : ℕ → List StagedBlock → ℕ
add_durable n [] = n
add_durable n (b ∷ bs) = add_durable (saturating_add n (b.range.end - b.range.start)) bs

abbrev pub is_empty_batch : List StagedBlock → Bool
is_empty_batch [] = true
is_empty_batch (b ∷ bs) = false

-- `find` of a staged block that shares bytes with the range.
unfoldable pub find_overlap : Range → List StagedBlock → Option StagedBlock
find_overlap r [] = none
find_overlap r (b ∷ bs) =
    if ltb b.range.start r.end && ltb r.start b.range.end then some b else find_overlap r bs

abbrev pub no_overlap : Range → Option StagedBlock → Written (Unit {0})
no_overlap r none = ok tt
no_overlap r (some b) = err (overlapping_staged b.range.start b.range.end r.start r.end)

unfoldable pub ensure_not_staged : Range → List StagedBlock → Written (Unit {0})
ensure_not_staged r staged = no_overlap r (find_overlap r staged)

-- `WriterError::Interval`
abbrev pub from_interval : Result (Unit {0}) IntervalMapError → Written (Unit {0})
from_interval (err e) = err (interval e)
from_interval (ok _) = ok tt

unfoldable pub ensure_current_grant : IntervalMap → Range → WorkerId → Written (Unit {0})
ensure_current_grant m r worker = from_interval (complete_range m r worker).0

abbrev pub raw_error : WriterError → Option ℕ
raw_error (part_file (part_file_io operation source)) = source
raw_error (io operation source) = source
raw_error _ = none

abbrev full_code : Bool → ℕ → Bool
full_code unix raw = if unix then raw == 28 else raw == 39 || raw == 112

abbrev is_full : Bool → Option ℕ → Bool
is_full unix none = false
is_full unix (some raw) = full_code unix raw

-- A target is unix or windows.
unfoldable pub no_space_offset : Bool → WriterError → ℕ → Option ℕ
no_space_offset unix (no_space at) offset = some at
no_space_offset unix error offset = if is_full unix (raw_error error) then some offset else none

abbrev pub guard : Bool → WriterError → Written (Unit {0})
guard true e = ok tt
guard false e = err e
