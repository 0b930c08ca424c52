-- ===== src/Recovery.antt =====
-- crates/downpour-storage/src/recovery.rs: the types of recovery, the merging of blocks, the rebuilding
-- of the interval map and the comparison with the cached checkpoint.
pub mod Reconcile
pub mod Merge
pub mod Rebuild
pub mod Kept
pub mod Answers
pub mod Sound
use Prim.Native.String.{String}
use downpour.Prelude.{
  ℕ, ◌+◌, ◌-◌, Bool, true, false, not, ◌||◌, ◌&&◌, Option, none, some, List, [], ◌∷◌, ltb, leb,
  ◌==◌, if◌then◌else◌, max_u64, length, Result, ok, err, ◌>>=◌,
}
use downpour.Text.{text_eq, lit}
use downpour.Intervals.{
  IntervalMap, Interval, IntervalMapError, Range, WorkerId, new, grant, complete_range, complete,
  state_eq,
}
use downpour.Journal.{Bytes, FileHeader}
use downpour.Journal.State.{
  Folded, CompletedBlock, EffectiveState, end, retain, ends_by, effective_state,
}
use downpour.Journal.Replay.{
  ReplayOutcome, ReplayStop, clean_eof, ReplayError, format, io, out_of_fuel, recover_journal,
}
use downpour.PartFile.{
  System, RecoveredPartFile, PartFileError, OpenError, Filed, open_existing, reopen, max_i64,
}
use downpour.Metadata.{
  DownloadState, completed, failed, paused, MetadataError, Stored, DownloadErrorKind,
  new_error_kind, DownloadMetadata, CompleteInterval, complete_interval, Checkpoint,
  validate_intervals, PersistedCheckpoint, MetadataStore,
}
use downpour.Remote.{RangeSupport, unknown}

abbrev pub recovery_worker : WorkerId
recovery_worker = max_u64

pub data CheckpointDivergence : Type 0 where
  no_checkpoint : CheckpointDivergence
  checkpoint_unreadable : CheckpointDivergence
  agreed : CheckpointDivergence
  journal_ahead : ℕ → ℕ → CheckpointDivergence
  sqlite_ahead : ℕ → ℕ → CheckpointDivergence
  same_coverage_different_intervals : ℕ → CheckpointDivergence

pub data PartFileExtent : Type 0 where
  intact : PartFileExtent
  reextended : ℕ → ℕ → PartFileExtent
  overlong : ℕ → ℕ → PartFileExtent

pub record Reconciliation : Type 0 where
  pub download_state : DownloadState
  pub error_kind : Option DownloadErrorKind
  pub intervals : IntervalMap
  pub covered_bytes : ℕ
  pub next_sequence : ℕ
  pub seal : Option Bytes
  pub divergence : CheckpointDivergence
  pub extent : PartFileExtent
  pub journal_tail_repaired : Bool
  pub space_reserved : Bool

pub data RecoveryError : Type 0 where
  unknown_download : RecoveryError
  already_terminal : DownloadState → RecoveryError
  metadata_error : MetadataError → RecoveryError
  part_file_error : PartFileError → RecoveryError
  io_error : String → RecoveryError
  interval_error : IntervalMapError → RecoveryError

abbrev pub Recovered {ℓ} : Type ℓ → Type ℓ
Recovered A = Result A RecoveryError

-- `last.end = end` if the last range ends where the block starts, `push` otherwise.
unfoldable pub push_block : List Range → ℕ → ℕ → List Range
push_block [] offset e = record { start = offset; end = e } ∷ []
push_block (last ∷ []) offset e =
    if last.end == offset
    then record { start = last.start; end = e } ∷ []
    else last ∷ record { start = offset; end = e } ∷ []
push_block (r ∷ s ∷ rest) offset e = r ∷ push_block (s ∷ rest) offset e

unfoldable pub merge_blocks : List Range → List CompletedBlock → Recovered (List Range)
merge_blocks merged [] = ok merged
merge_blocks merged (b ∷ bs) = elim (end b) [
  | err e ↦ err (io_error e.detail)
  | ok e ↦ merge_blocks (push_block merged b.offset e) bs
]

abbrev pub merge_adjacent : List CompletedBlock → Recovered (List Range)
merge_adjacent blocks = merge_blocks [] blocks

-- `?` on the interval map's error.
abbrev pub interval_result : {A : Type 0} → Result A IntervalMapError → Recovered A
interval_result (err e) = err (interval_error e)
interval_result (ok a) = ok a

abbrev pub add_covered : ℕ → ℕ → Recovered ℕ
add_covered covered size =
    if ltb max_u64 (covered + size)
    then err (io_error "covered byte count overflows u64")
    else ok (covered + size)

-- The loop over the merged ranges, with the bytes so far.
unfoldable pub rebuild : IntervalMap → ℕ → List Range → Recovered (IntervalMap × ℕ)
rebuild m covered [] = ok (m, covered)
rebuild m covered (r ∷ rs) =
    let (granted, after) = grant m r recovery_worker in
    let (done, next) = complete_range after r recovery_worker in
    interval_result granted >>= λ _. interval_result done >>= λ _.
    add_covered covered (r.end - r.start) >>= λ sum. rebuild next sum rs

abbrev pub same_ranges : List CompleteInterval → List Range → Bool
same_ranges [] [] = true
same_ranges (i ∷ is) (r ∷ rs) =
    let rest = same_ranges is rs in i.start == r.start && i.end == r.end && rest
same_ranges _ _ = false

abbrev pub compare_coverage : Checkpoint → ℕ → List Range → CheckpointDivergence
compare_coverage cached journal_covered merged =
    if cached.covered_bytes == journal_covered
    then (if same_ranges cached.intervals merged
        then agreed
        else same_coverage_different_intervals journal_covered)
    else if ltb cached.covered_bytes journal_covered
    then journal_ahead journal_covered cached.covered_bytes
    else sqlite_ahead journal_covered cached.covered_bytes

unfoldable pub compare_checkpoint :
    Stored (Option PersistedCheckpoint) → ℕ → List Range → CheckpointDivergence
compare_checkpoint (err e) journal_covered merged = checkpoint_unreadable
compare_checkpoint (ok none) journal_covered merged = no_checkpoint
compare_checkpoint (ok (some cached)) journal_covered merged =
    compare_coverage cached.checkpoint journal_covered merged
