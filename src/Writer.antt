-- ===== src/Writer.antt =====
-- crates/downpour-storage/src/writer.rs: block commits in the order write, data sync, journal append,
-- journal sync, complete. A method with `&mut self` returns its result beside the writer that it
-- leaves, and the interval map. blake3 and the target platform are arguments. A release build is
-- modelled: `debug_assert!` does nothing.
pub mod Batch
pub mod Laws
pub mod Complete
pub mod Honest
pub mod Apart
pub mod Commit
pub mod Flush
pub mod Stage
pub mod Reach
pub mod Branches
pub mod Ready
pub mod Accumulate
pub mod Files
use downpour.Prelude.{
  ℕ, suc, ◌+◌, ◌-◌, ◌*◌, Bool, true, false, not, ◌||◌, ◌&&◌, Option, none, some, List, [], ◌∷◌,
  ◌++◌, ltb, leb, ◌==◌, if◌then◌else◌, max_u64, length, Result, ok, err, ◌>>=◌, ◌>>◌,
}
use downpour.Intervals.{IntervalMap, IntervalMapError, Range, WorkerId}
use downpour.Journal.{Bytes, FramedRecord}
use downpour.Writer.Batch.{
  WriterError, interval, length_mismatch, interval_length_mismatch, empty_block, block_too_large,
  range_overflow, batch_length_overflow, sequence_exhausted, no_space, poisoned, Written,
  DurableData, DurableJournal, StagedBlock, DurableWriter, Committed, journal_flush_interval,
  journal_flush_bytes, complete_staged, records_of, blocks_of, add_durable, is_empty_batch,
  ensure_not_staged, ensure_current_grant, no_space_offset, guard,
}

module _ {D J : Type 0} (files : DurableData D) (journals : DurableJournal J) where
  unfoldable pub try_new : D → J → ℕ → Written (DurableWriter D J)
  try_new file journal next_sequence =
      if not (files.total_length file == journals.total_length journal)
      then err (length_mismatch (files.total_length file) (journals.total_length journal))
      else ok (record {
        file = file;
        journal = journal;
        next_sequence = next_sequence;
        staged = [];
        staged_bytes = 0;
        first_staged_at = none;
        is_poisoned = false;
        disk_full_at = none;
        durable_bytes = 0;
      })

  abbrev pub ensure_usable : DurableWriter D J → Written (Unit {0})
  ensure_usable w = if w.is_poisoned then err poisoned else ok tt

  abbrev pub ensure_interval_identity : DurableWriter D J → IntervalMap → Written (Unit {0})
  ensure_interval_identity w m =
      if m.total_length == files.total_length w.file
      then ok tt
      else err (interval_length_mismatch (files.total_length w.file) m.total_length)

  unfoldable pub append_all : J → List FramedRecord → Written (Unit {0}) × J
  append_all j [] = (ok tt, j)
  append_all j (r ∷ rs) =
      let (result, next) = journals.append j r in
      elim result [ err e ↦ (err e, next) | ok _ ↦ append_all next rs ]

  -- `self.poisoned = true; return Err(error)`
  abbrev pub poison : WriterError → DurableWriter D J → IntervalMap → Committed D J
  poison e w m = (err e, record w { is_poisoned = true }, m)

  -- Behind the journal sync.
  abbrev pub commit :
      DurableWriter D J → IntervalMap → IntervalMap → Written (Unit {0}) → Committed D J
  commit w m next (err e) = poison e w m
  commit w m next (ok _) = (
    ok (blocks_of w.next_sequence w.staged),
    record w {
      next_sequence = w.next_sequence + length w.staged;
      durable_bytes = add_durable w.durable_bytes w.staged;
      staged = [];
      staged_bytes = 0;
      first_staged_at = none;
    },
    next,
  )

  -- Behind the appends.
  abbrev pub sync_journal :
      DurableWriter D J → IntervalMap → IntervalMap → Written (Unit {0}) → Committed D J
  sync_journal w m next (err e) = poison e w m
  sync_journal w m next (ok _) =
      let (result, j) = journals.sync_data w.journal in
      commit (record w { journal = j }) m next result

  -- Behind the data sync.
  abbrev pub append_batch :
      DurableWriter D J → IntervalMap → IntervalMap → Written (Unit {0}) → Committed D J
  append_batch w m next (err e) = poison e w m
  append_batch w m next (ok _) =
      let (result, j) = append_all w.journal (records_of w.next_sequence w.staged) in
      sync_journal (record w { journal = j }) m next result

  abbrev pub flush_batch :
      DurableWriter D J → IntervalMap → Result IntervalMap IntervalMapError → Committed D J
  flush_batch w m (err e) = poison (interval e) w m
  flush_batch w m (ok next) =
      if ltb max_u64 (w.next_sequence + length w.staged)
      then (err sequence_exhausted, w, m)
      else let (result, d) = files.sync_data w.file in
        append_batch (record w { file = d }) m next result

  abbrev pub flush_checked : DurableWriter D J → IntervalMap → Written (Unit {0}) → Committed D J
  flush_checked w m (err e) = (err e, w, m)
  flush_checked w m (ok _) =
      if is_empty_batch w.staged
      then (ok [], w, m)
      else flush_batch w m (complete_staged m w.staged)

  unfoldable pub flush : DurableWriter D J → IntervalMap → Committed D J
  flush w m = flush_checked w m (ensure_usable w >> ensure_interval_identity w m)

  abbrev due : Option ℕ → ℕ → Bool
  due none now = false
  due (some started) now = leb started now && leb journal_flush_interval (now - started)

  unfoldable pub flush_if_due : DurableWriter D J → IntervalMap → ℕ → Committed D J
  flush_if_due w m now =
      if w.is_poisoned
      then (err poisoned, w, m)
      else if due w.first_staged_at now
      then flush w m
      else (ok [], w, m)

  -- The checks of `stage` in front of the write.
  abbrev pub stage_checks :
      DurableWriter D J → IntervalMap → WorkerId → ℕ → Bytes → Written (Unit {0})
  stage_checks w m worker offset bytes =
      ensure_usable w
      >> ensure_interval_identity w m
      >> guard (not (length bytes == 0)) empty_block
      >> guard (leb (length bytes) 4294967295) (block_too_large (length bytes))
      >> guard (leb (offset + length bytes) max_u64) (range_overflow offset (length bytes))
      >> ensure_current_grant m (record { start = offset; end = offset + length bytes }) worker
      >> ensure_not_staged (record { start = offset; end = offset + length bytes }) w.staged
      >> guard (leb (w.staged_bytes + length bytes) max_u64) batch_length_overflow

  -- Behind a write that failed. The result of the flush is only logged.
  abbrev pub write_failed : DurableWriter D J → IntervalMap → WriterError → Option ℕ → Committed D J
  write_failed w m e none = poison e w m
  write_failed w m e (some at) =
      let (_, flushed, next) = flush w m in
      (err (no_space at), record flushed { disk_full_at = some at }, next)

  abbrev first_time : Option ℕ → ℕ → Option ℕ
  first_time none now = some now
  first_time (some t) now = some t

  abbrev pub stage_written :
      Bool → DurableWriter D J → IntervalMap → StagedBlock → ℕ → Written (Unit {0}) → Committed D J
  stage_written unix w m b now (err e) = write_failed w m e (no_space_offset unix e b.range.start)
  stage_written unix w m b now (ok _) =
      let staged : DurableWriter D J = record w {
        staged = w.staged ++ b ∷ [];
        staged_bytes = w.staged_bytes + (b.range.end - b.range.start);
        first_staged_at = first_time w.first_staged_at now;
      } in
      if leb journal_flush_bytes staged.staged_bytes then flush staged m else (ok [], staged, m)

  abbrev pub stage_checked :
      (Bytes → Bytes)
      → Bool
      → DurableWriter D J
      → IntervalMap
      → WorkerId
      → ℕ
      → Bytes
      → ℕ
      → Written (Unit {0})
      → Committed D J
  stage_checked hash unix w m worker offset bytes now (err e) = (err e, w, m)
  stage_checked hash unix w m worker offset bytes now (ok _) =
      let (result, d) = files.write_all_at w.file offset bytes in
      stage_written unix (record w { file = d }) m
        (record {
          range = record { start = offset; end = offset + length bytes };
          record_length = length bytes;
          worker = worker;
          blake3 = hash bytes;
        })
        now result

  unfoldable pub stage :
      (Bytes → Bytes)
      → Bool
      → DurableWriter D J
      → IntervalMap
      → WorkerId
      → ℕ
      → Bytes
      → ℕ
      → Committed D J
  stage hash unix w m worker offset bytes now =
      stage_checked hash unix w m worker offset bytes now (stage_checks w m worker offset bytes)
