-- ===== src/Writer/Stage.antt =====
-- Whatever the storage answers, `stage` keeps the invariant.
use downpour.Prelude.{
  ℕ, ◌+◌, ◌<◌, Bool, true, false, not, Option, none, some, ◌≡◌, refl, arith, ◌==◌, Result, ok, err,
  ok-then, All, length,
}
use downpour.Intervals.{IntervalMap, IntervalMapError, Range, WorkerId, in_progress, complete_range}
use downpour.Intervals.Match.{AllIn}
use downpour.Journal.{Bytes}
use downpour.Writer.Batch.{
  DurableData, DurableJournal, StagedBlock, DurableWriter, WriterError, Written, no_space_offset,
  guard, empty_block, from_interval, ensure_current_grant,
}
use downpour.Writer.{stage_checks, write_failed, stage_written, stage_checked, stage}
use downpour.Writer.Laws.{DataLaws, JournalLaws}
use downpour.Writer.Apart.{Beside, ensure_not_staged-Beside}
use downpour.Writer.Complete.{complete_range-ok}
use downpour.Writer.Honest.{Held, IsHonest, write_all_at-IsHonest, stage-IsHonest}
use downpour.Writer.Flush.{LeavesHonest, if-LeavesHonest, flush-LeavesHonest}

pub ensure_current_grant-ok :
    (m : IntervalMap) (r : Range) (worker : WorkerId)
    → ensure_current_grant m r worker ≡ ok tt
    → (complete_range m r worker).0 ≡ ok tt
unfolding ensure_current_grant
ensure_current_grant-ok m r worker h = granted (complete_range m r worker).0 h
  where
    granted : (o : Result (Unit {0}) IntervalMapError) → from_interval o ≡ ok tt → o ≡ ok tt
    granted (ok tt) k = refl
    granted (err e) k = cc

guard-ok : (test : Bool) (e : WriterError) → guard test e ≡ ok tt → test ≡ true
guard-ok true e h = refl
guard-ok false e h = cc

some_byte : (n : ℕ) → not (n == 0) ≡ true → 0 < n
some_byte n h = ground arith

abbrev pub range_at : ℕ → Bytes → Range
range_at offset bytes = record { start = offset; end = offset + length bytes }

module _ {D J : Type 0} (files : DurableData D) (journals : DurableJournal J) (hash : Bytes → Bytes)
    (dl : DataLaws files) (jl : JournalLaws journals) where
  abbrev Honest : DurableWriter D J → IntervalMap → Type 0
  Honest w m = IsHonest files journals hash dl jl w.file w.journal w.staged m

  -- What the checks found.
  pub record Admitted (w : DurableWriter D J) (m : IntervalMap) (worker : WorkerId) (offset : ℕ)
      (bytes : Bytes) : Type 0 where
    pub full : 0 < length bytes
    pub own : AllIn (range_at offset bytes) (in_progress worker) m.intervals
    pub beside : All (Beside (range_at offset bytes)) w.staged

  stage_checks-Admitted :
      (w : DurableWriter D J) (m : IntervalMap) (worker : WorkerId) (offset : ℕ) (bytes : Bytes)
      → Honest w m
      → stage_checks files journals w m worker offset bytes ≡ ok tt
      → Admitted w m worker offset bytes
  stage_checks-Admitted w m worker offset bytes h e =
      let a = (ok-then _ _ tt e).0 in
      let (b, beside) = ok-then _ _ tt a in
      let (c, grant) = ok-then _ _ tt b in
      let d = (ok-then _ _ tt c).0 in
      let f = (ok-then _ _ tt d).0 in
      let g = (ok-then _ _ tt f).1 in
      let some_bytes : not (length bytes == 0) ≡ true =
        guard-ok (not (length bytes == 0)) empty_block g in
      record {
        full = some_byte (length bytes) some_bytes;
        own =
            (complete_range-ok m (range_at offset bytes) worker h.canonical
              (ensure_current_grant-ok m (range_at offset bytes) worker grant)).1;
        beside = ensure_not_staged-Beside (range_at offset bytes) w.staged beside;
      }

  write_failed-LeavesHonest :
      (w : DurableWriter D J) (m : IntervalMap) (e : WriterError) (at : Option ℕ)
      → Honest w m
      → LeavesHonest files journals hash dl jl (write_failed files journals w m e at)
  write_failed-LeavesHonest w m e none h = h
  write_failed-LeavesHonest w m e (some at) h = flush-LeavesHonest files journals hash dl jl w m h

  stage_written-LeavesHonest :
      (unix : Bool) (w : DurableWriter D J) (m : IntervalMap) (b : StagedBlock) (now : ℕ)
      (result : Written (Unit {0}))
      → Honest w m
      → (result ≡ ok tt → Held files journals hash dl jl w.file b)
      → LeavesHonest files journals hash dl jl (stage_written files journals unix w m b now result)
  stage_written-LeavesHonest unix w m b now (err e) h k =
      write_failed-LeavesHonest w m e (no_space_offset unix e b.range.start) h
  stage_written-LeavesHonest unix w m b now (ok tt) h k =
      let joined =
        stage-IsHonest files journals hash dl jl w.file w.journal w.staged m b h (k refl) in
      if-LeavesHonest files journals hash dl jl _ _ _
        (flush-LeavesHonest files journals hash dl jl _ m joined) joined

  stage_checked-LeavesHonest :
      (unix : Bool) (w : DurableWriter D J) (m : IntervalMap) (worker : WorkerId) (offset : ℕ)
      (bytes : Bytes) (now : ℕ) (result : Written (Unit {0}))
      → Honest w m
      → stage_checks files journals w m worker offset bytes ≡ result
      → LeavesHonest files journals hash dl jl
          (stage_checked files journals hash unix w m worker offset bytes now result)
  stage_checked-LeavesHonest unix w m worker offset bytes now (err e) h c = h
  stage_checked-LeavesHonest unix w m worker offset bytes now (ok tt) h c =
      let a = stage_checks-Admitted w m worker offset bytes h c in
      stage_written-LeavesHonest unix
        (record w { file = (files.write_all_at w.file offset bytes).1 }) m _ now
        (files.write_all_at w.file offset bytes).0
        (write_all_at-IsHonest files journals hash dl jl w.file w.journal w.staged m worker offset
          bytes a.full a.own a.beside h)
        (λ done. record {
          bytes = bytes;
          ends = refl;
          some_byte = a.full;
          recorded = refl;
          digest = refl;
          held = dl.write_holds w.file offset bytes done;
        })

  pub stage-LeavesHonest :
      (unix : Bool) (w : DurableWriter D J) (m : IntervalMap) (worker : WorkerId) (offset : ℕ)
      (bytes : Bytes) (now : ℕ)
      → Honest w m
      → LeavesHonest files journals hash dl jl
          (stage files journals hash unix w m worker offset bytes now)
  unfolding stage
  stage-LeavesHonest unix w m worker offset bytes now h =
      stage_checked-LeavesHonest unix w m worker offset bytes now
        (stage_checks files journals w m worker offset bytes) h refl
