-- ===== src/Writer/Accumulate.antt =====
-- The batch that `stage` builds can be completed: its blocks are apart, and their workers own them.
use mathlib.Core.Path.{subst}
use downpour.Prelude.{
  ℕ, Bool, true, false, Option, none, some, List, [], ◌∷◌, ◌++◌, ◌≡◌, refl, sym, inl, inr,
  if◌then◌else◌, ok, err, ok-then, All,
}
use downpour.Intervals.{IntervalMap, WorkerId}
use downpour.Intervals.Partition.{IsCanonical}
use downpour.Journal.{Bytes}
use downpour.Writer.Apart.{Beside, ensure_not_staged-Beside}
use downpour.Writer.Batch.{
  DurableData, DurableJournal, StagedBlock, DurableWriter, WriterError, Written, Committed,
  no_space_offset,
}
use downpour.Writer.{flush, stage, stage_checks, stage_checked, stage_written, write_failed}
use downpour.Writer.Complete.{complete_range-ok}
use downpour.Writer.Stage.{ensure_current_grant-ok, range_at}
use downpour.Writer.Branches.{Branch, flush_branches}
use downpour.Writer.Ready.{Owned, IsReady}

IsReady-append :
    (m : IntervalMap) (bs : List StagedBlock) (b : StagedBlock)
    → IsReady m bs
    → Owned m b
    → All (Beside b.range) bs
    → IsReady m (bs ++ b ∷ [])
IsReady-append m [] b h own apart = (own, tt, tt)
IsReady-append m (x ∷ xs) b h own apart =
    (h.0, others xs h.1, IsReady-append m xs b h.2 own apart.1)
  where
    swapped : Beside b.range x → Beside x.range b
    swapped (inl k) = inr k
    swapped (inr k) = inl k

    others : (l : List StagedBlock) → All (Beside x.range) l → All (Beside x.range) (l ++ b ∷ [])
    others [] k = (swapped apart.0, tt)
    others (y ∷ ys) k = (k.0, others ys k.1)

module _ {D J : Type 0} (files : DurableData D) (journals : DurableJournal J) where
  abbrev LeavesReady : Committed D J → Type 0
  LeavesReady out = IsReady out.2 out.1.staged

  if-LeavesReady :
      (b : Bool) (x y : Committed D J)
      → LeavesReady x
      → LeavesReady y
      → LeavesReady (if b then x else y)
  if-LeavesReady true x y h k = h
  if-LeavesReady false x y h k = k

  -- A refusal leaves the map and the batch, and a commit leaves no batch.
  flush-LeavesReady :
      (w : DurableWriter D J) (m : IntervalMap)
      → IsReady m w.staged
      → LeavesReady (flush files journals w m)
  flush-LeavesReady w m h = branch (flush files journals w m) (flush_branches files journals w m)
    where
      branch : (out : Committed D J) → Branch files journals w m out → LeavesReady out
      branch out (inl refused) = rw (refused.same_map, refused.same_batch) h
      branch out (inr (inl empty)) = subst LeavesReady (sym empty.1) h
      branch out (inr (inr flushed)) = rw flushed.emptied tt

  write_failed-LeavesReady :
      (w : DurableWriter D J) (m : IntervalMap) (e : WriterError) (at : Option ℕ)
      → IsReady m w.staged
      → LeavesReady (write_failed files journals w m e at)
  write_failed-LeavesReady w m e none h = h
  write_failed-LeavesReady w m e (some at) h = flush-LeavesReady w m h

  stage_written-LeavesReady :
      (unix : Bool) (w : DurableWriter D J) (m : IntervalMap) (b : StagedBlock) (now : ℕ)
      (result : Written (Unit {0}))
      → IsReady m w.staged
      → Owned m b
      → All (Beside b.range) w.staged
      → LeavesReady (stage_written files journals unix w m b now result)
  stage_written-LeavesReady unix w m b now (err e) h own apart =
      write_failed-LeavesReady w m e (no_space_offset unix e b.range.start) h
  stage_written-LeavesReady unix w m b now (ok tt) h own apart =
      let joined = IsReady-append m w.staged b h own apart in
      if-LeavesReady _ _ _ (flush-LeavesReady _ m joined) joined

  stage_checked-LeavesReady :
      (hash : Bytes → Bytes) (unix : Bool) (w : DurableWriter D J) (m : IntervalMap)
      (worker : WorkerId) (offset : ℕ) (bytes : Bytes) (now : ℕ) (result : Written (Unit {0}))
      → IsCanonical m
      → IsReady m w.staged
      → stage_checks files journals w m worker offset bytes ≡ result
      → LeavesReady (stage_checked files journals hash unix w m worker offset bytes now result)
  stage_checked-LeavesReady hash unix w m worker offset bytes now (err e) c h k = h
  stage_checked-LeavesReady hash unix w m worker offset bytes now (ok tt) c h k =
      let (others, beside) = ok-then _ _ tt (ok-then _ _ tt k).0 in
      let grant = (ok-then _ _ tt others).1 in
      let owned =
        complete_range-ok m (range_at offset bytes) worker c
          (ensure_current_grant-ok m (range_at offset bytes) worker grant) in
      stage_written-LeavesReady unix
        (record w { file = (files.write_all_at w.file offset bytes).1 }) m _ now
        (files.write_all_at w.file offset bytes).0 h (owned.0, owned.1)
        (ensure_not_staged-Beside (range_at offset bytes) w.staged beside)

  -- `stage` on a canonical map, whatever the storage answers and with any arguments, leaves a batch
  -- whose blocks are apart and in-progress ranges of their workers in the map that it leaves, if the
  -- batch was like that before.
  pub stage-IsReady :
      (hash : Bytes → Bytes) (unix : Bool) (w : DurableWriter D J) (m : IntervalMap)
      (worker : WorkerId) (offset : ℕ) (bytes : Bytes) (now : ℕ)
      → IsCanonical m
      → IsReady m w.staged
      → let out = stage files journals hash unix w m worker offset bytes now in
        IsReady out.2 out.1.staged
  unfolding stage
  stage-IsReady hash unix w m worker offset bytes now c h =
      stage_checked-LeavesReady hash unix w m worker offset bytes now
        (stage_checks files journals w m worker offset bytes) c h refl
