-- ===== src/Writer/Flush.antt =====
-- Whatever the storage answers, `flush` keeps the invariant.
use downpour.Prelude.{
  ℕ, ◌+◌, Bool, true, false, ◌≡◌, refl, ltb, if◌then◌else◌, max_u64, Result, ok, err, ◌>>◌, All,
  length,
}
use downpour.Intervals.{IntervalMap, IntervalMapError}
use downpour.Journal.{Bytes}
use downpour.Writer.Batch.{
  DurableData, DurableJournal, DurableWriter, Written, Committed, is_empty_batch, complete_staged,
  records_of,
}
use downpour.Writer.{
  append_all, commit, sync_journal, append_batch, flush_batch, flush_checked, flush, flush_if_due,
  ensure_usable, ensure_interval_identity,
}
use downpour.Writer.Laws.{DataLaws, JournalLaws}
use downpour.Writer.Complete.{Completed, complete_staged-Completed}
use downpour.Writer.Honest.{IsHonest, journal-IsHonest, sync_data-IsHonest}
use downpour.Writer.Commit.{
  Stable, sync_data-Stable, append_all-keeps, append_all-Appended, sync_data-Logged,
  commit-IsHonest,
}

module _ {D J : Type 0} (files : DurableData D) (journals : DurableJournal J) (hash : Bytes → Bytes)
    (dl : DataLaws files) (jl : JournalLaws journals) where
  -- The invariant of what a method leaves.
  abbrev pub LeavesHonest : Committed D J → Type 0
  LeavesHonest out = IsHonest files journals hash dl jl out.1.file out.1.journal out.1.staged out.2

  abbrev Honest : DurableWriter D J → IntervalMap → Type 0
  Honest w m = IsHonest files journals hash dl jl w.file w.journal w.staged m

  abbrev AllStable : DurableWriter D J → Type 0
  AllStable w = All (Stable files journals hash dl jl w.file) w.staged

  -- Either branch will do.
  pub if-LeavesHonest :
      (b : Bool) (x y : Committed D J)
      → LeavesHonest x
      → LeavesHonest y
      → LeavesHonest (if b then x else y)
  if-LeavesHonest true x y h k = h
  if-LeavesHonest false x y h k = k

  commit-LeavesHonest :
      (w : DurableWriter D J) (m next : IntervalMap) (result : Written (Unit {0}))
      → Honest w m
      → AllStable w
      → (result ≡ ok tt → All (jl.Logged w.journal) (records_of w.next_sequence w.staged))
      → Completed m w.staged next
      → LeavesHonest (commit files journals w m next result)
  commit-LeavesHonest w m next (err e) h s l c = h
  commit-LeavesHonest w m next (ok tt) h s l c =
      commit-IsHonest files journals hash dl jl w.file w.journal w.next_sequence w.staged m next h s
        (l refl) c

  sync_journal-LeavesHonest :
      (w : DurableWriter D J) (m next : IntervalMap) (result : Written (Unit {0}))
      → Honest w m
      → AllStable w
      → (result ≡ ok tt → All (jl.Appended w.journal) (records_of w.next_sequence w.staged))
      → Completed m w.staged next
      → LeavesHonest (sync_journal files journals w m next result)
  sync_journal-LeavesHonest w m next (err e) h s a c = h
  sync_journal-LeavesHonest w m next (ok tt) h s a c =
      let j = (journals.sync_data w.journal).1 in
      commit-LeavesHonest (record w { journal = j }) m next (journals.sync_data w.journal).0
        (journal-IsHonest files journals hash dl jl w.file w.journal j w.staged m
          (λ r k. jl.sync_keeps_logged w.journal r k) h)
        s
        (λ done.
          sync_data-Logged files journals hash dl jl w.journal (records_of w.next_sequence w.staged)
            done (a refl))
        c

  append_batch-LeavesHonest :
      (w : DurableWriter D J) (m next : IntervalMap) (result : Written (Unit {0}))
      → Honest w m
      → (result ≡ ok tt → AllStable w)
      → Completed m w.staged next
      → LeavesHonest (append_batch files journals w m next result)
  append_batch-LeavesHonest w m next (err e) h s c = h
  append_batch-LeavesHonest w m next (ok tt) h s c =
      let records = records_of w.next_sequence w.staged in
      let appended = append_all files journals w.journal records in
      sync_journal-LeavesHonest (record w { journal = appended.1 }) m next appended.0
        (journal-IsHonest files journals hash dl jl w.file w.journal appended.1 w.staged m
          (λ r k.
            append_all-keeps files journals hash dl jl (λ j. jl.Logged j r)
              (λ j x l. jl.append_keeps_logged j x r l) w.journal records k)
          h)
        (s refl) (λ done. append_all-Appended files journals hash dl jl w.journal records done) c

  flush_batch-LeavesHonest :
      (w : DurableWriter D J) (m : IntervalMap) (result : Result IntervalMap IntervalMapError)
      → Honest w m
      → complete_staged m w.staged ≡ result
      → LeavesHonest (flush_batch files journals w m result)
  flush_batch-LeavesHonest w m (err e) h c = h
  flush_batch-LeavesHonest w m (ok next) h c =
      if-LeavesHonest (ltb max_u64 (w.next_sequence + length w.staged)) _ _ h (
        append_batch-LeavesHonest (record w { file = (files.sync_data w.file).1 }) m next
          (files.sync_data w.file).0
          (sync_data-IsHonest files journals hash dl jl w.file w.journal w.staged m h)
          (λ done. sync_data-Stable files journals hash dl jl w.file w.staged done h.held)
          (complete_staged-Completed m w.staged next h.canonical c))

  flush_checked-LeavesHonest :
      (w : DurableWriter D J) (m : IntervalMap) (result : Written (Unit {0}))
      → Honest w m
      → LeavesHonest (flush_checked files journals w m result)
  flush_checked-LeavesHonest w m (err e) h = h
  flush_checked-LeavesHonest w m (ok tt) h =
      if-LeavesHonest (is_empty_batch w.staged) _ _ h
        (flush_batch-LeavesHonest w m (complete_staged m w.staged) h refl)

  pub flush-LeavesHonest :
      (w : DurableWriter D J) (m : IntervalMap)
      → Honest w m
      → LeavesHonest (flush files journals w m)
  unfolding flush
  flush-LeavesHonest w m h =
      flush_checked-LeavesHonest w m
        (ensure_usable files journals w >> ensure_interval_identity files journals w m) h

  pub flush_if_due-LeavesHonest :
      (w : DurableWriter D J) (m : IntervalMap) (now : ℕ)
      → Honest w m
      → LeavesHonest (flush_if_due files journals w m now)
  unfolding flush_if_due
  flush_if_due-LeavesHonest w m now h =
      if-LeavesHonest w.is_poisoned _ _ h (if-LeavesHonest _ _ _ (flush-LeavesHonest w m h) h)
