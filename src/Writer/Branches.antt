-- ===== src/Writer/Branches.antt =====
-- `flush` on every branch: what a refusal and a commit leave.
use downpour.Prelude.{
  ℕ, ◌+◌, ◌<◌, Bool, true, false, none, List, [], ◌∷◌, ◌≡◌, ◌≢◌, ◌⊎◌, refl, arith, inl, inr, ltb,
  ◌==◌, if◌then◌else◌, max_u64, Result, ok, err, ◌>>◌, length,
}
use downpour.Intervals.{IntervalMap, IntervalMapError}
use downpour.Writer.Batch.{
  DurableData, DurableJournal, StagedBlock, DurableWriter, WriterError, Written, Committed,
  interval, poisoned, sequence_exhausted, interval_length_mismatch, is_empty_batch, complete_staged,
  records_of, blocks_of, add_durable,
}
use downpour.Writer.{
  append_all, commit, sync_journal, append_batch, flush_batch, flush_checked, flush,
}

module _ {D J : Type 0} (files : DurableData D) (journals : DurableJournal J) where
  abbrev pub appended : DurableWriter D J → Written (Unit {0}) × J
  appended w = append_all files journals w.journal (records_of w.next_sequence w.staged)

  abbrev pub synced : DurableWriter D J → Written (Unit {0}) × J
  synced w = journals.sync_data (appended w).1

  -- Where a flush of `w` stops with an error, and the writer `v` that it leaves: the journal is touched
  -- only behind a data sync that succeeded, and synced only behind appends that all succeeded.
  pub data Stopped (w : DurableWriter D J) (m : IntervalMap) (v : DurableWriter D J)
      (error : WriterError) : Type 0 where
    was_poisoned : w.is_poisoned ≡ true → error ≡ poisoned → v ≡ w → Stopped w m v error
    other_length :
        m.total_length ≢ files.total_length w.file
        → error ≡ interval_length_mismatch (files.total_length w.file) m.total_length
        → v ≡ w
        → Stopped w m v error
    not_owned :
        (e : IntervalMapError)
        → complete_staged m w.staged ≡ err e
        → error ≡ interval e
        → v ≡ record w { is_poisoned = true }
        → Stopped w m v error
    no_sequences :
        max_u64 < w.next_sequence + length w.staged
        → error ≡ sequence_exhausted
        → v ≡ w
        → Stopped w m v error
    data_not_synced :
        (files.sync_data w.file).0 ≡ err error
        → v ≡ record w { file = (files.sync_data w.file).1; is_poisoned = true }
        → Stopped w m v error
    not_appended :
        (files.sync_data w.file).0 ≡ ok tt
        → (appended w).0 ≡ err error
        → v ≡ record w {
          file = (files.sync_data w.file).1;
          journal = (appended w).1;
          is_poisoned = true;
        }
        → Stopped w m v error
    journal_not_synced :
        (files.sync_data w.file).0 ≡ ok tt
        → (appended w).0 ≡ ok tt
        → (synced w).0 ≡ err error
        → v ≡ record w {
          file = (files.sync_data w.file).1;
          journal = (synced w).1;
          is_poisoned = true;
        }
        → Stopped w m v error

  -- The map and the batch are as they were.
  pub record Refused (w : DurableWriter D J) (m : IntervalMap) (out : Committed D J) : Type 0 where
    pub error : WriterError
    pub result : out.0 ≡ err error
    pub same_map : out.2 ≡ m
    pub same_batch : out.1.staged ≡ w.staged
    pub same_sequence : out.1.next_sequence ≡ w.next_sequence
    pub stopped : Stopped w m out.1 error

  -- The storage accepted the data sync, all appends and the journal sync.
  pub record Flushed (w : DurableWriter D J) (m : IntervalMap) (out : Committed D J) : Type 0 where
    pub completed : complete_staged m w.staged ≡ ok out.2
    pub data_synced : (files.sync_data w.file).0 ≡ ok tt
    pub all_appended : (appended w).0 ≡ ok tt
    pub journal_synced : (synced w).0 ≡ ok tt
    pub result : out.0 ≡ ok (blocks_of w.next_sequence w.staged)
    pub file : out.1.file ≡ (files.sync_data w.file).1
    pub journal : out.1.journal ≡ (synced w).1
    pub next_sequence : out.1.next_sequence ≡ w.next_sequence + length w.staged
    pub durable_bytes : out.1.durable_bytes ≡ add_durable w.durable_bytes w.staged
    pub emptied : out.1.staged ≡ []
    pub no_bytes : out.1.staged_bytes ≡ 0
    pub no_start : out.1.first_staged_at ≡ none
    pub usable : out.1.is_poisoned ≡ w.is_poisoned

  abbrev pub Branch : DurableWriter D J → IntervalMap → Committed D J → Type 0
  Branch w m out = Refused w m out ⊎ ((w.staged ≡ []) × (out ≡ (ok [], w, m))) ⊎ Flushed w m out

  Stopped-Refused :
      (w v : DurableWriter D J) (m : IntervalMap) (e : WriterError)
      → v.staged ≡ w.staged
      → v.next_sequence ≡ w.next_sequence
      → Stopped w m v e
      → Refused w m (err e, v, m)
  Stopped-Refused w v m e staged sequence stopped = record {
    error = e;
    result = refl;
    same_map = refl;
    same_batch = staged;
    same_sequence = sequence;
    stopped = stopped;
  }

  module _ (w : DurableWriter D J) (m next : IntervalMap)
      (completes : complete_staged m w.staged ≡ ok next) where
    abbrev on_synced_file : DurableWriter D J
    on_synced_file = record w { file = (files.sync_data w.file).1 }

    commit-Branch :
        (result : Written (Unit {0}))
        → (files.sync_data w.file).0 ≡ ok tt
        → (appended w).0 ≡ ok tt
        → (synced w).0 ≡ result
        → Branch w m
            (commit files journals (record on_synced_file { journal = (synced w).1 }) m next result)
    commit-Branch (err e) s a j =
        inl (Stopped-Refused w _ m e refl refl (journal_not_synced s a j refl))
    commit-Branch (ok tt) s a j = inr (
        inr (record {
          completed = completes;
          data_synced = s;
          all_appended = a;
          journal_synced = j;
          result = refl;
          file = refl;
          journal = refl;
          next_sequence = refl;
          durable_bytes = refl;
          emptied = refl;
          no_bytes = refl;
          no_start = refl;
          usable = refl;
        }))

    sync_journal-Branch :
        (result : Written (Unit {0}))
        → (files.sync_data w.file).0 ≡ ok tt
        → (appended w).0 ≡ result
        → Branch w m (
            sync_journal files journals
              (record on_synced_file { journal = (appended w).1 })
              m
              next
              result)
    sync_journal-Branch (err e) s a =
        inl (Stopped-Refused w _ m e refl refl (not_appended s a refl))
    sync_journal-Branch (ok tt) s a = commit-Branch (synced w).0 s a refl

    append_batch-Branch :
        (result : Written (Unit {0}))
        → (files.sync_data w.file).0 ≡ result
        → Branch w m (append_batch files journals on_synced_file m next result)
    append_batch-Branch (err e) s = inl (Stopped-Refused w _ m e refl refl (data_not_synced s refl))
    append_batch-Branch (ok tt) s = sync_journal-Branch (appended w).0 s refl

    fits-Branch :
        (full : Bool)
        → ltb max_u64 (w.next_sequence + length w.staged) ≡ full
        → Branch w m (
            if full
            then (err sequence_exhausted, w, m)
            else append_batch files journals on_synced_file m next (files.sync_data w.file).0)
    fits-Branch true h = inl (Stopped-Refused w w m _ refl refl (no_sequences (over _ h) refl refl))
      where
        over : (n : ℕ) → ltb max_u64 n ≡ true → max_u64 < n
        over n h = ground arith
    fits-Branch false h = append_batch-Branch (files.sync_data w.file).0 refl

  flush_batch-Branch :
      (w : DurableWriter D J) (m : IntervalMap) (result : Result IntervalMap IntervalMapError)
      → complete_staged m w.staged ≡ result
      → Branch w m (flush_batch files journals w m result)
  flush_batch-Branch w m (err e) c =
      inl (Stopped-Refused w _ m _ refl refl (not_owned e c refl refl))
  flush_batch-Branch w m (ok next) c =
      fits-Branch w m next c (ltb max_u64 (w.next_sequence + length w.staged)) refl

  empty-Branch :
      (w : DurableWriter D J) (m : IntervalMap) (empty : Bool)
      → is_empty_batch w.staged ≡ empty
      → Branch w m (
          if empty
          then (ok [], w, m)
          else flush_batch files journals w m (complete_staged m w.staged))
  empty-Branch w m true e = inr (inl (no_blocks w.staged e, refl))
    where
      no_blocks : (bs : List StagedBlock) → is_empty_batch bs ≡ true → bs ≡ []
      no_blocks [] h = refl
      no_blocks (b ∷ bs) h = cc
  empty-Branch w m false e = flush_batch-Branch w m (complete_staged m w.staged) refl

  usable-Branch :
      (w : DurableWriter D J) (m : IntervalMap) (dead same : Bool)
      → w.is_poisoned ≡ dead
      → (m.total_length == files.total_length w.file) ≡ same
      → Branch w m (
          flush_checked files journals w m (
            (if dead then err poisoned else ok tt)
            >> (if same
                then ok tt
                else err (interval_length_mismatch (files.total_length w.file) m.total_length))))
  usable-Branch w m true same p l =
      inl (Stopped-Refused w w m _ refl refl (was_poisoned p refl refl))
  usable-Branch w m false false p l =
      inl (Stopped-Refused w w m _ refl refl (other_length (differ _ _ l) refl refl))
    where
      differ : (a b : ℕ) → (a == b) ≡ false → a ≢ b
      differ a b h = ground arith
  usable-Branch w m false true p l = empty-Branch w m (is_empty_batch w.staged) refl

  pub flush_branches :
      (w : DurableWriter D J) (m : IntervalMap) → Branch w m (flush files journals w m)
  unfolding flush
  flush_branches w m =
      usable-Branch w m w.is_poisoned (m.total_length == files.total_length w.file) refl refl
