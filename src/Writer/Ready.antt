-- ===== src/Writer/Ready.antt =====
-- A batch whose blocks are apart and still owned by their workers: on storage that works, a flush
-- that is due completes all of it.
use mathlib.Core.Path.{subst}
use downpour.Prelude.{
  ◌≢◌, ℕ, ◌+◌, ◌-◌, ◌≤◌, ◌<◌, true, false, some, List, [], ◌∷◌, ◌≡◌, refl, sym, ap, ◌∙◌, arith, inl,
  inr, ltb, leb, ◌==◌, within, if◌then◌else◌, max_u64, ok, length, All,
}
use downpour.Intervals.{IntervalMap, Range, in_progress, complete, complete_range}
use downpour.Intervals.Partition.{IsCanonical, byte_state}
use downpour.Intervals.Match.{AllIn, FitsIn}
use downpour.Intervals.Assign.{Assigned, complete_range_lem}
use downpour.Writer.Apart.{Beside}
use downpour.Writer.Batch.{
  DurableData, DurableJournal, StagedBlock, DurableWriter, is_empty_batch, complete_staged,
  record_of, records_of, blocks_of, journal_flush_interval,
}
use downpour.Writer.{append_all, flush_batch, flush, flush_if_due}
use downpour.Writer.Branches.{Flushed, flush_branches}

-- The block can be completed.
abbrev pub Owned : IntervalMap → StagedBlock → Type 0
Owned m b = FitsIn b.range m.total_length × AllIn b.range (in_progress b.worker) m.intervals

abbrev pub IsReady : IntervalMap → List StagedBlock → Type 0
IsReady m [] = Unit {0}
IsReady m (b ∷ bs) = Owned m b × All (Beside b.range) bs × IsReady m bs

-- The others are owned as before when one block is completed.
Owned-Assigned :
    (m n : IntervalMap) (r : Range) (b : StagedBlock)
    → Assigned m r complete n
    → Beside r b
    → Owned m b
    → Owned n b
Owned-Assigned m n r b a beside ((some_byte, bound), own) = (
  (some_byte, subst (λ k. b.range.end ≤ k) (sym a.same_length) bound),
  λ x lo hi.
      a.bytes x
      ∙ ap (λ t. if t then some complete else byte_state m.intervals x) (outside x lo hi beside)
      ∙ own x lo hi,
)
  where
    outside :
        (x : ℕ) → b.range.start ≤ x → x < b.range.end → Beside r b → within r.start r.end x ≡ false
    outside x lo hi (inl before) = ground arith
    outside x lo hi (inr behind) = ground arith

IsReady-Assigned :
    (m n : IntervalMap) (r : Range) (bs : List StagedBlock)
    → Assigned m r complete n
    → All (Beside r) bs
    → IsReady m bs
    → IsReady n bs
IsReady-Assigned m n r [] a apart h = tt
IsReady-Assigned m n r (b ∷ bs) a apart h =
    (Owned-Assigned m n r b a apart.0 h.0, h.1, IsReady-Assigned m n r bs a apart.1 h.2)

Owned-completes :
    (m : IntervalMap) (b : StagedBlock)
    → IsCanonical m
    → Owned m b
    → ((complete_range m b.range b.worker).0 ≡ ok tt)
      × Assigned m b.range complete (complete_range m b.range b.worker).1
Owned-completes m b c own = elim (complete_range_lem m b.range b.worker c) [
  | inl refused ↦ absurd (refused.0 own.0)
  | inr (inl refused) ↦ absurd (refused.1 own.1)
  | inr (inr done) ↦ (done.2, done.3)
]

complete_staged-first :
    (m : IntervalMap) (b : StagedBlock) (bs : List StagedBlock)
    → (complete_range m b.range b.worker).0 ≡ ok tt
    → complete_staged m (b ∷ bs) ≡ complete_staged (complete_range m b.range b.worker).1 bs
unfolding complete_staged
complete_staged-first m b bs h = rw (h, complete_staged)

pub complete_staged-total :
    (m : IntervalMap) (bs : List StagedBlock)
    → IsCanonical m
    → IsReady m bs
    → (next : IntervalMap) × (complete_staged m bs ≡ ok next)
unfolding complete_staged
complete_staged-total m [] c h = (m, refl)
complete_staged-total m (b ∷ bs) c h =
    let (done, a) = Owned-completes m b c h.0 in
    let after = (complete_range m b.range b.worker).1 in
    let (next, e) =
      complete_staged-total after bs a.canonical (IsReady-Assigned m after b.range bs a h.1 h.2) in
    (next, complete_staged-first m b bs done ∙ e)

abbrev HasDigest : StagedBlock → Type 0
HasDigest b = length b.blake3 ≡ 32

module _ {D J : Type 0} (files : DurableData D) (journals : DurableJournal J) where
  -- No storage operation fails, as long as the digests have their 32 bytes.
  pub record Works : Type 0 where
    pub data_syncs : (d : D) → (files.sync_data d).0 ≡ ok tt
    pub appends :
        (j : J) (sequence : ℕ) (b : StagedBlock)
        → length b.blake3 ≡ 32
        → (journals.append j (record_of sequence b)).0 ≡ ok tt
    pub journal_syncs : (j : J) → (journals.sync_data j).0 ≡ ok tt

  append_all-Works :
      (works : Works) (j : J) (n : ℕ) (bs : List StagedBlock)
      → All HasDigest bs
      → (append_all files journals j (records_of n bs)).0 ≡ ok tt
  unfolding append_all records_of
  append_all-Works works j n [] h = refl
  append_all-Works works j n (b ∷ bs) h =
      rw (works.appends j n b h.0, append_all)
        (append_all-Works works (journals.append j (record_of n b)).1 (n + 1) bs h.1)

  flush_batch-Works :
      (works : Works) (w : DurableWriter D J) (m next : IntervalMap)
      → ltb max_u64 (w.next_sequence + length w.staged) ≡ false
      → All HasDigest w.staged
      → (flush_batch files journals w m (ok next)).0 ≡ ok (blocks_of w.next_sequence w.staged)
  flush_batch-Works works w m next fits digests = rw (
    fits,
    works.data_syncs w.file,
    append_all-Works works w.journal w.next_sequence w.staged digests,
    works.journal_syncs
        (append_all files journals w.journal (records_of w.next_sequence w.staged)).1,
  )

  -- The writer is usable, the map is canonical and of the file's length, and the sequence has room.
  pub record CanFlush (w : DurableWriter D J) (m : IntervalMap) : Type 0 where
    pub usable : w.is_poisoned ≡ false
    pub canonical : IsCanonical m
    pub same_length : m.total_length ≡ files.total_length w.file
    pub room : w.next_sequence + length w.staged ≤ max_u64
    pub ready : IsReady m w.staged
    pub digests : All HasDigest w.staged

  not_empty : (bs : List StagedBlock) → bs ≢ [] → is_empty_batch bs ≡ false
  not_empty [] h = absurd (h refl)
  not_empty (b ∷ bs) h = refl

  same_test : (a b : ℕ) → a ≡ b → (a == b) ≡ true
  same_test a b h = ground arith

  flush-open :
      (w : DurableWriter D J) (m : IntervalMap)
      → CanFlush w m
      → w.staged ≢ []
      → flush files journals w m ≡ flush_batch files journals w m (complete_staged m w.staged)
  unfolding flush
  flush-open w m can full = rw (
    can.usable,
    same_test m.total_length (files.total_length w.file) can.same_length,
    not_empty w.staged full,
  )

  flush-Works :
      (works : Works) (w : DurableWriter D J) (m : IntervalMap)
      → CanFlush w m
      → w.staged ≢ []
      → (flush files journals w m).0 ≡ ok (blocks_of w.next_sequence w.staged)
  flush-Works works w m can full =
      let (next, e) = complete_staged-total m w.staged can.canonical can.ready in
      rw (flush-open w m can full, e)
        (flush_batch-Works works w m next (fits _ can.room) can.digests)
    where
      fits : (n : ℕ) → n ≤ max_u64 → ltb max_u64 n ≡ false
      fits n h = ground arith

  flush-Flushed :
      (works : Works) (w : DurableWriter D J) (m : IntervalMap)
      → CanFlush w m
      → w.staged ≢ []
      → Flushed files journals w m (flush files journals w m)
  flush-Flushed works w m can full = elim (flush_branches files journals w m) [
    | inl refused ↦ let done = flush-Works works w m can full in let failed = refused.result in cc
    | inr (inl empty) ↦ absurd (full empty.0)
    | inr (inr flushed) ↦ flushed
  ]

  flush_if_due-flush :
      (w : DurableWriter D J) (m : IntervalMap) (started now : ℕ)
      → w.is_poisoned ≡ false
      → w.first_staged_at ≡ some started
      → started + journal_flush_interval ≤ now
      → flush_if_due files journals w m now ≡ flush files journals w m
  unfolding flush_if_due
  flush_if_due-flush w m started now usable first late =
      rw (usable, first, after started now late, long_enough started now late)
    where
      after : (a b : ℕ) → a + journal_flush_interval ≤ b → leb a b ≡ true
      after a b h = ground arith

      long_enough :
          (a b : ℕ) → a + journal_flush_interval ≤ b → leb journal_flush_interval (b - a) ≡ true
      long_enough a b h = ground arith

  -- On storage of which no operation fails, a writer whose batch is two seconds old, and whose blocks
  -- are apart and still owned by their workers, completes the whole batch when it is asked whether a
  -- flush is due, as long as it is not poisoned, the map is canonical and of the file's length, the
  -- digests have 32 bytes and there are sequences left.
  pub flush_if_due_completes :
      (works : Works) (w : DurableWriter D J) (m : IntervalMap) (started now : ℕ)
      → CanFlush w m
      → w.first_staged_at ≡ some started
      → started + journal_flush_interval ≤ now
      → w.staged ≢ []
      → Flushed files journals w m (flush_if_due files journals w m now)
  flush_if_due_completes works w m started now can first late full =
      subst (Flushed files journals w m)
        (sym (flush_if_due-flush w m started now can.usable first late))
        (flush-Flushed works w m can full)
