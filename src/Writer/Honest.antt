-- ===== src/Writer/Honest.antt =====
-- The claim of a complete byte: a block around it is in the synced journal, and its bytes, of the
-- digest that the record has, are in the synced file.
use downpour.Prelude.{
  ℕ, ◌+◌, ◌≤◌, ◌<◌, some, List, [], ◌∷◌, ◌++◌, ◌≡◌, ◌⊎◌, arith, inl, inr, All, length,
}
use downpour.Text.Decimal.{All-append}
use downpour.Intervals.{IntervalMap, WorkerId, in_progress, complete}
use downpour.Intervals.Partition.{IsCanonical, byte_state}
use downpour.Intervals.Match.{AllIn}
use downpour.Journal.{Bytes, FramedRecord, block_complete}
use downpour.Writer.Batch.{DurableData, DurableJournal, StagedBlock}
use downpour.Writer.Laws.{Apart, DataLaws, JournalLaws}
use downpour.Writer.Apart.{AllComplete, Beside, complete-Apart}

module _ {D J : Type 0} (files : DurableData D) (journals : DurableJournal J) (hash : Bytes → Bytes)
    (dl : DataLaws files) (jl : JournalLaws journals) where
  -- A staged block stands in the file.
  pub record Held (d : D) (b : StagedBlock) : Type 0 where
    pub bytes : Bytes
    pub ends : b.range.start + length bytes ≡ b.range.end
    pub some_byte : 0 < length bytes
    pub recorded : b.record_length ≡ length bytes
    pub digest : hash bytes ≡ b.blake3
    pub held : dl.Holds d b.range.start bytes

  pub record Backed (d : D) (j : J) (m : IntervalMap) (x : ℕ) : Type 0 where
    pub sequence : ℕ
    pub start : ℕ
    pub bytes : Bytes
    pub from_start : start ≤ x
    pub in_block : x < start + length bytes
    pub logged :
        jl.Logged j (record {
          sequence = sequence;
          record_ = block_complete start (length bytes) (hash bytes);
        })
    pub durable : dl.Durable d start bytes
    pub whole : AllComplete m start (length bytes)

  -- The invariant of a writer and its interval map.
  pub record IsHonest (d : D) (j : J) (staged : List StagedBlock) (m : IntervalMap) : Type 0 where
    pub canonical : IsCanonical m
    pub held : All (Held d) staged
    pub backed : (x : ℕ) → byte_state m.intervals x ≡ some complete → Backed d j m x

  -- What holds on while the storage changes and bytes become complete.
  pub Backed-moved :
      (d d' : D) (j j' : J) (m n : IntervalMap) (x : ℕ)
      → ((at : ℕ) (others : Bytes)
          → 0 < length others
          → AllComplete m at (length others)
          → dl.Durable d at others
          → dl.Durable d' at others)
      → ((r : FramedRecord) → jl.Logged j r → jl.Logged j' r)
      → ((y : ℕ)
          → byte_state m.intervals y ≡ some complete
          → byte_state n.intervals y ≡ some complete)
      → Backed d j m x
      → Backed d' j' n x
  Backed-moved d d' j j' m n x files_keep journal_keeps grows b = record {
    sequence = b.sequence;
    start = b.start;
    bytes = b.bytes;
    from_start = b.from_start;
    in_block = b.in_block;
    logged = journal_keeps _ b.logged;
    durable =
        files_keep b.start b.bytes (omega (arith, b.from_start, b.in_block)) b.whole b.durable;
    whole = λ y lo hi. grows y (b.whole y lo hi);
  }

  -- A block that a write does not touch, or that a sync leaves.
  Held-kept :
      (d d' : D) (b : StagedBlock) (h : Held d b)
      → (dl.Holds d b.range.start h.bytes → dl.Holds d' b.range.start h.bytes)
      → Held d' b
  Held-kept d d' b h keep = record {
    bytes = h.bytes;
    ends = h.ends;
    some_byte = h.some_byte;
    recorded = h.recorded;
    digest = h.digest;
    held = keep h.held;
  }

  pub Held-sync_data :
      (d : D) (bs : List StagedBlock) → All (Held d) bs → All (Held (files.sync_data d).1) bs
  Held-sync_data d [] h = tt
  Held-sync_data d (b ∷ bs) h = (
    Held-kept d (files.sync_data d).1 b h.0 (dl.sync_keeps_held d b.range.start h.0.bytes),
    Held-sync_data d bs h.1,
  )

  -- A journal that keeps its synced records keeps the invariant.
  pub journal-IsHonest :
      (d : D) (j j' : J) (staged : List StagedBlock) (m : IntervalMap)
      → ((r : FramedRecord) → jl.Logged j r → jl.Logged j' r)
      → IsHonest d j staged m
      → IsHonest d j' staged m
  journal-IsHonest d j j' staged m keep h = record {
    canonical = h.canonical;
    held = h.held;
    backed = λ x e.
        Backed-moved d d j j' m m x (λ at others full whole k. k) keep (λ y c. c) (h.backed x e);
  }

  pub sync_data-IsHonest :
      (d : D) (j : J) (staged : List StagedBlock) (m : IntervalMap)
      → IsHonest d j staged m
      → IsHonest (files.sync_data d).1 j staged m
  sync_data-IsHonest d j staged m h = record {
    canonical = h.canonical;
    held = Held-sync_data d staged h.held;
    backed = λ x e.
        Backed-moved d (files.sync_data d).1 j j m m x
          (λ at others full whole k. dl.sync_keeps_durable d at others k) (λ r k. k) (λ y c. c)
          (h.backed x e);
  }

  Held-write_all_at :
      (d : D) (offset : ℕ) (written : Bytes) (bs : List StagedBlock)
      → All (Beside (record { start = offset; end = offset + length written })) bs
      → All (Held d) bs
      → All (Held (files.write_all_at d offset written).1) bs
  Held-write_all_at d offset written [] apart h = tt
  Held-write_all_at d offset written (b ∷ bs) apart h = (
    Held-kept d (files.write_all_at d offset written).1 b h.0 (
        dl.write_keeps_held d offset written b.range.start h.0.bytes (
          beside offset (length written) b.range.start (length h.0.bytes) b.range.end h.0.ends
            apart.0)),
    Held-write_all_at d offset written bs apart.1 h.1,
  )
    where
      beside : (o n a k e : ℕ) → a + k ≡ e → (o + n ≤ a) ⊎ (e ≤ o) → Apart o n a k
      beside o n a k e same (inl x) = inl x
      beside o n a k e same (inr x) = inr (omega arith)

  -- A write in a worker's grant, beside every staged block.
  pub write_all_at-IsHonest :
      (d : D) (j : J) (staged : List StagedBlock) (m : IntervalMap) (worker : WorkerId) (offset : ℕ)
      (written : Bytes)
      → 0 < length written
      → AllIn
          (record { start = offset; end = offset + length written })
          (in_progress worker)
          m.intervals
      → All (Beside (record { start = offset; end = offset + length written })) staged
      → IsHonest d j staged m
      → IsHonest (files.write_all_at d offset written).1 j staged m
  write_all_at-IsHonest d j staged m worker offset written full own apart h = record {
    canonical = h.canonical;
    held = Held-write_all_at d offset written staged apart h.held;
    backed = λ x e.
        Backed-moved d (files.write_all_at d offset written).1 j j m m x
          (λ at others some_others whole k.
            dl.write_keeps_durable d offset written at others
              (complete-Apart m worker offset (length written) at (length others) full some_others
                own whole)
              k)
          (λ r k. k) (λ y c. c) (h.backed x e);
  }

  -- The written block joins the batch.
  pub stage-IsHonest :
      (d : D) (j : J) (staged : List StagedBlock) (m : IntervalMap) (b : StagedBlock)
      → IsHonest d j staged m
      → Held d b
      → IsHonest d j (staged ++ b ∷ []) m
  stage-IsHonest d j staged m b h k = record {
    canonical = h.canonical;
    held = All-append (Held d) staged (b ∷ []) h.held (k, tt);
    backed = h.backed;
  }
