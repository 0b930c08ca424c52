-- ===== src/Writer/Commit.antt =====
-- A flush keeps the invariant, whether it commits the batch or fails on the way.
use mathlib.Core.Path.{subst}
use downpour.Prelude.{
  ℕ, ◌+◌, ◌≤◌, ◌<◌, true, List, [], ◌∷◌, ◌≡◌, refl, sym, ap, ◌∙◌, arith, inl, inr, within,
  Result-cases, ok, err, All, length,
}
use downpour.Intervals.{IntervalMap}
use downpour.Journal.{Bytes, FramedRecord, JournalRecord, block_complete}
use downpour.Writer.Batch.{
  DurableData, DurableJournal, StagedBlock, WriterError, Written, record_of, records_of,
}
use downpour.Writer.{append_all}
use downpour.Writer.Laws.{DataLaws, JournalLaws}
use downpour.Writer.Complete.{Covered, Completed}
use downpour.Writer.Honest.{Held, Backed, Backed-moved, IsHonest}

within-le : (a b x : ℕ) → within a b x ≡ true → a ≤ x
within-le a b x h = ground arith

within-lt : (a b x : ℕ) → within a b x ≡ true → x < b
within-lt a b x h = ground arith

within_intro : (a b x : ℕ) → a ≤ x → x < b → within a b x ≡ true
within_intro a b x h k = ground arith

abbrev framed : ℕ → JournalRecord → FramedRecord
framed sequence r = record { sequence = sequence; record_ = r }

same_record :
    (n start a b : ℕ) (c d : Bytes)
    → a ≡ b
    → c ≡ d
    → framed n (block_complete start a c) ≡ framed n (block_complete start b d)
same_record n start a b c d p q = cc

module _ {D J : Type 0} (files : DurableData D) (journals : DurableJournal J) (hash : Bytes → Bytes)
    (dl : DataLaws files) (jl : JournalLaws journals) where
  -- A staged block that survives a crash.
  pub record Stable (d : D) (b : StagedBlock) : Type 0 where
    pub bytes : Bytes
    pub ends : b.range.start + length bytes ≡ b.range.end
    pub recorded : b.record_length ≡ length bytes
    pub digest : hash bytes ≡ b.blake3
    pub durable : dl.Durable d b.range.start bytes

  pub sync_data-Stable :
      (d : D) (bs : List StagedBlock)
      → (files.sync_data d).0 ≡ ok tt
      → All (Held files journals hash dl jl d) bs
      → All (Stable (files.sync_data d).1) bs
  sync_data-Stable d [] e h = tt
  sync_data-Stable d (b ∷ bs) e h = (
    record {
      bytes = h.0.bytes;
      ends = h.0.ends;
      recorded = h.0.recorded;
      digest = h.0.digest;
      durable = dl.sync_makes_durable d b.range.start h.0.bytes e h.0.held;
    },
    sync_data-Stable d bs e h.1,
  )

  append_all-failed :
      (j : J) (r : FramedRecord) (rs : List FramedRecord) (e : WriterError)
      → (journals.append j r).0 ≡ err e
      → append_all files journals j (r ∷ rs) ≡ (err e, (journals.append j r).1)
  unfolding append_all
  append_all-failed j r rs e h = rw (h, append_all)

  append_all-ok :
      (j : J) (r : FramedRecord) (rs : List FramedRecord)
      → (journals.append j r).0 ≡ ok tt
      → append_all files journals j (r ∷ rs) ≡ append_all files journals (journals.append j r).1 rs
  unfolding append_all
  append_all-ok j r rs h = rw (h, append_all)

  append_all-nil : (j : J) → append_all files journals j [] ≡ (ok tt, j)
  unfolding append_all
  append_all-nil j = refl

  -- What every append keeps, failed or not.
  pub append_all-keeps :
      (P : J → Type 0) (keep : (j : J) (r : FramedRecord) → P j → P (journals.append j r).1) (j : J)
      (rs : List FramedRecord)
      → P j
      → P (append_all files journals j rs).1
  append_all-keeps P keep j [] h =
      subst (λ (k : Written (Unit {0}) × J). P k.1) (sym (append_all-nil j)) h
  append_all-keeps P keep j (r ∷ rs) h = elim (Result-cases (journals.append j r).0) [
    | inl done ↦
        subst (λ (k : Written (Unit {0}) × J). P k.1) (sym (append_all-ok j r rs done))
          (append_all-keeps P keep (journals.append j r).1 rs (keep j r h))
    | inr (e, failed) ↦
        subst (λ (k : Written (Unit {0}) × J). P k.1) (sym (append_all-failed j r rs e failed))
          (keep j r h)
  ]

  pub append_all-Appended :
      (j : J) (rs : List FramedRecord)
      → (append_all files journals j rs).0 ≡ ok tt
      → All (jl.Appended (append_all files journals j rs).1) rs
  append_all-Appended j [] e = tt
  append_all-Appended j (r ∷ rs) e = elim (Result-cases (journals.append j r).0) [
    | inl done ↦
        let same = append_all-ok j r rs done in
        let next = (journals.append j r).1 in
        subst (λ (k : Written (Unit {0}) × J). All (jl.Appended k.1) (r ∷ rs)) (sym same)
          (
            append_all-keeps (λ k. jl.Appended k r) (λ k x h. jl.append_keeps_appended k x r h) next
                rs (jl.append_adds j r done),
            append_all-Appended next rs (sym (ap (λ (k : Written (Unit {0}) × J). k.0) same) ∙ e),
          )
    | inr (x, failed) ↦
        let same = ap (λ (k : Written (Unit {0}) × J). k.0) (append_all-failed j r rs x failed) in
        cc
  ]

  pub sync_data-Logged :
      (j : J) (rs : List FramedRecord)
      → (journals.sync_data j).0 ≡ ok tt
      → All (jl.Appended j) rs
      → All (jl.Logged (journals.sync_data j).1) rs
  sync_data-Logged j [] e h = tt
  sync_data-Logged j (r ∷ rs) e h = (jl.sync_logs j r e h.0, sync_data-Logged j rs e h.1)

  -- The block of a covered byte, with its record.
  record Found (d : D) (j : J) (bs : List StagedBlock) (x : ℕ) : Type 0 where
    sequence : ℕ
    block : StagedBlock
    stable : Stable d block
    inside : within block.range.start block.range.end x ≡ true
    logged : jl.Logged j (record_of sequence block)
    covers : (y : ℕ) → within block.range.start block.range.end y ≡ true → Covered y bs

  Covered-Found :
      (d : D) (j : J) (n : ℕ) (bs : List StagedBlock) (x : ℕ)
      → All (Stable d) bs
      → All (jl.Logged j) (records_of n bs)
      → Covered x bs
      → Found d j bs x
  unfolding records_of
  Covered-Found d j n [] x s l c = absurd c
  Covered-Found d j n (b ∷ bs) x s l (inl inside) = record {
    sequence = n;
    block = b;
    stable = s.0;
    inside = inside;
    logged = l.0;
    covers = λ y h. inl h;
  }
  Covered-Found d j n (b ∷ bs) x s l (inr c) =
      let f = Covered-Found d j (n + 1) bs x s.1 l.1 c in
      record {
        sequence = f.sequence;
        block = f.block;
        stable = f.stable;
        inside = f.inside;
        logged = f.logged;
        covers = λ y h. inr (f.covers y h);
      }

  Found-Backed :
      (d : D) (j : J) (bs : List StagedBlock) (m next : IntervalMap) (x : ℕ)
      → Completed m bs next
      → Found d j bs x
      → Backed files journals hash dl jl d j next x
  Found-Backed d j bs m next x c f =
      let b = f.block in
      let k = f.stable in
      record {
        sequence = f.sequence;
        start = b.range.start;
        bytes = k.bytes;
        from_start = within-le b.range.start b.range.end x f.inside;
        in_block = omega (arith, within-lt b.range.start b.range.end x f.inside, k.ends);
        logged =
            subst (jl.Logged j)
              (same_record f.sequence b.range.start b.record_length (length k.bytes) b.blake3
                (hash k.bytes) k.recorded (sym k.digest))
              f.logged;
        durable = k.durable;
        whole = λ y lo hi. (c.bytes y).1 (
            inr (
              f.covers y
                (within_intro b.range.start b.range.end y lo (omega (arith, hi, k.ends)))));
      }

  -- The journal sync was the last step: the batch is complete.
  pub commit-IsHonest :
      (d : D) (j : J) (n : ℕ) (staged : List StagedBlock) (m next : IntervalMap)
      → IsHonest files journals hash dl jl d j staged m
      → All (Stable d) staged
      → All (jl.Logged j) (records_of n staged)
      → Completed m staged next
      → IsHonest files journals hash dl jl d j [] next
  commit-IsHonest d j n staged m next h s l c = record {
    canonical = c.canonical;
    held = tt;
    backed = λ x e. elim ((c.bytes x).0 e) [
      | inl old ↦
          Backed-moved files journals hash dl jl d d j j m next x (λ at others full whole k. k)
            (λ r k. k) (λ y k. (c.bytes y).1 (inl k)) (h.backed x old)
      | inr covered ↦ Found-Backed d j staged m next x c (Covered-Found d j n staged x s l covered)
    ];
  }
