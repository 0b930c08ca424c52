-- ===== src/Writer/Laws.antt =====
-- What the durable writer relies on in the storage below it: the documented behaviour of positional
-- writes, appends and syncs. A failed operation may have done anything that these laws allow.
use downpour.Prelude.{ℕ, ◌+◌, ◌≤◌, ◌⊎◌, ◌≡◌, ok, length}
use downpour.Journal.{Bytes, FramedRecord}
use downpour.Writer.Batch.{DurableData, DurableJournal}

-- No byte of `n` bytes from `a` is one of `k` bytes from `b`.
abbrev pub Apart : ℕ → ℕ → ℕ → ℕ → Type 0
Apart a n b k = (a + n ≤ b) ⊎ (b + k ≤ a)

module _ {D : Type 0} (files : DurableData D) where
  pub record DataLaws : Type 1 where
    -- The file reads back these bytes from the offset on, and, for the second, after a crash, too.
    pub Holds : D → ℕ → Bytes → Type 0
    pub Durable : D → ℕ → Bytes → Type 0
    pub write_holds :
        (d : D) (offset : ℕ) (bytes : Bytes)
        → (files.write_all_at d offset bytes).0 ≡ ok tt
        → Holds (files.write_all_at d offset bytes).1 offset bytes
    pub write_keeps_held :
        (d : D) (offset : ℕ) (bytes : Bytes) (at : ℕ) (others : Bytes)
        → Apart offset (length bytes) at (length others)
        → Holds d at others
        → Holds (files.write_all_at d offset bytes).1 at others
    pub write_keeps_durable :
        (d : D) (offset : ℕ) (bytes : Bytes) (at : ℕ) (others : Bytes)
        → Apart offset (length bytes) at (length others)
        → Durable d at others
        → Durable (files.write_all_at d offset bytes).1 at others
    pub sync_makes_durable :
        (d : D) (at : ℕ) (bytes : Bytes)
        → (files.sync_data d).0 ≡ ok tt
        → Holds d at bytes
        → Durable (files.sync_data d).1 at bytes
    pub sync_keeps_held :
        (d : D) (at : ℕ) (bytes : Bytes) → Holds d at bytes → Holds (files.sync_data d).1 at bytes
    pub sync_keeps_durable :
        (d : D) (at : ℕ) (bytes : Bytes)
        → Durable d at bytes
        → Durable (files.sync_data d).1 at bytes

module _ {J : Type 0} (journals : DurableJournal J) where
  pub record JournalLaws : Type 1 where
    -- The record was appended, and, for the second, survives a crash.
    pub Appended : J → FramedRecord → Type 0
    pub Logged : J → FramedRecord → Type 0
    pub append_adds :
        (j : J) (r : FramedRecord)
        → (journals.append j r).0 ≡ ok tt
        → Appended (journals.append j r).1 r
    pub append_keeps_appended :
        (j : J) (r other : FramedRecord) → Appended j other → Appended (journals.append j r).1 other
    pub append_keeps_logged :
        (j : J) (r other : FramedRecord) → Logged j other → Logged (journals.append j r).1 other
    pub sync_logs :
        (j : J) (r : FramedRecord)
        → (journals.sync_data j).0 ≡ ok tt
        → Appended j r
        → Logged (journals.sync_data j).1 r
    pub sync_keeps_logged :
        (j : J) (r : FramedRecord) → Logged j r → Logged (journals.sync_data j).1 r
