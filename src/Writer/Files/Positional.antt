-- ===== src/Writer/Files/Positional.antt =====
-- The laws of the part file, as the operating system's files give them.
use Prim.Native.String.{String}
use downpour.Prelude.{ℕ, ◌≡◌, refl, inl, inr, Bool-cases, length, Result, ok, err}
use downpour.Journal.{Bytes}
use downpour.PartFile.{IoError, PartFile, System, io_result, in_bounds, write_all_at, sync_data}
use downpour.Writer.Laws.{Apart, DataLaws}
use downpour.Writer.Files.{from_part_file, part_data}

io_result-ok :
    (operation : String) (result : Result (Unit {0}) IoError)
    → from_part_file (io_result operation result) ≡ ok tt
    → result ≡ ok tt
io_result-ok operation (ok tt) h = refl
io_result-ok operation (err e) h = cc

module _ {F : Type 0} (system : System F) where
  -- The documented behaviour of positional writes and of fdatasync.
  pub record FileLaws : Type 1 where
    pub Holds : F → ℕ → Bytes → Type 0
    pub Durable : F → ℕ → Bytes → Type 0
    pub write_holds :
        (f : F) (offset : ℕ) (bytes : Bytes)
        → (system.write_at f offset bytes).0 ≡ ok tt
        → Holds (system.write_at f offset bytes).1 offset bytes
    pub write_keeps_held :
        (f : F) (offset : ℕ) (bytes : Bytes) (at : ℕ) (others : Bytes)
        → Apart offset (length bytes) at (length others)
        → Holds f at others
        → Holds (system.write_at f offset bytes).1 at others
    pub write_keeps_durable :
        (f : F) (offset : ℕ) (bytes : Bytes) (at : ℕ) (others : Bytes)
        → Apart offset (length bytes) at (length others)
        → Durable f at others
        → Durable (system.write_at f offset bytes).1 at others
    pub sync_makes_durable :
        (f : F) (at : ℕ) (bytes : Bytes)
        → (system.fdatasync f).0 ≡ ok tt
        → Holds f at bytes
        → Durable (system.fdatasync f).1 at bytes
    pub sync_keeps_held :
        (f : F) (at : ℕ) (bytes : Bytes) → Holds f at bytes → Holds (system.fdatasync f).1 at bytes
    pub sync_keeps_durable :
        (f : F) (at : ℕ) (bytes : Bytes)
        → Durable f at bytes
        → Durable (system.fdatasync f).1 at bytes

  module _ (laws : FileLaws) where
    written-Holds :
        (part : PartFile F) (offset : ℕ) (bytes : Bytes)
        → ((part_data system).write_all_at part offset bytes).0 ≡ ok tt
        → laws.Holds ((part_data system).write_all_at part offset bytes).1.file offset bytes
    unfolding part_data write_all_at
    written-Holds part offset bytes h =
        elim (Bool-cases (in_bounds system offset (length bytes) part.total_length)) [
          | inl inside ↦ rw inside (
              laws.write_holds part.file offset bytes
                (io_result-ok "write part-file bytes positionally" _ (rw inside at h)))
          | inr outside ↦ cc (rw outside at h)
        ]

    -- A write that is refused leaves the file.
    written_keeps :
        (P : F → Type 0) (part : PartFile F) (offset : ℕ) (bytes : Bytes)
        → P part.file
        → P (system.write_at part.file offset bytes).1
        → P ((part_data system).write_all_at part offset bytes).1.file
    unfolding part_data write_all_at
    written_keeps P part offset bytes old now =
        elim (Bool-cases (in_bounds system offset (length bytes) part.total_length)) [
          | inl inside ↦ rw inside now
          | inr outside ↦ rw outside old
        ]

    pub part_data-DataLaws : DataLaws (part_data system)
    unfolding part_data sync_data
    part_data-DataLaws = record {
      Holds = λ part. laws.Holds part.file;
      Durable = λ part. laws.Durable part.file;
      write_holds = written-Holds;
      write_keeps_held = λ part offset bytes at others apart h.
          written_keeps (λ f. laws.Holds f at others) part offset bytes h
            (laws.write_keeps_held part.file offset bytes at others apart h);
      write_keeps_durable = λ part offset bytes at others apart h.
          written_keeps (λ f. laws.Durable f at others) part offset bytes h
            (laws.write_keeps_durable part.file offset bytes at others apart h);
      sync_makes_durable = λ part at bytes done h.
          laws.sync_makes_durable part.file at bytes
            (io_result-ok "synchronise part-file data" (system.fdatasync part.file).0 done) h;
      sync_keeps_held = λ part. laws.sync_keeps_held part.file;
      sync_keeps_durable = λ part. laws.sync_keeps_durable part.file;
    }

    -- What survives of a part file is what survives of its file.
    pub durable_part :
        (part : PartFile F) (at : ℕ) (bytes : Bytes)
        → part_data-DataLaws.Durable part at bytes
        → laws.Durable part.file at bytes
    unfolding part_data-DataLaws
    durable_part part at bytes h = h
