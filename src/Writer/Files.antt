-- ===== src/Writer/Files.antt =====
-- crates/downpour-storage/src/writer.rs: the storage that the writer stands on in the program, a part
-- file and a journal file, built from the operating system's files.
pub mod Positional
pub mod Appended
pub mod Program
use Prim.Native.String.{String}
use mathlib.Core.Path.{subst}
use mathlib.Core.List.{append_assoc, append-nil}
use downpour.Prelude.{
  ℕ, ◌+◌, Bool, true, false, not, Option, List, [], ◌∷◌, ◌++◌, ◌≡◌, ◌⊎◌, refl, sym, ap, ◌∙◌, inl,
  inr, if◌then◌else◌, Bool-cases, length, Result, Result-cases, ok, err, ◌>>◌, ◌>>=◌,
}
use downpour.Journal.{Bytes, FileHeader, FramedRecord}
use downpour.Journal.Format.{FormatError, encode_header, encode_record}
use downpour.PartFile.{
  IoError, PartFileError, PartFile, System, OpenError, exists_already, not_found, other_error,
  Filed, io_result, in_bounds, write_all_at, sync_data,
}
use downpour.Writer.Batch.{
  DurableData, DurableJournal, WriterError, Written, part_file, format, io, journal_already_exists,
}
use downpour.Writer.Laws.{Apart, DataLaws, JournalLaws}

-- `map_err(WriterError::from)`
abbrev pub from_part_file : Filed (Unit {0}) → Written (Unit {0})
from_part_file (err e) = err (part_file e)
from_part_file (ok _) = ok tt

unfoldable pub part_data : {F : Type 0} → System F → DurableData (PartFile F)
part_data system = record {
  total_length = λ part. part.total_length;
  write_all_at = λ part offset bytes.
      let (result, next) = write_all_at system part offset bytes in (from_part_file result, next);
  sync_data = λ part. let (result, next) = sync_data system part in (from_part_file result, next);
}

-- The calls that the source makes on a file that was opened for appending.
pub record AppendSystem (G : Type 0) : Type 0 where
  pub write_all : G → Bytes → Result (Unit {0}) IoError × G
  pub fsync : G → Result (Unit {0}) IoError × G
  pub fdatasync : G → Result (Unit {0}) IoError × G

pub record JournalFile (G : Type 0) : Type 0 where
  pub file : G
  pub total_length : ℕ

abbrev pub io_written : String → Result (Unit {0}) IoError → Written (Unit {0})
io_written operation (err source) = err (io operation source)
io_written operation (ok _) = ok tt

module _ {G : Type 0} (crc : Bytes → ℕ) (appends : AppendSystem G) where
  -- Opening the path answered so, and syncing the directory answers so.
  unfoldable pub create :
      Result G OpenError → Result (Unit {0}) IoError → FileHeader → Written (JournalFile G)
  create (err (exists_already source)) directory header = err journal_already_exists
  create (err (not_found source)) directory header =
      err (io "create recovery journal exclusively" source)
  create (err (other_error source)) directory header =
      err (io "create recovery journal exclusively" source)
  create (ok file) directory header =
      let (written, next) = appends.write_all file (encode_header crc header) in
      let (synced, last) = appends.fsync next in
      io_written "write recovery-journal header" written
      >> io_written "synchronise recovery-journal header" synced
      >> io_written "synchronise recovery-journal directory" directory
      >> ok (record { file = last; total_length = header.total_length })

  abbrev pub append_encoded :
      JournalFile G → Result Bytes FormatError → Written (Unit {0}) × JournalFile G
  append_encoded j (err e) = (err (format e), j)
  append_encoded j (ok encoded) =
      let (result, next) = appends.write_all j.file encoded in
      (io_written "append recovery-journal record" result, record j { file = next })

  unfoldable pub journal_file : DurableJournal (JournalFile G)
  journal_file = record {
    total_length = λ j. j.total_length;
    append = λ j r. append_encoded j (encode_record crc r);
    sync_data = λ j.
        let (result, next) = appends.fdatasync j.file in
        (io_written "synchronise recovery-journal records" result, record j { file = next });
  }
