-- ===== src/Writer/Files/Program.antt =====
-- The writer on a part file and a journal file.
use downpour.Prelude.{ℕ, ◌+◌, ◌≤◌, ◌<◌, Bool, List, some, ◌≡◌, ok, length}
use downpour.Intervals.{IntervalMap, complete, new}
use downpour.Intervals.Partition.{byte_state}
use downpour.Journal.{Bytes, block_complete}
use downpour.Journal.Format.{encode_record}
use downpour.PartFile.{PartFile, System}
use downpour.Writer.{try_new}
use downpour.Writer.Batch.{DurableWriter}
use downpour.Writer.Honest.{Backed}
use downpour.Writer.Reach.{Event, happen_all, complete-Backed}
use downpour.Writer.Files.{part_data, AppendSystem, JournalFile, journal_file}
use downpour.Writer.Files.Positional.{FileLaws, part_data-DataLaws, durable_part}
use downpour.Writer.Files.Appended.{AppendLaws, StandsIn, journal_file-JournalLaws, logged_frame}

module _ {F G : Type 0} (system : System F) (appends : AppendSystem G) (crc : Bytes → ℕ)
    (hash : Bytes → Bytes) (unix : Bool) (files : FileLaws system)
    (journals : AppendLaws appends) where
  -- The frame of a record of a block with the byte is in what survives of the journal, and what
  -- survives of the part file has the block's bytes, of which the record has the digest.
  pub record Evidence (file : F) (journal : G) (x : ℕ) : Type 0 where
    pub sequence : ℕ
    pub start : ℕ
    pub bytes : Bytes
    pub frame : Bytes
    pub from_start : start ≤ x
    pub in_block : x < start + length bytes
    pub encodes :
        encode_record crc (record {
          sequence = sequence;
          record_ = block_complete start (length bytes) (hash bytes);
        })
        ≡ ok frame
    pub in_journal : StandsIn frame (journals.surviving journal)
    pub in_file : files.Durable file start bytes

  -- A byte that the writer's storage backs has evidence, in every journal that keeps its record.
  pub Backed-Evidence :
      (part : PartFile F) (journal : JournalFile G) (m : IntervalMap) (x : ℕ)
      (b : Backed
        (part_data system)
        (journal_file crc appends)
        hash
        (part_data-DataLaws system files)
        (journal_file-JournalLaws appends crc journals)
        part
        journal
        m
        x)
      (later : JournalFile G)
      → (journal_file-JournalLaws appends crc journals).Logged later (record {
        sequence = b.sequence;
        record_ = block_complete b.start (length b.bytes) (hash b.bytes);
      })
      → Evidence part.file later.file x
  Backed-Evidence part journal m x b later logged =
      let (frame, encodes, stands) = logged_frame appends crc journals later _ logged in
      record {
        sequence = b.sequence;
        start = b.start;
        bytes = b.bytes;
        frame = frame;
        from_start = b.from_start;
        in_block = b.in_block;
        encodes = encodes;
        in_journal = stands;
        in_file = durable_part system files part b.start b.bytes b.durable;
      }

  -- A download on a part file and a journal file that starts with an empty map, in which the
  -- supervisor grants, splits and abandons and the writer stages and flushes, in any order, with any
  -- arguments and whatever the system's calls answer: for every byte that is complete in the map
  -- there is evidence that survives a crash at this moment, the frame of a record of a block around
  -- it in the journal, and the bytes of the block, of which the record has the digest, in the file.
  pub complete-Evidence :
      (part : PartFile F) (journal : JournalFile G) (sequence : ℕ)
      (w : DurableWriter (PartFile F) (JournalFile G)) (n x : ℕ) (es : List Event)
      → try_new (part_data system) (journal_file crc appends) part journal sequence ≡ ok w
      → let (v, m) =
          happen_all (part_data system) (journal_file crc appends) hash unix w (new n) es in
        byte_state m.intervals x ≡ some complete → Evidence v.file.file v.journal.file x
  complete-Evidence part journal sequence w n x es start h =
      let b =
        complete-Backed (part_data system) (journal_file crc appends) hash unix
          (part_data-DataLaws system files) (journal_file-JournalLaws appends crc journals) part
          journal sequence w n x es start h in
      Backed-Evidence _ _ _ x b _ b.logged
