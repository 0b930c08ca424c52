-- ===== src/Completion/Download.antt =====
-- A whole download: the writer's events, then the completion of what they leave.
use downpour.Prelude.{ℕ, ◌≤◌, ◌<◌, ◌≡◌, ap, arith, Bool, Option, List, max_u64, ok}
use downpour.Text.{Text}
use downpour.Intervals.{new}
use downpour.Journal.{Bytes, FramedRecord, sealed}
use downpour.Journal.Format.{encode_record}
use downpour.PartFile.{PartFile, System}
use downpour.Remote.{ContentDigest}
use downpour.Writer.{try_new}
use downpour.Writer.Batch.{DurableWriter}
use downpour.Writer.Reach.{Event, happen_all, complete-Backed, reached-IsCanonical}
use downpour.Writer.Files.{part_data, AppendSystem, JournalFile, journal_file}
use downpour.Writer.Files.Positional.{FileLaws, part_data-DataLaws}
use downpour.Writer.Files.Appended.{AppendLaws, StandsIn, journal_file-JournalLaws, logged_frame}
use downpour.Writer.Files.Program.{Evidence, Backed-Evidence}
use downpour.Completion.{Hasher, FileSystem, Sealed, verify_and_rename}
use downpour.Completion.Digests.{IsHash}
use downpour.Completion.Named.{ok-IsNamed, verify_and_rename_branches}

module _ {F G Q B S T : Type 0} (system : System F) (appends : AppendSystem G) (crc : Bytes → ℕ)
    (hash : Bytes → Bytes) (unix : Bool) (files : FileLaws system) (journals : AppendLaws appends)
    (blake3 : Hasher B) (sha_256 : Hasher S) (sha_512 : Hasher T) (ours small large : Bytes → Bytes)
    (blake3-IsHash : IsHash blake3 ours) (sha_256-IsHash : IsHash sha_256 small)
    (sha_512-IsHash : IsHash sha_512 large) (fs : FileSystem F Q)
    (decode : Text → Option Bytes) where
  -- The seal with the digest stands in what survives of the journal.
  pub record SealSurvives (journal : G) (blake : Bytes) : Type 0 where
    pub sequence : ℕ
    pub frame : Bytes
    pub encodes :
        encode_record crc (record { sequence = sequence; record_ = sealed blake }) ≡ ok frame
    pub in_journal : StandsIn frame (journals.surviving journal)

  -- What stands behind a final name.
  pub record IsFinished (file : F) (journal : G) (total : ℕ) (blake : Bytes) : Type 0 where
    pub evidence :
        (x : ℕ) → x < total → Evidence system appends crc hash unix files journals file journal x
    pub seal : SealSurvives journal blake

  -- A download on a part file and a journal file that starts with an empty map, in which the
  -- supervisor grants, splits and abandons and the writer stages and flushes, in any order, with any
  -- arguments and whatever the calls answer, and which is then verified and renamed. If that succeeds
  -- for a map of a u64 length, the length is the map's, and for every byte below it the frame of a
  -- record of a block around it survives a crash in the journal that is left, and the block's bytes,
  -- of which the record has the digest, in the part file that the writer left to the rename; and the
  -- frame of the seal survives in the journal with the digest that is answered.
  pub named-IsFinished :
      (part : PartFile F) (journal : JournalFile G) (sequence : ℕ)
      (w : DurableWriter (PartFile F) (JournalFile G)) (n : ℕ) (es : List Event)
      (part_path final_path : Q) (total : ℕ) (digest : Option ContentDigest) (answer : Sealed Q)
      (f' : F) (j' : JournalFile G)
      → try_new (part_data system) (journal_file crc appends) part journal sequence ≡ ok w
      → let (v, m) =
          happen_all (part_data system) (journal_file crc appends) hash unix w (new n) es in
        m.total_length ≤ max_u64
        → verify_and_rename blake3 sha_256 sha_512 fs
            (journal_file crc appends)
            decode
            v.file.file
            v.journal
            part_path
            final_path
            total
            m
            digest
            v.next_sequence
          ≡ (ok answer, f', j')
        → (total ≡ m.total_length) × IsFinished v.file.file j'.file total answer.final_blake3
  named-IsFinished part journal sequence w n es part_path final_path total digest answer f' j' start
        bounded h =
      let (v, m) =
        happen_all (part_data system) (journal_file crc appends) hash unix w (new n) es in
      let dl = part_data-DataLaws system files in
      let jl = journal_file-JournalLaws appends crc journals in
      let canonical =
        reached-IsCanonical (part_data system) (journal_file crc appends) hash unix dl jl part
          journal sequence w n es start in
      let k =
        ok-IsNamed blake3 sha_256 sha_512 ours small large blake3-IsHash sha_256-IsHash
          sha_512-IsHash fs (journal_file crc appends) decode v.file.file v.journal part_path
          final_path total m digest v.next_sequence _ answer f' j'
          (verify_and_rename_branches blake3 sha_256 sha_512 ours small large blake3-IsHash
            sha_256-IsHash sha_512-IsHash fs (journal_file crc appends) decode v.file.file v.journal
            part_path final_path total m digest v.next_sequence canonical bounded)
          h in
      let seal_record : FramedRecord = record {
        sequence = v.next_sequence;
        record_ = sealed k.answer.0;
      } in
      let appended = (journal_file crc appends).append v.journal seal_record in
      let logged =
        jl.sync_logs appended.1 seal_record k.was_synced
          (jl.append_adds v.journal seal_record k.was_appended) in
      let (frame, encodes, stands) = logged_frame appends crc journals _ seal_record logged in
      let blake : k.answer.0 ≡ answer.final_blake3 =
        ap (λ (a : Sealed Q). a.final_blake3) k.same_answer in
      (
        k.checked.total_of_map,
        rw (← k.same_journal, ← blake)
            (record {
              evidence = λ x below.
                  let b =
                    complete-Backed (part_data system) (journal_file crc appends) hash unix dl jl
                      part journal sequence w n x es start
                      (k.checked.covered x (omega arith) below) in
                  Backed-Evidence system appends crc hash unix files journals v.file v.journal m x b
                    ((journal_file crc appends).sync_data appended.1).1
                    (jl.sync_keeps_logged appended.1 _
                      (jl.append_keeps_logged v.journal seal_record _ b.logged));
              seal = record {
                sequence = v.next_sequence;
                frame = frame;
                encodes = encodes;
                in_journal = stands;
              };
            }),
      )
