-- ===== src/Tests/Writer.antt =====
-- A writer on a part file and a journal file in memory.
use downpour.Prelude.{
  take, length-append, ◌++◌, Result, leb, ℕ, true, false, some, none, List, [], ◌∷◌, ◌≡◌, refl,
  arith, length, ok, err,
}
use downpour.Intervals.{
  abandon, normalise, release, grant, validate_range, range_matches, replace_range, complete_range,
  state_eq, split_in_progress, position, push_merged, replace_round, splits_at, in_progress,
  complete, new,
}
use downpour.Intervals.Partition.{byte_state}
use downpour.Journal.{Bytes, block_complete}
use downpour.Writer.Ready.{IsReady, CanFlush, Works, flush_if_due_completes}
use downpour.Writer.Branches.{Flushed}
use downpour.Writer.Accumulate.{stage-IsReady}
use downpour.Intervals.Match.{AllIn}
use downpour.Journal.Format.Reads.{length-to_le_bytes}
use downpour.Journal.Format.{FormatError, encode_payload, encode_record, frame_body, to_le_bytes}
use downpour.PartFile.{write_all_at, sync_data, PartFile, set_length}
use downpour.Writer.{append_all, try_new, flush, flush_if_due, stage}
use downpour.Writer.Batch.{
  ensure_current_grant, ensure_not_staged, find_overlap, add_durable, blocks_of, complete_staged,
  no_space_offset, record_of, records_of, DurableWriter, StagedBlock,
}
use downpour.Writer.Reach.{
  Event, grant_event, split_event, abandon_event, stage_event, flush_event, happen_all,
}
use downpour.Writer.Files.{append_encoded, part_data, JournalFile, journal_file}
use downpour.Writer.Files.Program.{Evidence, complete-Evidence}
use downpour.Tests.Intervals.{span, ten, ten-IsCanonical}
use downpour.Tests.Format.{byte_sum, sixteen}
use downpour.Tests.Memory.{MemoryFile, MemoryLog, memory, memory-FileLaws, log, log-AppendLaws}

abbrev pub digest_of : Bytes → Bytes
digest_of s = length s ∷ (sixteen ++ take 15 sixteen)

abbrev zeros : ℕ → ℕ
zeros x = 0

abbrev pub ten_bytes : PartFile MemoryFile
ten_bytes = record {
  file = record { size = 10; current = zeros; synced = zeros };
  total_length = 10;
  preallocation_method = set_length;
}

abbrev pub empty_journal : JournalFile MemoryLog
empty_journal = record { file = record { saved = []; unsaved = [] }; total_length = 10 }

abbrev pub new_writer : DurableWriter (PartFile MemoryFile) (JournalFile MemoryLog)
new_writer = record {
  file = ten_bytes;
  journal = empty_journal;
  next_sequence = 0;
  staged = [];
  staged_bytes = 0;
  first_staged_at = none;
  is_poisoned = false;
  disk_full_at = none;
  durable_bytes = 0;
}

pub makes_new_writer :
    try_new (part_data memory) (journal_file byte_sum log) ten_bytes empty_journal 0 ≡ ok new_writer
unfolding try_new part_data journal_file
makes_new_writer = refl

abbrev events : List Event
events =
    grant_event (span 0 6) 1
    ∷ stage_event 1 0 (7 ∷ 8 ∷ []) 5
    ∷ split_event 4 1 2
    ∷ stage_event 2 4 (9 ∷ []) 6
    ∷ stage_event 2 3 (9 ∷ []) 6
    ∷ flush_event
    ∷ abandon_event 1
    ∷ []

completes_five :
    let (v, m) =
      happen_all
        (part_data memory)
        (journal_file byte_sum log)
        digest_of
        true
        new_writer
        (new 10)
        events in
    byte_state m.intervals 4 ≡ some complete
unfolding part_data journal_file new abandon normalise release flush stage grant validate_range
    range_matches replace_range ensure_current_grant complete_range state_eq ensure_not_staged
    find_overlap write_all_at split_in_progress position push_merged replace_round splits_at
    encode_payload encode_record frame_body to_le_bytes sync_data add_durable blocks_of
    complete_staged no_space_offset records_of append_all byte_sum
completes_five = refl

complete-Evidence_example :
    let (v, m) =
      happen_all
        (part_data memory)
        (journal_file byte_sum log)
        digest_of
        true
        new_writer
        (new 10)
        events in
    Evidence memory log byte_sum digest_of true memory-FileLaws log-AppendLaws v.file.file
      v.journal.file 4
complete-Evidence_example =
    complete-Evidence memory log byte_sum digest_of true memory-FileLaws log-AppendLaws ten_bytes
      empty_journal 0 new_writer 10 4 events makes_new_writer completes_five

-- Two bytes of worker 1's were staged at five nanoseconds.
abbrev busy : DurableWriter (PartFile MemoryFile) (JournalFile MemoryLog)
busy = record new_writer {
  staged =
      record { range = span 0 2; record_length = 2; worker = 1; blake3 = digest_of (7 ∷ 8 ∷ []) }
      ∷ [];
  staged_bytes = 2;
  first_staged_at = some 5;
}

owns_two : AllIn (span 0 2) (in_progress 1) ten.intervals
owns_two x lo hi = ground arith

busy-IsReady : IsReady ten busy.staged
busy-IsReady = (((omega arith, omega arith), owns_two), tt, tt)

busy-CanFlush : CanFlush (part_data memory) (journal_file byte_sum log) busy ten
unfolding part_data
busy-CanFlush = record {
  usable = refl;
  canonical = ten-IsCanonical;
  same_length = refl;
  room = omega arith;
  ready = busy-IsReady;
  digests = (refl, tt);
}

payload_size :
    (offset len : ℕ) (digest : Bytes)
    → length digest ≡ 32
    → length (encode_payload (block_complete offset len digest)).1 ≡ 44
unfolding encode_payload
payload_size offset len digest h = omega (
  arith,
  h,
  length-append (to_le_bytes 8 offset) (to_le_bytes 4 len ++ digest),
  length-append (to_le_bytes 4 len) digest,
  length-to_le_bytes 8 offset,
  length-to_le_bytes 4 len,
)

small_enough : (n : ℕ) → n ≡ 44 → leb n 65535 ≡ true
small_enough n h = ground arith

abbrev block_body : ℕ → StagedBlock → Bytes
block_body n b =
    frame_body n 1 (encode_payload (block_complete b.range.start b.record_length b.blake3)).1

encodes_block :
    (n : ℕ) (b : StagedBlock)
    → length b.blake3 ≡ 32
    → encode_record byte_sum (record_of n b)
      ≡ ok (block_body n b ++ to_le_bytes 4 (byte_sum (block_body n b)))
unfolding encode_record encode_payload
encodes_block n b h =
    rw (small_enough _ (payload_size b.range.start b.record_length b.blake3 h)) refl

appended :
    (j : JournalFile MemoryLog) (encoded : Result Bytes FormatError) (frame : Bytes)
    → encoded ≡ ok frame
    → (append_encoded byte_sum log j encoded).0 ≡ ok tt
appended j (ok s) frame h = refl
appended j (err e) frame h = cc

journal-Works : Works (part_data memory) (journal_file byte_sum log)
unfolding part_data journal_file sync_data
journal-Works = record {
  data_syncs = λ d. refl;
  appends = λ j n b h. appended j (encode_record byte_sum (record_of n b)) _ (encodes_block n b h);
  journal_syncs = λ j. refl;
}

flush_if_due_completes_example :
    Flushed
      (part_data memory)
      (journal_file byte_sum log)
      busy
      ten
      (flush_if_due (part_data memory) (journal_file byte_sum log) busy ten 2000000006)
flush_if_due_completes_example =
    flush_if_due_completes (part_data memory) (journal_file byte_sum log) journal-Works busy ten 5
      2000000006 busy-CanFlush refl (omega arith) (λ h. cc)

stage-IsReady_example :
    let out =
      stage (part_data memory) (journal_file byte_sum log) digest_of true busy ten 1 2 (9 ∷ []) 6 in
    IsReady out.2 out.1.staged
stage-IsReady_example =
    stage-IsReady (part_data memory) (journal_file byte_sum log) digest_of true busy ten 1 2
      (9 ∷ []) 6 ten-IsCanonical busy-IsReady
