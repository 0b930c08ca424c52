-- ===== src/Tests/Download.antt =====
-- A download of ten bytes that is granted, staged, flushed, verified and renamed.
use downpour.Prelude.{ℕ, suc, zero, ◌≡◌, refl, arith, true, false, none, Bool, List, [], ◌∷◌, ok}
use downpour.Intervals.{
  IntervalMap, new, normalise, grant, validate_range, range_matches, replace_range, complete_range,
  state_eq, position, push_merged, replace_round,
}
use downpour.Journal.{Bytes}
use downpour.Journal.Format.{encode_payload, encode_record, frame_body, to_le_bytes}
use downpour.PartFile.{PartFile, write_all_at, sync_data}
use downpour.Writer.{append_all, flush, stage}
use downpour.Writer.Batch.{
  DurableWriter, add_durable, blocks_of, complete_staged, records_of, find_overlap,
  ensure_not_staged, ensure_current_grant, no_space_offset,
}
use downpour.Writer.Reach.{Event, grant_event, stage_event, flush_event, happen_all}
use downpour.Writer.Files.{part_data, JournalFile, journal_file}
use downpour.Completion.{
  FileSystem, Sealed, not_offered, coverage, check_coverage, hash_reads, hash_file, verify,
  seal_and_rename, verify_and_rename, Named,
}
use downpour.Completion.Download.{IsFinished, named-IsFinished}
use downpour.Tests.Completion.{absorbing, absorbing-IsHash, itself, decode}
use downpour.Tests.Format.{byte_sum}
use downpour.Tests.Intervals.{span}
use downpour.Tests.Memory.{MemoryFile, MemoryLog, memory, memory-FileLaws, log, log-AppendLaws}
use downpour.Tests.Writer.{digest_of, ten_bytes, empty_journal, new_writer, makes_new_writer}

abbrev payload : Bytes
payload = 3 ∷ 1 ∷ 4 ∷ 1 ∷ 5 ∷ 9 ∷ 2 ∷ 6 ∷ 5 ∷ 3 ∷ []

abbrev whole_events : List Event
whole_events = grant_event (span 0 10) 1 ∷ stage_event 1 0 payload 5 ∷ flush_event ∷ []

abbrev byte_list : (ℕ → ℕ) → ℕ → ℕ → Bytes
byte_list f zero at = []
byte_list f (suc n) at = f at ∷ byte_list f n (suc at)

-- The path is not looked at: the file has a name or not.
abbrev one_file : FileSystem MemoryFile Bool
one_file = record {
  metadata = λ f path. ok f.size;
  open_reads = λ f path. ok (ok (byte_list f.current f.size 0) ∷ []);
  rename = λ f old path. (ok tt, f);
}

abbrev reached : DurableWriter (PartFile MemoryFile) (JournalFile MemoryLog) × IntervalMap
reached =
    happen_all (part_data memory) (journal_file byte_sum log) digest_of true new_writer (new 10)
      whole_events

abbrev outcome : Named absorbing absorbing absorbing one_file (journal_file byte_sum log)
outcome =
    verify_and_rename absorbing absorbing absorbing one_file (journal_file byte_sum log) decode
      reached.0.file.file reached.0.journal false true 10 reached.1 none reached.0.next_sequence

abbrev answer : Sealed Bool
answer = record { final_path = true; final_blake3 = payload; digest_checked = not_offered }

gets_its_name : outcome ≡ (ok answer, outcome.1, outcome.2)
unfolding verify_and_rename verify seal_and_rename check_coverage coverage hash_file hash_reads
    part_data journal_file new normalise flush stage grant validate_range range_matches
    replace_range ensure_current_grant complete_range state_eq ensure_not_staged find_overlap
    write_all_at position push_merged replace_round encode_payload encode_record frame_body
    to_le_bytes sync_data add_durable blocks_of complete_staged no_space_offset records_of
    append_all byte_sum
gets_its_name = refl

reached_length : reached.1.total_length ≡ 10
unfolding part_data journal_file new normalise flush stage grant validate_range range_matches
    replace_range ensure_current_grant complete_range state_eq ensure_not_staged find_overlap
    write_all_at position push_merged replace_round encode_payload encode_record frame_body
    to_le_bytes sync_data add_durable blocks_of complete_staged no_space_offset records_of
    append_all byte_sum
reached_length = refl

named-IsFinished_example :
    (10 ≡ reached.1.total_length)
    × IsFinished memory log byte_sum digest_of true memory-FileLaws log-AppendLaws absorbing
        absorbing absorbing itself itself itself absorbing-IsHash absorbing-IsHash absorbing-IsHash
        one_file decode reached.0.file.file outcome.2.file 10 payload
named-IsFinished_example =
    named-IsFinished memory log byte_sum digest_of true memory-FileLaws log-AppendLaws absorbing
      absorbing absorbing itself itself itself absorbing-IsHash absorbing-IsHash absorbing-IsHash
      one_file decode ten_bytes empty_journal 0 new_writer 10 whole_events false true 10 none answer
      outcome.1 outcome.2 makes_new_writer (omega (arith, reached_length)) gets_its_name
