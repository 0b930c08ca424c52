-- ===== src/Tests/Recovery.antt =====
-- A store of one row, a part file of ten bytes and a journal of two records: four bytes are complete,
-- and the length is cut to six.
use downpour.Prelude.{◌++◌, true, false, Option, some, none, List, [], ◌∷◌, ◌≡◌, refl, arith, ok}
use downpour.Text.{text_eq, lit}
use downpour.Intervals.{
  complete_range, grant, new, push_merged, range_matches, replace_range, replace_round, state_eq,
  validate_range, normalise, pending, complete,
}
use downpour.Journal.{FileHeader, FramedRecord, block_complete, truncate}
use downpour.Journal.Replay.{recover_journal, replay_bytes, replay_loop, replay_round}
use downpour.Journal.Format.{
  decode_header, require_len, header_body, to_le_bytes, array_at, read_uint, from_le_bytes,
  decode_version, decode_fields, byte_at, decode_frame, decode_payload, decode_prefix,
  encode_record, encode_payload, frame_body, encode_header,
}
use downpour.Journal.State.{
  apply, apply_all, check_windows, insert_by_offset, sort_by_offset, EffectiveState,
  effective_state,
}
use downpour.Journal.Replay.Written.{written}
use downpour.PartFile.{prepare, prepare_with, open_existing, reopen}
use downpour.Metadata.{
  complete_interval, new_error_kind, segments_valid, sum_intervals, validate_intervals,
  DownloadMetadata, MetadataStore, PersistedCheckpoint, transferring, paused, failed,
}
use downpour.Remote.Proof.{observation_of}
use downpour.ContentRange.{bytes, from_to}
use downpour.Remote.{RangeProof, proven}
use downpour.Recovery.{
  compare_checkpoint, merge_blocks, push_block, rebuild, Reconciliation, no_checkpoint, intact,
}
use downpour.Recovery.Reconcile.{complete_intervals, fail, persist, World, reconcile_download}
use downpour.Recovery.Answers.{IsSound}
use downpour.Recovery.Sound.{reconcile_download-IsSound}
use downpour.Recovery.Kept.{Recovery, effective_state-Recovery}
use downpour.Tests.Format.{byte_sum, sixteen}
use downpour.Tests.Memory.{MemoryFile, memory}

record MemoryStore : Type 0 where
  row : Option DownloadMetadata
  cached : Option PersistedCheckpoint

abbrev one_row : MetadataStore MemoryStore
one_row = record {
  load_download = λ s id. ok s.row;
  save_download = λ s row. (ok tt, record s { row = some row });
  load_checkpoint = λ s id. ok s.cached;
  save_checkpoint = λ s id sequence now checkpoint. (
    ok true,
    record s {
      cached =
          some
            (record { journal_sequence = sequence; written_at_ms = now; checkpoint = checkpoint });
    },
  );
}

abbrev pub ten_header : FileHeader
ten_header = record {
  transfer_id = sixteen;
  total_length = 10;
  block_size = 4;
  validator_hash = sixteen ++ sixteen;
}

abbrev pub cut_records : List FramedRecord
cut_records =
    record { sequence = 0; record_ = block_complete 0 4 (sixteen ++ sixteen) }
    ∷ record { sequence = 1; record_ = truncate 6 }
    ∷ []

abbrev ten_proof : RangeProof
ten_proof = record {
  total_length = 10;
  observed = bytes 0 0 (some 10);
  requested = from_to 0 0;
  observation = observation_of (from_to 0 0) 206 (some (lit "bytes 0-0/10")) none 1;
}

abbrev crashed : World MemoryStore MemoryFile
crashed = record {
  store = record {
    row = some (record {
      id = sixteen;
      download_state = transferring;
      updated_at_ms = 1;
      total_length = some 10;
      covered_bytes = 0;
      error_kind = none;
      space_reserved = true;
      range_support = proven ten_proof;
    });
    cached = none;
  };
  part = some (ok (record { size = 10; current = λ x. 0; synced = λ x. 0 }));
  journal = some (encode_header byte_sum ten_header ++ written byte_sum cut_records);
}

abbrev recovered_once : Reconciliation
recovered_once = record {
  download_state = paused;
  error_kind = none;
  intervals = record {
    total_length = 6;
    intervals =
        record { start = 0; end = 4; state = complete }
        ∷ record { start = 4; end = 6; state = pending }
        ∷ [];
  };
  covered_bytes = 4;
  next_sequence = 2;
  seal = none;
  divergence = no_checkpoint;
  extent = intact;
  journal_tail_repaired = false;
  space_reserved = true;
}

first_recovery :
    (reconcile_download one_row memory byte_sum crashed sixteen 7).0 ≡ ok recovered_once
unfolding reconcile_download open_existing reopen recover_journal replay_bytes decode_header
    require_len encode_header header_body to_le_bytes array_at text_eq read_uint from_le_bytes
    byte_sum decode_version decode_fields replay_loop complete_range grant new push_merged
    range_matches replace_range replace_round state_eq validate_range byte_at decode_frame
    decode_payload decode_prefix replay_round apply apply_all check_windows effective_state
    insert_by_offset sort_by_offset complete_interval new_error_kind segments_valid sum_intervals
    validate_intervals prepare prepare_with compare_checkpoint complete_intervals fail merge_blocks
    persist push_block rebuild written encode_record encode_payload frame_body normalise
first_recovery = refl

-- The recovered row has the length six, and the journal's header still has ten: the next restart
-- takes the journal for another download's.
second_recovery :
    let again =
      reconcile_download one_row memory byte_sum
        (reconcile_download one_row memory byte_sum crashed sixteen 7).1
        sixteen
        8 in
    again.0
    ≡ ok (record {
      download_state = failed;
      error_kind = some (lit "storage.journal-mismatched");
      intervals = new 6;
      covered_bytes = 0;
      next_sequence = 0;
      seal = none;
      divergence = no_checkpoint;
      extent = intact;
      journal_tail_repaired = false;
      space_reserved = false;
    })
unfolding reconcile_download open_existing reopen recover_journal replay_bytes decode_header
    require_len encode_header header_body to_le_bytes array_at text_eq read_uint from_le_bytes
    byte_sum decode_version decode_fields replay_loop complete_range grant new push_merged
    range_matches replace_range replace_round state_eq validate_range byte_at decode_frame
    decode_payload decode_prefix replay_round apply apply_all check_windows effective_state
    insert_by_offset sort_by_offset complete_interval new_error_kind segments_valid sum_intervals
    validate_intervals prepare prepare_with compare_checkpoint complete_intervals fail merge_blocks
    persist push_block rebuild written encode_record encode_payload frame_body normalise
second_recovery = refl

reconcile_download-IsSound_example :
    IsSound one_row memory byte_sum crashed.journal crashed.part recovered_once
reconcile_download-IsSound_example =
    reconcile_download-IsSound one_row memory byte_sum crashed sixteen 7 recovered_once
      first_recovery

abbrev pub cut_state : EffectiveState
cut_state = record {
  effective_length = 6;
  last_truncate = some 6;
  identities = [];
  blocks = record { offset = 0; len = 4; blake3 = sixteen ++ sixteen } ∷ [];
  seal = none;
}

pub folds_cut : effective_state ten_header cut_records ≡ ok cut_state
unfolding effective_state apply apply_all check_windows insert_by_offset sort_by_offset
folds_cut = refl

effective_state-Recovery_example : Recovery cut_state 10
effective_state-Recovery_example =
    effective_state-Recovery ten_header cut_records cut_state 10 (omega arith) folds_cut
