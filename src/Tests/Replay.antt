-- ===== src/Tests/Replay.antt =====
-- A journal of two records with three bytes of a third one behind them.
use downpour.Prelude.{err, ◌≢◌, ℕ, ◌+◌, ◌≡◌, ◌++◌, refl, arith, List, [], ◌∷◌, ok, length, take}
use downpour.Journal.{Bytes, truncate, FramedRecord}
use downpour.Journal.Format.{
  encode_header, truncated, encode_record, encode_payload, frame_body, to_le_bytes,
}
use downpour.Journal.Replay.Fuel.{replay_bytes-total}
use downpour.Journal.Replay.{
  out_of_fuel, stopped, damaged_tail, replay_round, replay_bytes, recover_journal,
}
use downpour.Journal.Replay.Torn.{recover_journal-torn}
use downpour.Journal.Replay.Written.{written, Numbered, replay_bytes-written}
use downpour.Tests.Format.{byte_sum, byte_sum-IsChecksum, small_header, small_header-IsHeader}

abbrev shrink : ℕ → ℕ → FramedRecord
shrink sequence new_length = record { sequence = sequence; record_ = truncate new_length }

abbrev two_records : List FramedRecord
two_records = shrink 0 500 ∷ shrink 1 400 ∷ []

abbrev torn : Bytes
torn = 2 ∷ 0 ∷ 0 ∷ []

stops_at_torn : replay_round byte_sum 2 torn ≡ stopped (damaged_tail (truncated 11 3))
unfolding replay_round
stops_at_torn = refl

two_records-Numbered : Numbered 0 two_records
two_records-Numbered = (refl, (omega arith, omega arith), (refl, (omega arith, omega arith), tt))

written_size : length (written byte_sum two_records) ≡ 46
unfolding written encode_record encode_payload frame_body to_le_bytes byte_sum
written_size = refl

replay_bytes-written_example :
    replay_bytes byte_sum
      (encode_header byte_sum small_header ++ (written byte_sum two_records ++ torn))
    ≡ ok (record {
      header = small_header;
      records = two_records;
      valid_bytes = 72 + length (written byte_sum two_records);
      stop = damaged_tail (truncated 11 3);
    })
replay_bytes-written_example =
    replay_bytes-written byte_sum small_header two_records torn (damaged_tail (truncated 11 3))
      byte_sum-IsChecksum small_header-IsHeader two_records-Numbered stops_at_torn
      (omega (arith, written_size))

abbrev third : Bytes
third =
    2 ∷ 0 ∷ 0 ∷ 0 ∷ 0 ∷ 0 ∷ 0 ∷ 0 ∷ 4 ∷ 8 ∷ 0 ∷ 44 ∷ 1 ∷ 0 ∷ 0 ∷ 0 ∷ 0 ∷ 0 ∷ 0 ∷ 59 ∷ 0 ∷ 0 ∷ 0 ∷ []

encodes_third : encode_record byte_sum (shrink 2 300) ≡ ok third
unfolding encode_record encode_payload frame_body to_le_bytes byte_sum
encodes_third = refl

recover_journal-torn_example :
    recover_journal byte_sum
      (encode_header byte_sum small_header ++ (written byte_sum two_records ++ take 20 third))
    ≡ (
      ok (record {
        header = small_header;
        records = two_records;
        valid_bytes = 72 + length (written byte_sum two_records);
        stop = damaged_tail (truncated 23 20);
      }),
      encode_header byte_sum small_header ++ written byte_sum two_records,
    )
recover_journal-torn_example =
    recover_journal-torn byte_sum small_header two_records (shrink 2 300) third 20
      byte_sum-IsChecksum small_header-IsHeader two_records-Numbered (omega arith, omega arith)
      encodes_third (omega arith) (omega (arith, written_size))

replay_bytes-total_example : replay_bytes byte_sum torn ≢ err out_of_fuel
replay_bytes-total_example = replay_bytes-total byte_sum torn
