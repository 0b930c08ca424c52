-- ===== src/Tests/Format.antt =====
-- The journal's bytes under a checksum that adds them up.
use downpour.Prelude.{ℕ, ◌+◌, ◌%◌, ◌≡◌, ◌++◌, refl, arith, [], ◌∷◌, ok, err, length, take}
use downpour.Journal.{Bytes, FileHeader, truncate, FramedRecord}
use downpour.Journal.Format.{encode_record, decode_prefix, truncated, require_len}
use downpour.Journal.Format.Header.{IsHeader, IsChecksum}
use downpour.Journal.Format.Record.{decode_prefix-encode_record}

unfoldable pub byte_sum : Bytes → ℕ
byte_sum [] = 0
byte_sum (b ∷ s) = (b + byte_sum s) % 4294967296

pub byte_sum-IsChecksum : IsChecksum byte_sum
unfolding byte_sum
byte_sum-IsChecksum [] = omega arith
byte_sum-IsChecksum (b ∷ s) = omega arith

abbrev pub sixteen : Bytes
sixteen = 1 ∷ 2 ∷ 3 ∷ 4 ∷ 5 ∷ 6 ∷ 7 ∷ 8 ∷ 9 ∷ 10 ∷ 11 ∷ 12 ∷ 13 ∷ 14 ∷ 15 ∷ 16 ∷ []

abbrev pub small_header : FileHeader
small_header = record {
  transfer_id = sixteen;
  total_length = 1000;
  block_size = 100;
  validator_hash = sixteen ++ sixteen;
}

pub small_header-IsHeader : IsHeader small_header
small_header-IsHeader = (refl, omega arith, omega arith, refl)

abbrev cut : FramedRecord
cut = record { sequence = 3; record_ = truncate 500 }

decode_prefix-encode_record_example :
    (bytes : Bytes) × (encode_record byte_sum cut ≡ ok bytes)
    × (decode_prefix byte_sum (bytes ++ (9 ∷ [])) ≡ ok (cut, length bytes))
decode_prefix-encode_record_example =
    decode_prefix-encode_record byte_sum cut (9 ∷ []) byte_sum-IsChecksum (omega arith, omega arith)

refuses_torn : decode_prefix byte_sum (take 5 sixteen) ≡ err (truncated 11 5)
unfolding decode_prefix require_len
refuses_torn = refl
