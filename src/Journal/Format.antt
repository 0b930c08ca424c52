-- ===== src/Journal/Format.antt =====
-- crates/downpour-storage/src/journal/format.rs: the bytes of headers and records. The checksum is
-- the crc crate's CRC-32C, an argument here. Its answer is a u32.
pub mod Reads
pub mod Header
pub mod Payload
pub mod Record
use downpour.Prelude.{
  ℕ, zero, suc, ◌+◌, ◌-◌, ◌*◌, ◌/◌, ◌%◌, Bool, true, false, not, ◌||◌, List, [], ◌∷◌, ◌++◌, ltb,
  leb, ◌==◌, if◌then◌else◌, max_u64, length, take, drop, get_elem?, Result, ok, err, ◌>>=◌, ◌>>◌,
  Option, none, some,
}
use downpour.Text.{text_eq}
use downpour.Journal.{
  Bytes, FileHeader, JournalRecord, block_complete, checkpoint, identity_update, truncate, sealed,
  FramedRecord,
}

pub data FormatError : Type 0 where
  truncated : ℕ → ℕ → FormatError
  invalid_magic : Bytes → FormatError
  header_checksum_mismatch : ℕ → ℕ → FormatError
  unsupported_version : ℕ → ℕ → FormatError
  unsupported_flags : ℕ → FormatError
  record_checksum_mismatch : ℕ → ℕ → ℕ → FormatError
  unknown_record_kind : ℕ → FormatError
  invalid_payload_length : ℕ → ℕ → ℕ → FormatError
  payload_too_large : ℕ → ℕ → FormatError

abbrev pub Decoded {ℓ} : Type ℓ → Type ℓ
Decoded A = Result A FormatError

abbrev pub ensure : Bool → FormatError → Decoded (Unit {0})
ensure true e = ok tt
ensure false e = err e

-- `to_le_bytes` of an integer of this many bytes.
unfoldable pub to_le_bytes : ℕ → ℕ → Bytes
to_le_bytes zero n = []
to_le_bytes (suc w) n = (n % 256) ∷ to_le_bytes w (n / 256)

unfoldable pub from_le_bytes : Bytes → ℕ
from_le_bytes [] = 0
from_le_bytes (b ∷ s) = b + 256 * from_le_bytes s

-- A usize has 64 bits.
unfoldable pub require_len : Bytes → ℕ → Decoded (Unit {0})
require_len bytes needed = ensure (leb needed (length bytes)) (truncated needed (length bytes))

unfoldable pub byte_at : Bytes → ℕ → Decoded ℕ
byte_at bytes offset = elim (get_elem? bytes offset) [
  | none ↦ err (truncated (if offset == max_u64 then max_u64 else offset + 1) (length bytes))
  | some b ↦ ok b
]

-- `bytes.get(offset..end)`
abbrev pub slice : Bytes → ℕ → ℕ → Decoded Bytes
slice bytes offset end =
    ensure (leb end (length bytes)) (truncated end (length bytes))
    >> ok (take (end - offset) (drop offset bytes))

unfoldable pub array_at : ℕ → Bytes → ℕ → Decoded Bytes
array_at n bytes offset =
    ensure (leb (offset + n) max_u64) (truncated max_u64 (length bytes))
    >> slice bytes offset (offset + n)

unfoldable pub read_uint : ℕ → Bytes → ℕ → Decoded ℕ
read_uint w bytes offset = array_at w bytes offset >>= λ field. ok (from_le_bytes field)

abbrev pub read_u16 : Bytes → ℕ → Decoded ℕ
read_u16 = read_uint 2

abbrev pub read_u32 : Bytes → ℕ → Decoded ℕ
read_u32 = read_uint 4

abbrev pub read_u64 : Bytes → ℕ → Decoded ℕ
read_u64 = read_uint 8

abbrev pub magic : Bytes
magic = b'D' ∷ b'P' ∷ b'J' ∷ b'1' ∷ []

-- The header in front of its checksum.
unfoldable pub header_body : FileHeader → Bytes
header_body h =
    magic
    ++ (to_le_bytes 2 1
        ++ (to_le_bytes 2 0
            ++ (h.transfer_id
                ++ (to_le_bytes 8 h.total_length
                    ++ (to_le_bytes 4 h.block_size ++ h.validator_hash)))))

unfoldable pub encode_header : (Bytes → ℕ) → FileHeader → Bytes
encode_header crc h = header_body h ++ to_le_bytes 4 (crc (header_body h))

unfoldable pub decode_fields : Bytes → Decoded FileHeader
decode_fields s = array_at 16 s 8 >>= λ transfer_id. read_u64 s 24 >>= λ total_length.
    read_u32 s 32 >>= λ block_size. array_at 32 s 36 >>= λ validator_hash. ok (record {
      transfer_id = transfer_id;
      total_length = total_length;
      block_size = block_size;
      validator_hash = validator_hash;
    })

unfoldable pub decode_version : Bytes → Decoded FileHeader
decode_version s = read_u16 s 4 >>= λ version.
    ensure (version == 1) (unsupported_version version 1) >> read_u16 s 6 >>= λ flags.
    ensure (flags == 0) (unsupported_flags flags) >> decode_fields s

unfoldable pub decode_header : (Bytes → ℕ) → Bytes → Decoded FileHeader
decode_header crc s = require_len s 72 >> array_at 4 s 0 >>= λ found.
    ensure (text_eq found magic) (invalid_magic found) >> read_u32 s 68 >>= λ stored.
    ensure (stored == crc (take 68 s)) (header_checksum_mismatch stored (crc (take 68 s)))
    >> decode_version s

-- The kind of a record and its payload.
unfoldable pub encode_payload : JournalRecord → ℕ × Bytes
encode_payload (block_complete offset len blake3) =
    (0x01, to_le_bytes 8 offset ++ (to_le_bytes 4 len ++ blake3))
encode_payload (checkpoint covered_bytes wall_clock) =
    (0x02, to_le_bytes 8 covered_bytes ++ to_le_bytes 8 wall_clock)
encode_payload (identity_update cbor) = (0x03, cbor)
encode_payload (truncate new_length) = (0x04, to_le_bytes 8 new_length)
encode_payload (sealed final_blake3) = (0x05, final_blake3)

-- A frame in front of its checksum.
unfoldable pub frame_body : ℕ → ℕ → Bytes → Bytes
frame_body sequence kind payload =
    to_le_bytes 8 sequence ++ (kind ∷ (to_le_bytes 2 (length payload) ++ payload))

-- The second conversion of the length, to u16, refuses the same lengths as the first test.
unfoldable pub encode_record : (Bytes → ℕ) → FramedRecord → Decoded Bytes
encode_record crc f =
    let (kind, payload) = encode_payload f.record_ in
    let body = frame_body f.sequence kind payload in
    ensure (leb (length payload) 65535) (payload_too_large (length payload) 65535)
    >> ok (body ++ to_le_bytes 4 (crc body))

abbrev pub require_payload_len : ℕ → Bytes → ℕ → Decoded (Unit {0})
require_payload_len kind payload expected =
    ensure (length payload == expected) (invalid_payload_length kind expected (length payload))

abbrev pub decode_block_complete : Bytes → Decoded JournalRecord
decode_block_complete payload =
    require_payload_len 0x01 payload 44 >> read_u64 payload 0 >>= λ offset.
    read_u32 payload 8 >>= λ len.
    array_at 32 payload 12 >>= λ blake3. ok (block_complete offset len blake3)

abbrev pub decode_checkpoint : Bytes → Decoded JournalRecord
decode_checkpoint payload =
    require_payload_len 0x02 payload 16 >> read_u64 payload 0 >>= λ covered_bytes.
    read_u64 payload 8 >>= λ wall_clock. ok (checkpoint covered_bytes wall_clock)

abbrev pub decode_truncate : Bytes → Decoded JournalRecord
decode_truncate payload = require_payload_len 0x04 payload 8 >> read_u64 payload 0 >>= λ new_length.
    ok (truncate new_length)

abbrev pub decode_sealed : Bytes → Decoded JournalRecord
decode_sealed payload =
    require_payload_len 0x05 payload 32 >> array_at 32 payload 0 >>= λ final_blake3.
    ok (sealed final_blake3)

unfoldable pub decode_payload : ℕ → Bytes → Decoded JournalRecord
decode_payload kind payload =
    if kind == 0x01
    then decode_block_complete payload
    else if kind == 0x02
    then decode_checkpoint payload
    else if kind == 0x03
    then ok (identity_update payload)
    else if kind == 0x04
    then decode_truncate payload
    else if kind == 0x05
    then decode_sealed payload
    else err (unknown_record_kind kind)

-- From the checksum on, which stands at `checksum_offset`.
unfoldable pub decode_frame : (Bytes → ℕ) → Bytes → ℕ → ℕ → ℕ → Decoded (FramedRecord × ℕ)
decode_frame crc s sequence kind checksum_offset = read_u32 s checksum_offset >>= λ stored.
    ensure (stored == crc (take checksum_offset s))
      (record_checksum_mismatch sequence stored (crc (take checksum_offset s)))
    >> slice s 11 checksum_offset
    >>= λ payload. decode_payload kind payload >>= λ decoded.
        ok (record { sequence = sequence; record_ = decoded }, checksum_offset + 4)

unfoldable pub decode_prefix : (Bytes → ℕ) → Bytes → Decoded (FramedRecord × ℕ)
decode_prefix crc s = require_len s 11 >> read_u64 s 0 >>= λ sequence. byte_at s 8 >>= λ kind.
    read_u16 s 9 >>= λ payload_len.
    ensure (leb (11 + payload_len) max_u64) (truncated max_u64 (length s))
    >> ensure (leb (11 + payload_len + 4) max_u64) (truncated max_u64 (length s))
    >> require_len s (11 + payload_len + 4)
    >> decode_frame crc s sequence kind (11 + payload_len)
