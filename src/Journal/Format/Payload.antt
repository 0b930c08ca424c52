-- ===== src/Journal/Format/Payload.antt =====
-- The payload of a record is read back from its bytes.
use downpour.Prelude.{
  ℕ, ◌+◌, ◌^◌, ◌≤◌, ◌<◌, true, [], ◌++◌, append-nil, ◌≡◌, refl, sym, ◌∙◌, arith, ◌==◌, length,
  length-append, ok,
}
use downpour.Journal.{
  Bytes, JournalRecord, block_complete, checkpoint, identity_update, truncate, sealed,
}
use downpour.Journal.Format.{to_le_bytes, encode_payload, decode_payload}
use downpour.Journal.Format.Reads.{
  HasAt, HasAt-front, HasAt-skip, array_at-HasAt, read_uint-HasAt, length-to_le_bytes,
}

-- The ranges of the source's types, and a payload of at most 65535 bytes.
abbrev pub IsRecord : JournalRecord → Type 0
IsRecord (block_complete offset len blake3) =
    (offset < 256 ^ 8) × (len < 256 ^ 4) × (length blake3 ≡ 32)
IsRecord (checkpoint covered_bytes wall_clock) = (covered_bytes < 256 ^ 8) × (wall_clock < 256 ^ 8)
IsRecord (identity_update cbor) = length cbor ≤ 65535
IsRecord (truncate new_length) = new_length < 256 ^ 8
IsRecord (sealed final_blake3) = length final_blake3 ≡ 32

HasAt-whole : (field : Bytes) → HasAt field 0 field
HasAt-whole field = ([], [], sym (append-nil field), refl)

-- A second field behind one of this length.
HasAt-second :
    (front field after : Bytes) (offset : ℕ)
    → length front ≡ offset
    → HasAt (front ++ (field ++ after)) offset field
HasAt-second front field after offset n = (front, after, refl, n)

length-two : (w v m n : ℕ) → length (to_le_bytes w m ++ to_le_bytes v n) ≡ w + v
length-two w v m n =
    length-append (to_le_bytes w m) (to_le_bytes v n)
    ∙ omega (arith, length-to_le_bytes w m, length-to_le_bytes v n)

length-three :
    (w v m n : ℕ) (s : Bytes)
    → length (to_le_bytes w m ++ (to_le_bytes v n ++ s)) ≡ w + v + length s
length-three w v m n s =
    length-append (to_le_bytes w m) (to_le_bytes v n ++ s)
    ∙ omega
        (arith, length-append (to_le_bytes v n) s, length-to_le_bytes w m, length-to_le_bytes v n)

pub decode_payload-encode_payload :
    (r : JournalRecord)
    → IsRecord r
    → decode_payload (encode_payload r).0 (encode_payload r).1 ≡ ok r
unfolding decode_payload encode_payload
decode_payload-encode_payload (block_complete offset len blake3) v =
    let s = to_le_bytes 8 offset ++ (to_le_bytes 4 len ++ blake3) in
    let size : (length s == 44) ≡ true =
      let total = length-three 8 4 offset len blake3 in let width = v.2 in ground arith in
    let last : HasAt s 12 blake3 =
      HasAt-skip (to_le_bytes 8 offset) (to_le_bytes 4 len ++ blake3) 4 12 blake3
        (omega (arith, length-to_le_bytes 8 offset))
        (HasAt-skip (to_le_bytes 4 len) blake3 0 4 blake3 (omega (arith, length-to_le_bytes 4 len))
          (HasAt-whole blake3)) in
    rw (
      size,
      read_uint-HasAt 8 s 0 offset (HasAt-front (to_le_bytes 8 offset) _) v.0 (omega arith),
      read_uint-HasAt 4 s 8 len
          (HasAt-second (to_le_bytes 8 offset) (to_le_bytes 4 len) blake3 8
            (length-to_le_bytes 8 offset))
          v.1 (omega arith),
      array_at-HasAt 32 s 12 blake3 last v.2 (omega arith),
    )
decode_payload-encode_payload (checkpoint a b) v =
    let s = to_le_bytes 8 a ++ to_le_bytes 8 b in
    let size : (length s == 16) ≡ true = let total = length-two 8 8 a b in ground arith in
    rw (
      size,
      read_uint-HasAt 8 s 0 a (HasAt-front (to_le_bytes 8 a) _) v.0 (omega arith),
      read_uint-HasAt 8 s 8 b
          (HasAt-skip (to_le_bytes 8 a) (to_le_bytes 8 b) 0 8 _
            (omega (arith, length-to_le_bytes 8 a)) (HasAt-whole (to_le_bytes 8 b)))
          v.1 (omega arith),
    )
decode_payload-encode_payload (identity_update cbor) v = refl
decode_payload-encode_payload (truncate n) v =
    let size : (length (to_le_bytes 8 n) == 8) ≡ true =
      let total = length-to_le_bytes 8 n in ground arith in
    rw (size, read_uint-HasAt 8 _ 0 n (HasAt-whole (to_le_bytes 8 n)) v (omega arith))
decode_payload-encode_payload (sealed d) v =
    let size : (length d == 32) ≡ true = ground arith in
    rw (size, array_at-HasAt 32 d 0 d (HasAt-whole d) v (omega arith))

-- No valid record is refused for its size.
pub payload-fits : (r : JournalRecord) → IsRecord r → length (encode_payload r).1 ≤ 65535
unfolding encode_payload
payload-fits (block_complete offset len blake3) v =
    omega (arith, length-three 8 4 offset len blake3, v.2)
payload-fits (checkpoint a b) v = omega (arith, length-two 8 8 a b)
payload-fits (identity_update cbor) v = v
payload-fits (truncate n) v = omega (arith, length-to_le_bytes 8 n)
payload-fits (sealed d) v = omega (arith, v)
