-- ===== src/Journal/Format/Record.antt =====
-- A framed record is read back from its bytes.
use downpour.Prelude.{
  ℕ, ◌+◌, ◌^◌, ◌≤◌, ◌<◌, true, [], ◌∷◌, ◌++◌, append_assoc, ◌≡◌, refl, sym, ◌∙◌, arith, leb,
  max_u64, length, length-append, take, take-length, ok,
}
use downpour.Journal.{Bytes, FramedRecord}
use downpour.Journal.Format.{
  byte_at, to_le_bytes, encode_payload, frame_body, encode_record, decode_payload, decode_frame,
  decode_prefix,
}
use downpour.Journal.Format.Reads.{
  slice-HasAt, HasAt, HasAt-front, HasAt-skip, read_uint-HasAt, length-to_le_bytes,
}
use downpour.Journal.Format.Header.{IsChecksum, same_sum, require_len-ok}
use downpour.Journal.Format.Payload.{IsRecord, decode_payload-encode_payload, payload-fits}

-- The fields of a frame, and what follows it.
module _ (sequence kind : ℕ) (payload rest : Bytes) where
  frame_laid_out :
      frame_body sequence kind payload ++ rest
      ≡ to_le_bytes 8 sequence ++ (kind ∷ (to_le_bytes 2 (length payload) ++ (payload ++ rest)))
  unfolding frame_body
  frame_laid_out = simp append_assoc

  frame_at :
      (offset : ℕ) (field : Bytes)
      → HasAt
          (to_le_bytes 8 sequence ++ (kind ∷ (to_le_bytes 2 (length payload) ++ (payload ++ rest))))
          offset
          field
      → HasAt (frame_body sequence kind payload ++ rest) offset field
  frame_at offset field (before, after, e, k) = (before, after, frame_laid_out ∙ e, k)

  sequence_at : HasAt (frame_body sequence kind payload ++ rest) 0 (to_le_bytes 8 sequence)
  sequence_at = frame_at 0 _ (HasAt-front (to_le_bytes 8 sequence) _)

  kind_at : byte_at (frame_body sequence kind payload ++ rest) 8 ≡ ok kind
  unfolding byte_at frame_body to_le_bytes
  kind_at = refl

  length_at : HasAt (frame_body sequence kind payload ++ rest) 9 (to_le_bytes 2 (length payload))
  length_at = frame_at 9 _ (
      HasAt-skip (to_le_bytes 8 sequence) _ 1 9 _ (omega (arith, length-to_le_bytes 8 sequence))
        (HasAt-skip (kind ∷ []) _ 0 1 _ refl (HasAt-front (to_le_bytes 2 (length payload)) _)))

  payload_at : HasAt (frame_body sequence kind payload ++ rest) 11 payload
  payload_at = frame_at 11 _ (
      HasAt-skip (to_le_bytes 8 sequence) _ 3 11 _ (omega (arith, length-to_le_bytes 8 sequence)) (
        HasAt-skip (kind ∷ []) _ 2 3 _ refl (
          HasAt-skip (to_le_bytes 2 (length payload)) _ 0 2 _
            (omega (arith, length-to_le_bytes 2 (length payload))) (HasAt-front payload rest))))

pub length-frame_body :
    (sequence kind : ℕ) (payload : Bytes)
    → length (frame_body sequence kind payload) ≡ 11 + length payload
unfolding frame_body
length-frame_body sequence kind payload =
    length-append (to_le_bytes 8 sequence) _
    ∙ omega (
      arith,
      length-to_le_bytes 8 sequence,
      length-append (to_le_bytes 2 (length payload)) payload,
      length-to_le_bytes 2 (length payload),
    )

-- A valid frame: a u64 sequence number and a record in the ranges of its fields.
abbrev pub IsFramed : FramedRecord → Type 0
IsFramed f = (f.sequence < 256 ^ 8) × IsRecord f.record_

decode_frame-frame_body :
    (crc : Bytes → ℕ) (f : FramedRecord) (kind : ℕ) (payload rest : Bytes)
    → IsChecksum crc
    → length payload ≤ 65535
    → decode_payload kind payload ≡ ok f.record_
    → decode_frame crc
        (frame_body f.sequence kind payload
          ++ (to_le_bytes 4 (crc (frame_body f.sequence kind payload)) ++ rest))
        f.sequence
        kind
        (11 + length payload)
      ≡ ok (f, 11 + length payload + 4)
unfolding decode_frame
decode_frame-frame_body crc f kind payload rest c fits e =
    let body = frame_body f.sequence kind payload in
    let tail = to_le_bytes 4 (crc body) ++ rest in
    let len = length-frame_body f.sequence kind payload in
    let protected : take (11 + length payload) (body ++ tail) ≡ body =
      rw (sym len) (take-length body tail) in
    rw (
      read_uint-HasAt 4 _ (11 + length payload) (crc body) (body, rest, refl, len) (c body)
          (omega arith),
      protected,
      same_sum (crc body),
      slice-HasAt _ 11 (11 + length payload) payload (payload_at f.sequence kind payload tail) refl,
      e,
    )

decode_prefix-frame_body :
    (crc : Bytes → ℕ) (f : FramedRecord) (kind : ℕ) (payload rest : Bytes)
    → IsChecksum crc
    → f.sequence < 256 ^ 8
    → length payload ≤ 65535
    → decode_payload kind payload ≡ ok f.record_
    → decode_prefix crc (
        frame_body f.sequence kind payload
        ++ (to_le_bytes 4 (crc (frame_body f.sequence kind payload)) ++ rest))
      ≡ ok (f, 11 + length payload + 4)
unfolding decode_prefix
decode_prefix-frame_body crc f kind payload rest c u fits e =
    let body = frame_body f.sequence kind payload in
    let tail = to_le_bytes 4 (crc body) ++ rest in
    let total : 11 + length payload + 4 ≤ length (body ++ tail) = omega (
      arith,
      length-append body tail,
      length-frame_body f.sequence kind payload,
      length-append (to_le_bytes 4 (crc body)) rest,
      length-to_le_bytes 4 (crc body),
    ) in
    let small₁ : leb (11 + length payload) max_u64 ≡ true = ground arith in
    let small₂ : leb (11 + length payload + 4) max_u64 ≡ true = ground arith in
    rw
      (
        require_len-ok (body ++ tail) 11 (omega arith),
        read_uint-HasAt 8 _ 0 f.sequence (sequence_at f.sequence kind payload tail) u (omega arith),
        kind_at f.sequence kind payload tail,
        read_uint-HasAt 2 _ 9 (length payload) (length_at f.sequence kind payload tail)
            (omega arith) (omega arith),
        small₁,
        small₂,
        require_len-ok (body ++ tail) (11 + length payload + 4) total,
      )
      (decode_frame-frame_body crc f kind payload rest c fits e)

-- A frame whose fields are in the ranges of their types, with a payload of at most 65535 bytes, is
-- encoded, and the first frame that is decoded from its bytes, whatever bytes follow them, is the
-- frame with the number of its bytes, for every checksum function with u32 values.
pub decode_prefix-encode_record :
    (crc : Bytes → ℕ) (f : FramedRecord) (rest : Bytes)
    → IsChecksum crc
    → IsFramed f
    → (bytes : Bytes) × (encode_record crc f ≡ ok bytes)
      × (decode_prefix crc (bytes ++ rest) ≡ ok (f, length bytes))
unfolding encode_record
decode_prefix-encode_record crc f rest c v =
    let kind = (encode_payload f.record_).0 in
    let payload = (encode_payload f.record_).1 in
    let body = frame_body f.sequence kind payload in
    let fits = payload-fits f.record_ v.1 in
    let small : leb (length payload) 65535 ≡ true = ground arith in
    let size : length (body ++ to_le_bytes 4 (crc body)) ≡ 11 + length payload + 4 =
      length-append body _
      ∙ omega (arith, length-frame_body f.sequence kind payload, length-to_le_bytes 4 (crc body)) in
    (
      body ++ to_le_bytes 4 (crc body),
      rw small,
      rw (append_assoc body (to_le_bytes 4 (crc body)) rest, size)
          (decode_prefix-frame_body crc f kind payload rest c v.0 fits
            (decode_payload-encode_payload f.record_ v.1)),
    )
