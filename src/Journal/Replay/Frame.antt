-- ===== src/Journal/Replay/Frame.antt =====
-- A round of the replay takes a frame that was written.
use downpour.Prelude.{
  ℕ, ◌+◌, ◌≤◌, true, false, [], ◌++◌, append_assoc, append-nil, ◌≡◌, refl, sym, ap, ◌∙◌, arith, ltb,
  leb, length, length-append, take, drop, take-length, drop-length, ok,
}
use downpour.Journal.{Bytes, FramedRecord}
use downpour.Journal.Format.{
  to_le_bytes, from_le_bytes, encode_payload, frame_body, encode_record, decode_prefix,
}
use downpour.Journal.Format.Reads.{from_le_bytes-to_le_bytes, length-to_le_bytes}
use downpour.Journal.Format.Header.{IsChecksum, same_sum}
use downpour.Journal.Format.Payload.{payload-fits}
use downpour.Journal.Format.Record.{IsFramed, length-frame_body, decode_prefix-encode_record}
use downpour.Journal.Replay.{taken, decode_read, suffix_length, replay_round}

prefix_field :
    (sequence kind : ℕ) (payload rest : Bytes)
    → take 2 (drop 9 (take 11 (frame_body sequence kind payload ++ rest)))
      ≡ to_le_bytes 2 (length payload)
unfolding frame_body to_le_bytes
prefix_field sequence kind payload rest = refl

-- The length field of a frame is read from its first eleven bytes.
pub suffix_length-frame_body :
    (sequence kind : ℕ) (payload rest : Bytes)
    → length payload ≤ 65535
    → suffix_length (take 11 (frame_body sequence kind payload ++ rest)) ≡ length payload + 4
suffix_length-frame_body sequence kind payload rest fits =
    ap (λ b. from_le_bytes b + 4) (prefix_field sequence kind payload rest)
    ∙ ap (λ n. n + 4) (from_le_bytes-to_le_bytes 2 (length payload) (omega arith))

pub prefix_length :
    (sequence kind : ℕ) (payload rest : Bytes)
    → length (take 11 (frame_body sequence kind payload ++ rest)) ≡ 11
unfolding frame_body to_le_bytes
prefix_length sequence kind payload rest = refl

-- A round with a whole prefix reads on.
pub replay_round-decode_read :
    (crc : Bytes → ℕ) (expected : ℕ) (s : Bytes) (m : ℕ)
    → length (take 11 s) ≡ 11
    → suffix_length (take 11 s) ≡ m
    → replay_round crc expected s ≡ decode_read crc expected (take (11 + m) s) (drop (11 + m) s) m
unfolding replay_round
replay_round-decode_read crc expected s m whole e =
    rw whole (ap (λ n. decode_read crc expected (take (11 + n) s) (drop (11 + n) s) n) e)

-- The bytes of a frame.
abbrev pub frame : (Bytes → ℕ) → FramedRecord → Bytes
frame crc f =
    let (kind, payload) = encode_payload f.record_ in
    let body = frame_body f.sequence kind payload in body ++ to_le_bytes 4 (crc body)

module _ (crc : Bytes → ℕ) (c : IsChecksum crc) (f : FramedRecord) (v : IsFramed f) where
  pub encode_record-frame : encode_record crc f ≡ ok (frame crc f)
  unfolding encode_record
  encode_record-frame =
      let fits = payload-fits f.record_ v.1 in
      let small : leb (length (encode_payload f.record_).1) 65535 ≡ true = ground arith in
      rw small refl

  decode_prefix-frame : decode_prefix crc (frame crc f) ≡ ok (f, length (frame crc f))
  decode_prefix-frame =
      let (bytes, written, read) = decode_prefix-encode_record crc f [] c v in
      let same : bytes ≡ frame crc f = (let e = encode_record-frame in cc) in
      ap (decode_prefix crc) (sym (append-nil (frame crc f)))
      ∙ ap (λ b. decode_prefix crc (b ++ [])) (sym same)
      ∙ read
      ∙ ap (λ b. ok (f, length b)) same

  pub length-frame : length (frame crc f) ≡ 11 + (length (encode_payload f.record_).1 + 4)
  length-frame =
      length-append (frame_body f.sequence _ _) _
      ∙ omega (
        arith,
        length-frame_body f.sequence (encode_payload f.record_).0 (encode_payload f.record_).1,
        length-to_le_bytes 4
            (crc (frame_body f.sequence (encode_payload f.record_).0 (encode_payload f.record_).1)),
      )

  decode_read-frame :
      (rest : Bytes) (m : ℕ)
      → length (frame crc f) ≡ 11 + m
      → decode_read crc f.sequence (frame crc f) rest m ≡ taken f (length (frame crc f)) rest
  decode_read-frame rest m e =
      let whole : ltb (length (frame crc f)) (11 + m) ≡ false = ground arith in
      rw (whole, decode_prefix-frame, same_sum f.sequence)

  pub replay_round-frame :
      (rest : Bytes)
      → replay_round crc f.sequence (frame crc f ++ rest) ≡ taken f (length (frame crc f)) rest
  replay_round-frame rest =
      let kind = (encode_payload f.record_).0 in
      let payload = (encode_payload f.record_).1 in
      let body = frame_body f.sequence kind payload in
      let m = length payload + 4 in
      let shape = append_assoc body (to_le_bytes 4 (crc body)) rest in
      let tail = to_le_bytes 4 (crc body) ++ rest in
      let len = length-frame in
      let first : length (take 11 (frame crc f ++ rest)) ≡ 11 =
        ap (λ t. length (take 11 t)) shape ∙ prefix_length f.sequence kind payload tail in
      let suffix : suffix_length (take 11 (frame crc f ++ rest)) ≡ m =
        ap (λ t. suffix_length (take 11 t)) shape
        ∙ suffix_length-frame_body f.sequence kind payload tail (payload-fits f.record_ v.1) in
      replay_round-decode_read crc f.sequence (frame crc f ++ rest) m first suffix
      ∙ ap
          (λ n.
            decode_read crc f.sequence (take n (frame crc f ++ rest)) (drop n (frame crc f ++ rest))
              m)
          (sym len)
      ∙ ap (λ t. decode_read crc f.sequence t (drop (length (frame crc f)) (frame crc f ++ rest)) m)
          (take-length (frame crc f) rest)
      ∙ ap (λ t. decode_read crc f.sequence (frame crc f) t m) (drop-length (frame crc f) rest)
      ∙ decode_read-frame rest m len
