-- ===== src/Journal/Replay/Torn.antt =====
-- A journal whose last frame was torn off while it was written.
use downpour.Prelude.{
  ℕ, zero, suc, ◌+◌, ◌≤◌, ◌<◌, true, false, List, [], ◌∷◌, ◌++◌, append_assoc, append-nil, ◌≡◌,
  refl, sym, ap, ◌∙◌, arith, inl, inr, ltb, ◌==◌, if◌then◌else◌, max_u64, length, length-append,
  take, drop, take-length, Bool-cases, ok,
}
use downpour.Journal.{Bytes, FileHeader, FramedRecord}
use downpour.Journal.Format.{
  truncated, to_le_bytes, encode_payload, frame_body, encode_header, encode_record,
}
use downpour.Journal.Format.Header.{IsHeader, IsChecksum}
use downpour.Journal.Format.Payload.{payload-fits}
use downpour.Journal.Format.Record.{IsFramed}
use downpour.Journal.Replay.{
  ReplayStop, clean_eof, damaged_tail, sequence_gap, stopped, decode_read, suffix_length,
  replay_round, replay_bytes, recover_journal,
}
use downpour.Journal.Replay.Frame.{
  frame, encode_record-frame, length-frame, prefix_length, suffix_length-frame_body,
  replay_round-decode_read,
}
use downpour.Journal.Replay.Written.{written, Numbered, replay_bytes-written, length-encode_header}

length-take_le : (k : ℕ) (s : Bytes) → k ≤ length s → length (take k s) ≡ k
length-take_le zero s h = refl
length-take_le (suc k) [] h = absurd (omega arith)
length-take_le (suc k) (b ∷ s) h = ap suc (length-take_le k s (omega arith))

take-take : (m k : ℕ) (s : Bytes) → m ≤ k → take m (take k s) ≡ take m s
take-take zero k s h = refl
take-take (suc m) zero s h = absurd (omega arith)
take-take (suc m) (suc k) [] h = refl
take-take (suc m) (suc k) (b ∷ s) h = ap (◌∷◌ b) (take-take m k s (omega arith))

take_all : (k : ℕ) (s : Bytes) → length s ≤ k → take k s ≡ s
take_all zero [] h = refl
take_all zero (b ∷ s) h = absurd (omega arith)
take_all (suc k) [] h = refl
take_all (suc k) (b ∷ s) h = ap (◌∷◌ b) (take_all k s (omega arith))

-- Why a replay stops at the first `k` bytes of a frame of `total`.
abbrev pub torn_stop : ℕ → ℕ → ReplayStop
torn_stop k total =
    if k == 0
    then clean_eof
    else if ltb k 11
    then damaged_tail (truncated 11 k)
    else damaged_tail (truncated total k)

short_prefix :
    (crc : Bytes → ℕ) (n k total : ℕ) (s : Bytes)
    → length s ≡ k
    → k < 11
    → replay_round crc n s ≡ stopped (torn_stop k total)
unfolding replay_round
short_prefix crc n k total s len short =
    let prefix : length (take 11 s) ≡ k = ap length (take_all 11 s (omega arith)) ∙ len in
    let below : ltb k 11 ≡ true = ground arith in
    elim (Bool-cases (k == 0)) [
      | inl nothing ↦ rw (prefix, nothing)
      | inr some_ ↦ rw (prefix, some_, below)
    ]

short_suffix :
    (crc : Bytes → ℕ) (n k m : ℕ) (s rest : Bytes)
    → length s ≡ k
    → k < 11 + m
    → decode_read crc n s rest m ≡ stopped (damaged_tail (truncated (11 + m) k))
short_suffix crc n k m s rest len short =
    let torn : ltb (length s) (11 + m) ≡ true = ground arith in rw (torn, len)

module _ (crc : Bytes → ℕ) (c : IsChecksum crc) (f : FramedRecord) (v : IsFramed f) where
  long_prefix :
      (n k : ℕ)
      → k < length (frame crc f)
      → 11 ≤ k
      → replay_round crc n (take k (frame crc f))
        ≡ stopped (damaged_tail (truncated (length (frame crc f)) k))
  long_prefix n k torn long =
      let kind = (encode_payload f.record_).0 in
      let payload = (encode_payload f.record_).1 in
      let tail = to_le_bytes 4 (crc (frame_body f.sequence kind payload)) in
      let m = length payload + 4 in
      let s = take k (frame crc f) in
      let total = length-frame crc c f v in
      let len = length-take_le k (frame crc f) (omega arith) in
      let same = take-take 11 k (frame crc f) long in
      let read = take_all (11 + m) s (omega arith) in
      replay_round-decode_read crc n s m
        (ap length same ∙ prefix_length f.sequence kind payload tail)
        (ap suffix_length same
          ∙ suffix_length-frame_body f.sequence kind payload tail (payload-fits f.record_ v.1))
      ∙ ap (λ t. decode_read crc n t (drop (11 + m) s) m) read
      ∙ short_suffix crc n k m s (drop (11 + m) s) len (omega arith)
      ∙ ap (λ t. stopped (damaged_tail (truncated t k))) (sym total)

  replay_round-torn :
      (n k : ℕ)
      → k < length (frame crc f)
      → replay_round crc n (take k (frame crc f)) ≡ stopped (torn_stop k (length (frame crc f)))
  replay_round-torn n k torn = elim (Bool-cases (ltb k 11)) [
    | inl short ↦
        short_prefix crc n k (length (frame crc f)) (take k (frame crc f))
          (length-take_le k (frame crc f) (omega arith)) (ground arith)
    | inr long ↦
        let some_ : (k == 0) ≡ false = ground arith in
        rw (some_, long) (long_prefix n k torn (ground arith))
  ]

cut_off :
    (whole tail file : Bytes) (n : ℕ)
    → file ≡ whole ++ tail
    → n ≡ length whole
    → take n file ≡ whole
cut_off whole tail file n shape valid =
    ap (take n) shape ∙ ap (λ m. take m (whole ++ tail)) valid ∙ take-length whole tail

-- Recovery cuts the tail off, unless there is none.
recover_journal-stopped :
    (crc : Bytes → ℕ) (whole tail file : Bytes) (h : FileHeader) (fs : List FramedRecord) (n : ℕ)
    (reason : ReplayStop)
    → file ≡ whole ++ tail
    → n ≡ length whole
    → (reason ≡ clean_eof → tail ≡ [])
    → replay_bytes crc file
      ≡ ok (record { header = h; records = fs; valid_bytes = n; stop = reason })
    → recover_journal crc file
      ≡ (ok (record { header = h; records = fs; valid_bytes = n; stop = reason }), whole)
unfolding recover_journal
recover_journal-stopped crc whole tail file h fs n clean_eof shape valid none_left e =
    rw (e, recover_journal)
      (ap (λ w. (ok (record { header = h; records = fs; valid_bytes = n; stop = clean_eof }), w))
        (shape ∙ ap (λ t. whole ++ t) (none_left refl) ∙ append-nil whole))
recover_journal-stopped crc whole tail file h fs n (damaged_tail x) shape valid none_left e =
    rw (e, recover_journal)
      (ap
        (λ w. (ok (record { header = h; records = fs; valid_bytes = n; stop = damaged_tail x }), w))
        (cut_off whole tail file n shape valid))
recover_journal-stopped crc whole tail file h fs n (sequence_gap a b) shape valid none_left e =
    rw (e, recover_journal)
      (ap
        (λ w.
          (ok (record { header = h; records = fs; valid_bytes = n; stop = sequence_gap a b }), w))
        (cut_off whole tail file n shape valid))

torn_stop-clean : (k total : ℕ) (s : Bytes) → torn_stop k total ≡ clean_eof → take k s ≡ []
torn_stop-clean zero total s h = refl
torn_stop-clean (suc k) total s h = absurd (ground arith)

-- If a crash cuts the append of one more frame to a journal of valid frames at any byte in front of
-- the frame's end, recovery answers the header and exactly the frames in front of it, with the
-- reason for the stop, and leaves a file of exactly these. The journal has at most u64::MAX bytes,
-- and the checksum has u32 values.
pub recover_journal-torn :
    (crc : Bytes → ℕ) (h : FileHeader) (fs : List FramedRecord) (f : FramedRecord) (bytes : Bytes)
    (k : ℕ)
    → IsChecksum crc
    → IsHeader h
    → Numbered 0 fs
    → IsFramed f
    → encode_record crc f ≡ ok bytes
    → k < length bytes
    → 72 + length (written crc fs) ≤ max_u64
    → recover_journal crc (encode_header crc h ++ (written crc fs ++ take k bytes)) ≡ (
      ok (record {
        header = h;
        records = fs;
        valid_bytes = 72 + length (written crc fs);
        stop = torn_stop k (length bytes);
      }),
      encode_header crc h ++ written crc fs,
    )
recover_journal-torn crc h fs f bytes k c v numbered framed e torn fits =
    let same : frame crc f ≡ bytes = (let shape = encode_record-frame crc c f framed in cc) in
    let stops : replay_round crc (length fs) (take k bytes) ≡ stopped (torn_stop k (length bytes)) =
      ap (λ b. replay_round crc (length fs) (take k b)) (sym same)
      ∙ replay_round-torn crc c f framed (length fs) k (omega (arith, ap length same))
      ∙ ap (λ b. stopped (torn_stop k (length b))) same in
    recover_journal-stopped crc (encode_header crc h ++ written crc fs) (take k bytes) _ h fs
      (72 + length (written crc fs)) (torn_stop k (length bytes))
      (sym (append_assoc (encode_header crc h) (written crc fs) (take k bytes)))
      (omega
        (arith, length-append (encode_header crc h) (written crc fs), length-encode_header crc h v))
      (torn_stop-clean k (length bytes) bytes)
      (replay_bytes-written crc h fs (take k bytes) (torn_stop k (length bytes)) c v numbered stops
        fits)
