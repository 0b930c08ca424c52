-- ===== src/Journal/Replay/Written.antt =====
-- A journal that was written is replayed.
use downpour.Prelude.{
  ℕ, zero, suc, ◌+◌, ◌≤◌, ◌<◌, false, List, [], ◌∷◌, ◌++◌, append_assoc, append-nil, ◌≡◌, refl, sym,
  ap, ◌∙◌, arith, ltb, max_u64, length, length-append, take, drop, take-length, drop-length, Result,
  ok, err,
}
use downpour.Journal.{Bytes, FileHeader, FramedRecord}
use downpour.Journal.Format.{header_body, encode_header, encode_record, decode_header}
use downpour.Journal.Format.Reads.{length-to_le_bytes}
use downpour.Journal.Format.Header.{
  IsHeader, IsChecksum, length-header_body, decode_header-encode_header,
}
use downpour.Journal.Format.Record.{IsFramed}
use downpour.Journal.Replay.{
  ReplayStop, ReplayOutcome, ReplayError, stopped, taken, replay_round, replay_loop, replay_bytes,
}
use downpour.Journal.Replay.Frame.{frame, length-frame, encode_record-frame, replay_round-frame}

-- The records' encodings, one behind the other.
unfoldable pub written : (Bytes → ℕ) → List FramedRecord → Bytes
written crc [] = []
written crc (f ∷ fs) = elim (encode_record crc f) [ ok b ↦ b ++ written crc fs | err e ↦ [] ]

-- Valid frames that are numbered from `n` on.
abbrev pub Numbered : ℕ → List FramedRecord → Type 0
Numbered n [] = Unit
Numbered n (f ∷ fs) = (f.sequence ≡ n) × IsFramed f × Numbered (n + 1) fs

abbrev answer : FileHeader → ReplayStop → List FramedRecord → ℕ → Result ReplayOutcome ReplayError
answer header reason fs n =
    ok (record { header = header; records = fs; valid_bytes = n; stop = reason })

answer_eq :
    (header : FileHeader) (reason : ReplayStop) {fs gs : List FramedRecord} {m n : ℕ}
    → fs ≡ gs
    → m ≡ n
    → answer header reason fs m ≡ answer header reason gs n
answer_eq header reason p q = rw (p, q) refl

module _ (crc : Bytes → ℕ) (c : IsChecksum crc) where
  pub written-cons :
      (f : FramedRecord) (fs : List FramedRecord)
      → IsFramed f
      → written crc (f ∷ fs) ≡ frame crc f ++ written crc fs
  unfolding written
  written-cons f fs v = rw (encode_record-frame crc c f v, written)

  replay_loop-taken :
      (fuel : ℕ) (header : FileHeader) (acc : List FramedRecord) (n valid : ℕ) (f : FramedRecord)
      (consumed : ℕ) (s rest : Bytes)
      → replay_round crc n s ≡ taken f consumed rest
      → valid + consumed ≤ max_u64
      → n + 1 ≤ max_u64
      → replay_loop crc (suc fuel) header acc n valid s
        ≡ replay_loop crc fuel header (acc ++ f ∷ []) (n + 1) (valid + consumed) rest
  unfolding replay_loop
  replay_loop-taken fuel header acc n valid f consumed s rest e u w =
      let small : ltb max_u64 (valid + consumed) ≡ false = ground arith in
      let next : ltb max_u64 (n + 1) ≡ false = ground arith in rw (e, small, next, replay_loop)

  replay_loop-stopped :
      (fuel : ℕ) (header : FileHeader) (acc : List FramedRecord) (n valid : ℕ) (s : Bytes)
      (reason : ReplayStop)
      → replay_round crc n s ≡ stopped reason
      → replay_loop crc (suc fuel) header acc n valid s
        ≡ ok (record { header = header; records = acc; valid_bytes = valid; stop = reason })
  unfolding replay_loop
  replay_loop-stopped fuel header acc n valid s reason e = rw (e, replay_loop)

  replay_loop-written :
      (fuel : ℕ) (header : FileHeader) (acc : List FramedRecord) (n valid : ℕ)
      (fs : List FramedRecord) (tail : Bytes) (reason : ReplayStop)
      → Numbered n fs
      → replay_round crc (n + length fs) tail ≡ stopped reason
      → length fs < fuel
      → n + length fs ≤ max_u64
      → valid + length (written crc fs) ≤ max_u64
      → replay_loop crc fuel header acc n valid (written crc fs ++ tail)
        ≡ ok (record {
          header = header;
          records = acc ++ fs;
          valid_bytes = valid + length (written crc fs);
          stop = reason;
        })
  unfolding written
  replay_loop-written zero header acc n valid fs tail reason v e k u w = absurd (omega arith)
  replay_loop-written (suc fuel) header acc n valid [] tail reason v e k u w =
      replay_loop-stopped fuel header acc n valid _ reason
        (ap (λ m. replay_round crc m tail) (omega arith) ∙ e)
      ∙ answer_eq header reason (sym (append-nil acc)) (omega arith)
  replay_loop-written (suc fuel) header acc n valid (f ∷ fs) tail reason v e k u w =
      let shape : written crc (f ∷ fs) ++ tail ≡ frame crc f ++ (written crc fs ++ tail) =
        ap (λ b. b ++ tail) (written-cons f fs v.1)
        ∙ append_assoc (frame crc f) (written crc fs) tail in
      let total : length (written crc (f ∷ fs)) ≡ length (frame crc f) + length (written crc fs) =
        ap length (written-cons f fs v.1) ∙ length-append (frame crc f) (written crc fs) in
      let round : replay_round crc n (frame crc f ++ (written crc fs ++ tail))
          ≡ taken f (length (frame crc f)) (written crc fs ++ tail) =
        ap (λ m. replay_round crc m (frame crc f ++ (written crc fs ++ tail))) (sym v.0)
        ∙ replay_round-frame crc c f v.1 (written crc fs ++ tail) in
      let later : replay_round crc (n + 1 + length fs) tail ≡ stopped reason =
        ap (λ m. replay_round crc m tail) (omega arith) ∙ e in
      ap (replay_loop crc (suc fuel) header acc n valid) shape
      ∙ replay_loop-taken fuel header acc n valid f (length (frame crc f)) _
          (written crc fs ++ tail) round (omega arith) (omega arith)
      ∙ replay_loop-written fuel header (acc ++ f ∷ []) (n + 1) (valid + length (frame crc f)) fs
          tail reason v.2 later (omega arith) (omega arith) (omega arith)
      ∙ answer_eq header reason (append_assoc acc (f ∷ []) fs) (omega arith)

  -- There are more bytes than records.
  length-written :
      (n : ℕ) (fs : List FramedRecord) → Numbered n fs → length fs ≤ length (written crc fs)
  length-written n [] v = omega arith
  length-written n (f ∷ fs) v = omega (
    arith,
    ap length (written-cons f fs v.1),
    length-append (frame crc f) (written crc fs),
    length-frame crc c f v.1,
    length-written (n + 1) fs v.2,
  )

pub length-encode_header :
    (crc : Bytes → ℕ) (h : FileHeader) → IsHeader h → length (encode_header crc h) ≡ 72
unfolding encode_header
length-encode_header crc h v =
    length-append (header_body h) _
    ∙ omega (arith, length-header_body h v, length-to_le_bytes 4 (crc (header_body h)))

replay_bytes-decoded :
    (crc : Bytes → ℕ) (s rest : Bytes) (h : FileHeader)
    → decode_header crc (take 72 s) ≡ ok h
    → drop 72 s ≡ rest
    → replay_bytes crc s ≡ replay_loop crc (suc (length s)) h [] 0 72 rest
unfolding replay_bytes
replay_bytes-decoded crc s rest h e d =
    rw (e, replay_bytes) (ap (replay_loop crc (suc (length s)) h [] 0 72) d)

-- A journal of a valid header and valid frames numbered from zero is replayed completely, whatever
-- bytes follow, if a round of the replay stops at them: the replay answers the header, exactly
-- these frames, the number of their bytes and the reason of that stop. The journal has at most
-- u64::MAX bytes, and the checksum has u32 values.
pub replay_bytes-written :
    (crc : Bytes → ℕ) (h : FileHeader) (fs : List FramedRecord) (tail : Bytes) (reason : ReplayStop)
    → IsChecksum crc
    → IsHeader h
    → Numbered 0 fs
    → replay_round crc (length fs) tail ≡ stopped reason
    → 72 + length (written crc fs) ≤ max_u64
    → replay_bytes crc (encode_header crc h ++ (written crc fs ++ tail))
      ≡ ok (record {
        header = h;
        records = fs;
        valid_bytes = 72 + length (written crc fs);
        stop = reason;
      })
replay_bytes-written crc h fs tail reason c v numbered e u =
    let s = encode_header crc h ++ (written crc fs ++ tail) in
    let len = length-encode_header crc h v in
    let few = length-written crc c 0 fs numbered in
    let front : take 72 s ≡ encode_header crc h =
      ap (λ n. take n s) (sym len) ∙ take-length (encode_header crc h) _ in
    let back : drop 72 s ≡ written crc fs ++ tail =
      ap (λ n. drop n s) (sym len) ∙ drop-length (encode_header crc h) _ in
    let decoded : decode_header crc (take 72 s) ≡ ok h =
      ap (decode_header crc) (front ∙ sym (append-nil (encode_header crc h)))
      ∙ decode_header-encode_header crc h [] c v in
    let stop_ : replay_round crc (0 + length fs) tail ≡ stopped reason =
      ap (λ m. replay_round crc m tail) (omega arith) ∙ e in
    let enough : length fs < suc (length s) = omega (
      arith,
      length-append (encode_header crc h) (written crc fs ++ tail),
      length-append (written crc fs) tail,
    ) in
    replay_bytes-decoded crc s (written crc fs ++ tail) h decoded back
    ∙ replay_loop-written crc c (suc (length s)) h [] 0 72 fs tail reason numbered stop_ enough
        (omega arith) u
