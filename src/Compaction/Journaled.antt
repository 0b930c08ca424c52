-- ===== src/Compaction/Journaled.antt =====
-- The bytes of the replacement, replayed.
use downpour.Prelude.{
  ℕ, ◌+◌, ◌≤◌, false, List, [], ◌∷◌, ◌++◌, append_assoc, append-nil, ◌≡◌, refl, sym, ap, ◌∙◌, arith,
  ltb, max_u64, length, All, ok,
}
use downpour.Journal.{Bytes, FileHeader, FramedRecord}
use downpour.Journal.State.{CompletedBlock, EffectiveState, effective_state}
use downpour.Journal.State.Blocks.{All-from_zero, Within, Apart, effective_state-blocks}
use downpour.Journal.Format.{encode_header, encode_record}
use downpour.Journal.Format.Header.{IsHeader, IsChecksum}
use downpour.Journal.Replay.{ReplayOutcome, clean_eof, stopped, replay_round, replay_bytes}
use downpour.Journal.Replay.Frame.{frame, encode_record-frame}
use downpour.Journal.Replay.Written.{written, Numbered, written-cons, replay_bytes-written}
use downpour.Compaction.{sum_covered, encode_all, encode_replacement, semantic_records, framed_from}
use downpour.Compaction.Replacement.{effective_state-semantic_records}
use downpour.Recovery.Merge.{total_len}

sum_covered-ok :
    (t lo limit : ℕ) (bs : List CompletedBlock)
    → t ≤ lo
    → limit ≤ max_u64
    → All (λ b. lo ≤ b.offset) bs
    → All (Within limit) bs
    → Apart bs
    → sum_covered t bs ≡ ok (t + total_len bs)
unfolding sum_covered
sum_covered-ok t lo limit [] count small behind w apart = ap ok (omega arith)
sum_covered-ok t lo limit (b ∷ bs) count small behind w apart =
    rw (fits (t + b.len) (omega (arith, count, behind.0, w.0.1, small))) (
      sum_covered-ok (t + b.len) (b.offset + b.len) limit bs (omega (arith, count, behind.0)) small
        apart.0 w.1 apart.1
      ∙ ap ok (omega arith))
  where
    fits : (n : ℕ) → n ≤ max_u64 → ltb max_u64 n ≡ false
    fits n h = ground arith

encode_all-cons :
    (crc : Bytes → ℕ) (acc : Bytes) (f : FramedRecord) (fs : List FramedRecord) (encoded : Bytes)
    → encode_record crc f ≡ ok encoded
    → encode_all crc acc (f ∷ fs) ≡ encode_all crc (acc ++ encoded) fs
unfolding encode_all
encode_all-cons crc acc f fs encoded h = rw (h, encode_all)

encode_all-written :
    (crc : Bytes → ℕ) (acc : Bytes) (n : ℕ) (fs : List FramedRecord)
    → IsChecksum crc
    → Numbered n fs
    → encode_all crc acc fs ≡ ok (acc ++ written crc fs)
unfolding encode_all written
encode_all-written crc acc n [] c v = ap ok (sym (append-nil acc))
encode_all-written crc acc n (f ∷ fs) c v =
    encode_all-cons crc acc f fs (frame crc f) (encode_record-frame crc c f v.1)
    ∙ encode_all-written crc (acc ++ frame crc f) (n + 1) fs c v.2
    ∙ ap ok (
        append_assoc acc (frame crc f) (written crc fs)
        ∙ ap (λ s. acc ++ s) (sym (written-cons crc c f fs v.1)))

nothing_left : (crc : Bytes → ℕ) (n : ℕ) → replay_round crc n [] ≡ stopped clean_eof
unfolding replay_round
nothing_left crc n = refl

-- What the replacement's bytes say.
pub record Says (crc : Bytes → ℕ) (header : FileHeader) (bytes : Bytes) (st : EffectiveState)
    : Type 0 where
  pub outcome : ReplayOutcome
  pub replays : replay_bytes crc bytes ≡ ok outcome
  pub whole : outcome.stop ≡ clean_eof
  pub same_header : outcome.header ≡ header
  pub folds : effective_state outcome.header outcome.records ≡ ok st

-- Compaction keeps what a journal says. Let the fold of a journal with a valid header answer a state,
-- and let merged blocks be given that hold bytes, lie within the effective length and are sorted and
-- apart, such that the replacement's records are in the ranges of their fields and its bytes are at
-- most u64::MAX. Then the replacement is encoded, and it replays to its end, with the same header and
-- to the same effective length, last truncation, identities and seal, and with the merged blocks. The
-- checksum has u32 values.
pub encode_replacement-Says :
    (crc : Bytes → ℕ) (header : FileHeader) (records : List FramedRecord) (st : EffectiveState)
    (merged : List CompletedBlock) (clock : ℕ)
    → IsChecksum crc
    → IsHeader header
    → effective_state header records ≡ ok st
    → All (Within st.effective_length) merged
    → Apart merged
    → Numbered 0 (framed_from 0 (semantic_records st merged (total_len merged) clock))
    → 72
        + length (written crc (framed_from 0 (semantic_records st merged (total_len merged) clock)))
      ≤ max_u64
    → (bytes : Bytes) × (encode_replacement crc header st merged clock ≡ ok bytes)
      × Says crc header bytes (record st { blocks = merged })
unfolding encode_replacement
encode_replacement-Says crc header records st merged clock c v h w apart numbered small =
    let fs = framed_from 0 (semantic_records st merged (total_len merged) clock) in
    let total : header.total_length ≤ max_u64 = omega (arith, v.1) in
    let (_, _, shorter) = effective_state-blocks header records st h in
    let counted : sum_covered 0 merged ≡ ok (total_len merged) =
      sum_covered-ok 0 0 st.effective_length merged (omega arith) (omega (arith, shorter, total))
        (All-from_zero merged) w apart
      ∙ ap ok (omega arith) in
    let replays =
      replay_bytes-written crc header fs [] clean_eof c v numbered (nothing_left crc (length fs))
        small in
    (
      encode_header crc header ++ (written crc fs ++ []),
      rw counted (
          encode_all-written crc (encode_header crc header) 0 fs c numbered
          ∙ ap (λ b. ok (encode_header crc header ++ b)) (sym (append-nil (written crc fs)))),
      record {
        outcome = record {
          header = header;
          records = fs;
          valid_bytes = 72 + length (written crc fs);
          stop = clean_eof;
        };
        replays = replays;
        whole = refl;
        same_header = refl;
        folds =
            effective_state-semantic_records header records st merged (total_len merged) clock total
              h w apart;
      },
    )
