-- ===== src/Journal/Replay/Fuel.antt =====
-- The fuel of the replay is enough.
use Prim.Native.String.{String}
use downpour.Prelude.{
  ℕ, zero, suc, ◌+◌, ◌≤◌, ◌<◌, false, List, [], ◌∷◌, ◌++◌, ◌≡◌, ◌≢◌, refl, sym, ap, ◌∙◌, arith, inl,
  inr, Bool-cases, ltb, ◌==◌, max_u64, length, take, drop, Result, ok, err, ◌>>=◌,
}
use downpour.Journal.{Bytes, FileHeader, FramedRecord}
use downpour.Journal.Format.{Decoded, decode_header, decode_prefix}
use downpour.Journal.Replay.{
  ReplayStop, damaged_tail, ReplayOutcome, ReplayError, format, out_of_fuel, Round, stopped, taken,
  check_sequence, decode_read, suffix_length, replay_round, checked_add, replay_loop, replay_bytes,
}

check_sequence-rest :
    (n : ℕ) (f g : FramedRecord) (a b : ℕ) (r rest : Bytes)
    → check_sequence n f a r ≡ taken g b rest
    → rest ≡ r
check_sequence-rest n f g a b r rest h = elim (Bool-cases (f.sequence == n)) [
  | inl same ↦ cc (rw same at h)
  | inr other ↦ cc (rw other at h)
]

decode_read-rest :
    (crc : Bytes → ℕ) (n m b : ℕ) (frame r rest : Bytes) (g : FramedRecord)
    → decode_read crc n frame r m ≡ taken g b rest
    → rest ≡ r
decode_read-rest crc n m b frame r rest g h = elim (Bool-cases (ltb (length frame) (11 + m))) [
  | inl short ↦ cc (rw short at h)
  | inr whole ↦ decoded (decode_prefix crc frame) (rw whole at h)
]
  where
    decoded :
        (d : Decoded (FramedRecord × ℕ))
        → elim d [
          | err e ↦ stopped (damaged_tail e)
          | ok (f, consumed) ↦ check_sequence n f consumed r
        ]
          ≡ taken g b rest
        → rest ≡ r
    decoded (err e) k = cc
    decoded (ok (f, consumed)) k = check_sequence-rest n f g consumed b r rest k

length-drop : (k : ℕ) (s : Bytes) → length (drop (suc k) s) ≤ length s
length-drop k [] = omega arith
length-drop zero (b ∷ s) = omega arith
length-drop (suc k) (b ∷ s) = omega (arith, length-drop k s)

drop-shrinks : (k : ℕ) (s : Bytes) → 0 < k → 0 < length s → length (drop k s) < length s
drop-shrinks zero s h p = absurd (omega arith)
drop-shrinks (suc k) [] h p = absurd (omega arith)
drop-shrinks (suc zero) (b ∷ s) h p = omega arith
drop-shrinks (suc (suc k)) (b ∷ s) h p = omega (arith, length-drop k s)

stopped-ne :
    (reason : ReplayStop) (f : FramedRecord) (n : ℕ) (r : Bytes) → stopped reason ≢ taken f n r
stopped-ne reason f n r h = cc

ok-ne : (outcome : ReplayOutcome) → ok outcome ≢ err out_of_fuel
ok-ne outcome h = cc

-- A round that takes a record leaves fewer bytes.
replay_round-shrinks :
    (crc : Bytes → ℕ) (n b : ℕ) (s rest : Bytes) (g : FramedRecord)
    → replay_round crc n s ≡ taken g b rest
    → length rest < length s
unfolding replay_round
replay_round-shrinks crc n b [] rest g h = cc
replay_round-shrinks crc n b (x ∷ s) rest g h =
    let positive : (length (take 11 (x ∷ s)) == 0) ≡ false = ground arith in
    let m = suffix_length (take 11 (x ∷ s)) in
    elim (Bool-cases (ltb (length (take 11 (x ∷ s))) 11)) [
      | inl short ↦ absurd (stopped-ne _ _ _ _ (rw (positive, short) at h))
      | inr whole ↦
          let same : rest ≡ drop (11 + m) (x ∷ s) =
            decode_read-rest crc n m b (take (11 + m) (x ∷ s)) (drop (11 + m) (x ∷ s)) rest g
              (rw (positive, whole) at h) in
          omega (arith, ap length same, drop-shrinks (11 + m) (x ∷ s) (omega arith) (omega arith))
    ]

-- The loop behind a round.
loop_after :
    (crc : Bytes → ℕ) (fuel : ℕ) (header : FileHeader) (acc : List FramedRecord) (n valid : ℕ)
    (s rest : Bytes) (f : FramedRecord) (consumed : ℕ)
    → replay_round crc n s ≡ taken f consumed rest
    → replay_loop crc (suc fuel) header acc n valid s ≡ (
        checked_add valid consumed "journal byte offset overflow" >>= λ v.
        checked_add n 1 "journal sequence overflow" >>= λ next.
        replay_loop crc fuel header (acc ++ f ∷ []) next v rest)
unfolding replay_loop
loop_after crc fuel header acc n valid s rest f consumed e = rw (e, replay_loop)

loop_end :
    (crc : Bytes → ℕ) (fuel : ℕ) (header : FileHeader) (acc : List FramedRecord) (n valid : ℕ)
    (s : Bytes) (reason : ReplayStop)
    → replay_round crc n s ≡ stopped reason
    → replay_loop crc (suc fuel) header acc n valid s
      ≡ ok (record { header = header; records = acc; valid_bytes = valid; stop = reason })
unfolding replay_loop
loop_end crc fuel header acc n valid s reason e = rw (e, replay_loop)

-- A checked addition in front adds no end of the fuel.
checked_add-bind :
    (a b : ℕ) (message : String) (k : ℕ → Result ReplayOutcome ReplayError)
    → ((c : ℕ) → k c ≢ err out_of_fuel)
    → (checked_add a b message >>= k) ≢ err out_of_fuel
checked_add-bind a b message k h e = elim (Bool-cases (ltb max_u64 (a + b))) [
  | inl over ↦ cc (rw over at e)
  | inr fits ↦ h (a + b) (rw fits at e)
]

replay_loop-total :
    (crc : Bytes → ℕ) (fuel : ℕ) (header : FileHeader) (acc : List FramedRecord) (n valid : ℕ)
    (s : Bytes)
    → length s < fuel
    → replay_loop crc fuel header acc n valid s ≢ err out_of_fuel
replay_loop-total crc zero header acc n valid s h = absurd (omega arith)
replay_loop-total crc (suc fuel) header acc n valid s h =
    round (replay_round crc n s)
      (λ longer next v rest fewer. replay_loop-total crc fuel header longer next v rest fewer) refl
  where
    round :
        (r : Round)
        → ((longer : List FramedRecord) (next v : ℕ) (rest : Bytes)
            → length rest < fuel
            → replay_loop crc fuel header longer next v rest ≢ err out_of_fuel)
        → replay_round crc n s ≡ r
        → replay_loop crc (suc fuel) header acc n valid s ≢ err out_of_fuel
    round (stopped reason) shorter e k =
        ok-ne _ (sym (loop_end crc fuel header acc n valid s reason e) ∙ k)
    round (taken f consumed rest) shorter e k =
        let fewer = replay_round-shrinks crc n consumed s rest f e in
        checked_add-bind valid consumed "journal byte offset overflow"
          (λ v. checked_add n 1 "journal sequence overflow" >>= λ next.
            replay_loop crc fuel header (acc ++ f ∷ []) next v rest)
          (λ v.
            checked_add-bind n 1 "journal sequence overflow"
              (λ next. replay_loop crc fuel header (acc ++ f ∷ []) next v rest)
              (λ next. shorter (acc ++ f ∷ []) next v rest (omega arith)))
          (sym (loop_after crc fuel header acc n valid s rest f consumed e) ∙ k)

length-drop_le : (k : ℕ) (s : Bytes) → length (drop k s) ≤ length s
length-drop_le zero s = omega arith
length-drop_le (suc k) s = length-drop k s

-- Replaying any bytes, with any checksum function, ends before its fuel does.
pub replay_bytes-total : (crc : Bytes → ℕ) (s : Bytes) → replay_bytes crc s ≢ err out_of_fuel
unfolding replay_bytes
replay_bytes-total crc s = decoded (decode_header crc (take 72 s))
  where
    decoded :
        (d : Decoded FileHeader)
        → elim d [
          | err e ↦ err (format e)
          | ok header ↦ replay_loop crc (suc (length s)) header [] 0 72 (drop 72 s)
        ]
          ≢ err out_of_fuel
    decoded (err e) k = cc
    decoded (ok header) k =
        replay_loop-total crc (suc (length s)) header [] 0 72 (drop 72 s)
          (omega (arith, length-drop_le 72 s)) k
