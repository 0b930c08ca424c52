-- ===== src/Journal/Format/Reads.antt =====
-- Fields read back from the bytes that they were written to.
use native.Mathlib.Nat.{pow-suc}
use downpour.Prelude.{
  ℕ, zero, suc, ◌+◌, ◌-◌, ◌/◌, ◌^◌, ◌≤◌, ◌<◌, true, [], ◌++◌, append_assoc, ◌≡◌, refl, sym, ap, ◌∙◌,
  arith, leb, max_u64, length, length-append, take, drop, take-length, drop-length, ok,
}
use downpour.Journal.{Bytes}
use downpour.Journal.Format.{slice, array_at, read_uint, to_le_bytes, from_le_bytes}

-- The bytes hold `field` at this offset.
abbrev pub HasAt : Bytes → ℕ → Bytes → Type 0
HasAt s offset field =
    (before : Bytes) × (after : Bytes) × (s ≡ before ++ (field ++ after)) × (length before ≡ offset)

pub HasAt-front : (field after : Bytes) → HasAt (field ++ after) 0 field
HasAt-front field after = ([], after, refl, refl)

pub HasAt-skip :
    (front s : Bytes) (offset total : ℕ) (field : Bytes)
    → length front + offset ≡ total
    → HasAt s offset field
    → HasAt (front ++ s) total field
HasAt-skip front s offset total field n (before, after, e, k) = (
  front ++ before,
  after,
  ap (◌++◌ front) e ∙ sym (append_assoc front before (field ++ after)),
  length-append front before ∙ omega (arith, n, k),
)

take-field :
    (before field after : Bytes) (n : ℕ)
    → length field ≡ n
    → take n (drop (length before) (before ++ (field ++ after))) ≡ field
take-field before field after n e =
    rw (sym e)
      (ap (take (length field)) (drop-length before (field ++ after)) ∙ take-length field after)

pub slice-HasAt :
    (s : Bytes) (offset end : ℕ) (field : Bytes)
    → HasAt s offset field
    → offset + length field ≡ end
    → slice s offset end ≡ ok field
slice-HasAt s offset end field (before, after, e, k) len =
    let total : length s ≡ end + length after =
      ap length e
      ∙ length-append before (field ++ after)
      ∙ omega (arith, length-append field after, k, len) in
    let inside : leb end (length s) ≡ true = ground arith in
    let width : length field ≡ end - offset = omega arith in
    let held : take (end - offset) (drop offset s) ≡ field =
      ap (λ t. take (end - offset) (drop offset t)) e
      ∙ ap (λ o. take (end - offset) (drop o (before ++ (field ++ after)))) (sym k)
      ∙ take-field before field after (end - offset) width in
    rw (inside, held)

pub array_at-HasAt :
    (n : ℕ) (s : Bytes) (offset : ℕ) (field : Bytes)
    → HasAt s offset field
    → length field ≡ n
    → offset + n ≤ max_u64
    → array_at n s offset ≡ ok field
unfolding array_at
array_at-HasAt n s offset field h len fits =
    let small : leb (offset + n) max_u64 ≡ true = ground arith in
    rw small (slice-HasAt s offset (offset + n) field h (omega arith))

pub length-to_le_bytes : (w n : ℕ) → length (to_le_bytes w n) ≡ w
unfolding to_le_bytes
length-to_le_bytes zero n = refl
length-to_le_bytes (suc w) n = ap suc (length-to_le_bytes w (n / 256))

pub from_le_bytes-to_le_bytes : (w n : ℕ) → n < 256 ^ w → from_le_bytes (to_le_bytes w n) ≡ n
unfolding to_le_bytes from_le_bytes
from_le_bytes-to_le_bytes zero n h = omega arith
from_le_bytes-to_le_bytes (suc w) n h =
    omega (arith, from_le_bytes-to_le_bytes w (n / 256) (omega (arith, pow-suc 256 w)))

pub read_uint-HasAt :
    (w : ℕ) (s : Bytes) (offset n : ℕ)
    → HasAt s offset (to_le_bytes w n)
    → n < 256 ^ w
    → offset + w ≤ max_u64
    → read_uint w s offset ≡ ok n
unfolding read_uint
read_uint-HasAt w s offset n h u fits = rw (
  array_at-HasAt w s offset (to_le_bytes w n) h (length-to_le_bytes w n) fits,
  from_le_bytes-to_le_bytes w n u,
)
