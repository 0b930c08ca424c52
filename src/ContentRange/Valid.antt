-- ===== src/ContentRange/Valid.antt =====
-- What the parser of `Content-Range` accepts.
use downpour.Prelude.{
  ℕ, ◌+◌, ◌*◌, ◌-◌, ◌≤◌, Bool, true, false, not, ◌||◌, Option, none, some, [], ◌∷◌, ◌≡◌, refl,
  arith, inl, inr, ◌==◌, max_u64, Bool-cases, ok, ◌>>=◌, ◌>>◌, ok-bind,
}
use downpour.Text.{
  Text, lit, scan_u64, text_eq, is_nil, any, split_once, is_ascii_whitespace, trim,
  trim_start_matches, eq_ignore_ascii_case,
}
use downpour.ContentRange.{
  ContentRange, bytes, unsatisfied, Parsed, ok_or, reject, parse_decimal, parse_complete,
  check_bytes, parse_positions, parse_parts, parse_after_unit, parse_unit, parse, ContentRangeError,
  malformed, unsupported_unit, empty, no_range,
}
use downpour.ContentRange.Consistent.{IsValid}

scan_u64-bound : (n : ℕ) (s : Text) (m : ℕ) → n ≤ max_u64 → scan_u64 n s ≡ some m → m ≤ max_u64
unfolding scan_u64
scan_u64-bound n [] m k h = ground arith
scan_u64-bound n (c ∷ s) m k h = ground (arith, scan_u64-bound (n * 10 + (c - b'0')) s m)

-- What stands behind an early return that was not taken.
ok-reject {ℓ} :
    {A : Type ℓ} (test : Bool) (e : ContentRangeError) (rest : Parsed A) (a : A)
    → reject test e >> rest ≡ ok a
    → (test ≡ false) × (rest ≡ ok a)
ok-reject true e rest a h = cc
ok-reject false e rest a h = (refl, h)

ok_or-some {ℓ} :
    {A : Type ℓ} (e : ContentRangeError) (o : Option A) (a : A) → ok_or e o ≡ ok a → o ≡ some a
ok_or-some e none a h = cc
ok_or-some e (some b) a h = cc

parse_decimal-bound : (s : Text) (n : ℕ) → parse_decimal s ≡ ok n → n ≤ max_u64
unfolding parse_decimal
parse_decimal-bound s n h =
    scan_u64-bound 0 s n (omega arith) (ok_or-some _ _ n (ok-reject _ _ _ n h).1)

-- A stated complete length is a u64.
abbrev Stated : Option ℕ → Type 0
Stated none = Unit
Stated (some complete) = complete ≤ max_u64

parse_complete-Stated :
    (s : Text) (complete : Option ℕ) → parse_complete s ≡ ok complete → Stated complete
unfolding parse_complete
parse_complete-Stated s none h = tt
parse_complete-Stated s (some c) h = elim (Bool-cases (text_eq s (lit "*"))) [
  | inl star ↦ cc (rw star at h)
  | inr other ↦
      let (n, last_step, e) = ok-bind (parse_decimal s) _ (some c) (rw other at h) in
      let bound = parse_decimal-bound s n e in ground arith
]

check_bytes-IsValid :
    (first last : ℕ) (complete : Option ℕ) (r : ContentRange)
    → last ≤ max_u64
    → Stated complete
    → check_bytes first last complete ≡ ok r
    → IsValid r
unfolding check_bytes
check_bytes-IsValid first last none (bytes a b none) l k h = ground arith
check_bytes-IsValid first last none (bytes a b (some c)) l k h = ground arith
check_bytes-IsValid first last none (unsatisfied c) l k h = ground arith
check_bytes-IsValid first last (some d) (bytes a b none) l k h = ground arith
check_bytes-IsValid first last (some d) (bytes a b (some c)) l k h = ground arith
check_bytes-IsValid first last (some d) (unsatisfied c) l k h = ground arith

parse_positions-IsValid :
    (s : Text) (complete : Option ℕ) (r : ContentRange)
    → Stated complete
    → parse_positions s complete ≡ ok r
    → IsValid r
unfolding parse_positions
parse_positions-IsValid s complete r k h = elim (Bool-cases (text_eq s (lit "*"))) [
  | inl star ↦ unranged complete k (rw star at h)
  | inr other ↦
      let (positions, h₁, _) =
        ok-bind (ok_or (malformed "no '-' between the byte positions") (split_once b'-' s))
          (λ positions. parse_decimal positions.0 >>= λ first.
            parse_decimal positions.1 >>= λ last. check_bytes first last complete)
          r (rw other at h) in
      let (first, h₂, _) =
        ok-bind (parse_decimal positions.0)
          (λ first. parse_decimal positions.1 >>= λ last. check_bytes first last complete) r h₁ in
      let (last, h₃, e) =
        ok-bind (parse_decimal positions.1) (λ last. check_bytes first last complete) r h₂ in
      check_bytes-IsValid first last complete r (parse_decimal-bound positions.1 last e) k h₃
]
  where
    unranged : (stated : Option ℕ) → Stated stated → no_range stated ≡ ok r → IsValid r
    unranged none v e = cc
    unranged (some c) v e = ground (arith, e)

parse_parts-IsValid :
    (range_part length_part : Text) (r : ContentRange)
    → parse_parts range_part length_part ≡ ok r
    → IsValid r
unfolding parse_parts
parse_parts-IsValid range_part length_part r h =
    let spaced = any is_ascii_whitespace range_part || any is_ascii_whitespace length_part in
    let (complete, h₁, e₁) =
      ok-bind
        (reject (is_nil range_part || is_nil length_part)
            (malformed "empty range or complete-length")
          >> reject spaced (malformed "internal whitespace")
          >> parse_complete length_part)
        (λ complete. parse_positions range_part complete) r h in
    parse_positions-IsValid range_part complete r
      (parse_complete-Stated length_part complete (unguarded _ _ _ _ complete e₁)) h₁
  where
    unguarded :
        {A : Type 0} (t₁ t₂ : Bool) (e₁ e₂ : ContentRangeError) {rest : Parsed A} (a : A)
        → reject t₁ e₁ >> reject t₂ e₂ >> rest ≡ ok a
        → rest ≡ ok a
    unguarded true t₂ e₁ e₂ a h = cc
    unguarded false true e₁ e₂ a h = cc
    unguarded false false e₁ e₂ a h = h

-- Whatever text `parse` accepts, the range it answers has its positions in order and below
-- 2 ^ 64 - 1, and below the complete length where one is stated.
pub parse-IsValid : (s : Text) (r : ContentRange) → parse s ≡ ok r → IsValid r
unfolding parse parse_unit parse_after_unit
parse-IsValid s r h =
    let (parts, h₁, _) =
      ok-bind
        (reject (is_nil (trim s)) empty
          >> ok_or (malformed "no space after the range unit") (split_once b' ' (trim s)))
        (λ parts. parse_unit parts.0 parts.1) r h in
    let unit = not (eq_ignore_ascii_case parts.0 (lit "bytes")) in
    let (pieces, h₂, _) =
      ok-bind
        (ok_or (malformed "no '/' before the complete-length")
          (split_once b'/' (trim_start_matches (λ c. c == b' ') parts.1)))
        (λ pieces. parse_parts pieces.0 pieces.1) r
        (ok-reject unit (unsupported_unit parts.0) (parse_after_unit parts.1) r h₁).1 in
    parse_parts-IsValid pieces.0 pieces.1 r h₂
