-- ===== src/ContentRange/RoundTrip.antt =====
-- A printed `Content-Range` header is read back.
use downpour.Prelude.{
  ℕ, ◌≤◌, Bool, false, Option, none, some, [], ◌∷◌, ◌++◌, ◌≡◌, ◌≢◌, refl, arith, ◌==◌, max_u64, ok,
  ◌>>=◌, All, ap, append-nil, sym, ◌∙◌,
}
use downpour.Text.{
  Text, lit, is_nil, is_whitespace, is_ascii_whitespace, trim, eq_ignore_ascii_case, text_eq,
  show_u64,
}
use downpour.Text.Split.{
  Lacks, split_once-append, any-Lacks, trim_start_matches-cons, trim_end_matches-append,
  trim_start_matches-Lacks, All-weaken,
}
use downpour.Text.Decimal.{
  show_u64-is_nil, all_digits, IsDigit, All-append, show_u64-digits, show_u64-cons,
  scan_u64-show_u64,
}
use downpour.ContentRange.{
  ContentRange, bytes, unsatisfied, parse_decimal, parse_complete, check_bytes, parse_positions,
  parse_parts, parse_after_unit, parse_unit, parse, display, show_complete,
}
use downpour.ContentRange.Consistent.{IsValid}

-- Digits, `-` and `*` are among the characters from `*` to `9` but for `/`.
abbrev IsInk : ℕ → Type 0
IsInk c = (b'*' ≤ c) × (c ≤ b'9') × (c ≢ b'/')

Digit-Ink : (c : ℕ) → IsDigit c → IsInk c
Digit-Ink c h = ground arith

Ink-is_whitespace : (c : ℕ) → IsInk c → is_whitespace c ≡ false
unfolding is_whitespace
Ink-is_whitespace c h = ground arith

Ink-is_ascii_whitespace : (c : ℕ) → IsInk c → is_ascii_whitespace c ≡ false
unfolding is_ascii_whitespace
Ink-is_ascii_whitespace c h = ground arith

Ink-slash : (c : ℕ) → IsInk c → (c == b'/') ≡ false
Ink-slash c h = ground arith

slash-is_whitespace : is_whitespace b'/' ≡ false
unfolding is_whitespace
slash-is_whitespace = refl

Ink-space : (c : ℕ) → IsInk c → (c == b' ') ≡ false
Ink-space c h = ground arith

show_u64-Ink : (n : ℕ) → n ≤ max_u64 → All IsInk (show_u64 n)
show_u64-Ink n h = All-weaken IsDigit IsInk (show_u64 n) Digit-Ink (show_u64-digits n h)

-- A printed number is not the unknown marker.
not_star :
    (s rest : Text) → All IsDigit s → is_nil s ≡ false → text_eq (s ++ rest) (lit "*") ≡ false
unfolding text_eq
not_star [] rest h k = cc
not_star (c ∷ s) rest h k = ground arith

parse_decimal-show_u64 : (n : ℕ) → n ≤ max_u64 → parse_decimal (show_u64 n) ≡ ok n
unfolding parse_decimal
parse_decimal-show_u64 n h =
    rw (show_u64-is_nil n, all_digits (show_u64 n) (show_u64-digits n h), scan_u64-show_u64 n h)

-- A text of two parts with ink only reaches the parser of the parts.
module _ (rp lp : Text) (rp_ink : All IsInk rp) (lp_ink : All IsInk lp)
    (rp_some : is_nil rp ≡ false) (lp_some : is_nil lp ≡ false) where
  body-Lacks :
      (test : ℕ → Bool)
      → ((c : ℕ) → IsInk c → test c ≡ false)
      → test b'/' ≡ false
      → Lacks test (rp ++ (b'/' ∷ lp))
  body-Lacks test f slash =
      All-append _ rp (b'/' ∷ lp) (All-weaken IsInk _ rp f rp_ink)
        (slash, All-weaken IsInk _ lp f lp_ink)

  body-is_nil : (s : Text) → is_nil (s ++ (b'/' ∷ lp)) ≡ false
  body-is_nil [] = refl
  body-is_nil (c ∷ s) = refl

  trim-body : trim (lit "bytes " ++ (rp ++ (b'/' ∷ lp))) ≡ lit "bytes " ++ (rp ++ (b'/' ∷ lp))
  unfolding trim
  trim-body =
      rw
        (trim_start_matches-cons is_whitespace b'b' (lit "ytes " ++ (rp ++ (b'/' ∷ lp)))
          (unfold is_whitespace in refl))
        (trim_end_matches-append is_whitespace (lit "bytes ") (rp ++ (b'/' ∷ lp)) (body-is_nil rp)
          (body-Lacks is_whitespace Ink-is_whitespace slash-is_whitespace))

  parse_parts-ink :
      parse_parts rp lp ≡ (parse_complete lp >>= λ complete. parse_positions rp complete)
  unfolding parse_parts
  parse_parts-ink = rw (
    rp_some,
    lp_some,
    any-Lacks is_ascii_whitespace rp (All-weaken IsInk _ rp Ink-is_ascii_whitespace rp_ink),
    any-Lacks is_ascii_whitespace lp (All-weaken IsInk _ lp Ink-is_ascii_whitespace lp_ink),
  )

  parse_after_unit-ink : parse_after_unit (rp ++ (b'/' ∷ lp)) ≡ parse_parts rp lp
  unfolding parse_after_unit
  parse_after_unit-ink = rw (
    trim_start_matches-Lacks (λ c. c == b' ') (rp ++ (b'/' ∷ lp)) (body-Lacks _ Ink-space refl),
    split_once-append b'/' rp lp (All-weaken IsInk _ rp Ink-slash rp_ink),
  )

  parse-ink :
      parse (lit "bytes " ++ (rp ++ (b'/' ∷ lp)))
      ≡ (parse_complete lp >>= λ complete. parse_positions rp complete)
  unfolding parse parse_unit eq_ignore_ascii_case
  parse-ink = rw (
    trim-body,
    split_once-append b' ' (lit "bytes") (rp ++ (b'/' ∷ lp))
        (refl, (refl, (refl, (refl, (refl, tt))))),
    parse_after_unit-ink,
    parse_parts-ink,
  )

-- Both parts of a printed header are ink.
show_complete-IsInk :
    (complete : Option ℕ)
    → ((total : ℕ) → complete ≡ some total → total ≤ max_u64)
    → All IsInk (show_complete complete) × (is_nil (show_complete complete) ≡ false)
show_complete-IsInk none h = ((ground arith, tt), refl)
show_complete-IsInk (some total) h = (show_u64-Ink total (h total refl), show_u64-is_nil total)

parse_complete-show_complete :
    (complete : Option ℕ)
    → ((total : ℕ) → complete ≡ some total → total ≤ max_u64)
    → parse_complete (show_complete complete) ≡ ok complete
unfolding parse_complete
parse_complete-show_complete none h = unfold text_eq in refl
parse_complete-show_complete (some total) h =
    let fits = h total refl in
    let other : text_eq (show_u64 total) (lit "*") ≡ false =
      ap (λ s. text_eq s (lit "*")) (sym (append-nil (show_u64 total)))
      ∙ not_star (show_u64 total) [] (show_u64-digits total fits) (show_u64-is_nil total) in
    rw (other, parse_decimal-show_u64 total fits)

abbrev positions : ℕ → ℕ → Text
positions first last = show_u64 first ++ (b'-' ∷ show_u64 last)

positions-IsInk :
    (first last : ℕ) → first ≤ max_u64 → last ≤ max_u64 → All IsInk (positions first last)
positions-IsInk first last f l =
    All-append IsInk (show_u64 first) (b'-' ∷ show_u64 last) (show_u64-Ink first f)
      (ground arith, show_u64-Ink last l)

positions-is_nil : (first last : ℕ) → is_nil (positions first last) ≡ false
positions-is_nil first last =
    let (c, s, e) = show_u64-cons first in ap (λ t. is_nil (t ++ (b'-' ∷ show_u64 last))) e

parse_positions-show :
    (first last : ℕ) (complete : Option ℕ)
    → first ≤ max_u64
    → last ≤ max_u64
    → parse_positions (positions first last) complete ≡ check_bytes first last complete
unfolding parse_positions
parse_positions-show first last complete f l = rw (
  not_star (show_u64 first) (b'-' ∷ show_u64 last) (show_u64-digits first f)
      (show_u64-is_nil first),
  split_once-append b'-' (show_u64 first) (show_u64 last)
      (All-weaken IsDigit _ (show_u64 first) (λ c h. ground arith) (show_u64-digits first f)),
  parse_decimal-show_u64 first f,
  parse_decimal-show_u64 last l,
)

check_bytes-valid :
    (first last : ℕ) (complete : Option ℕ)
    → IsValid (bytes first last complete)
    → check_bytes first last complete ≡ ok (bytes first last complete)
unfolding check_bytes
check_bytes-valid first last none v = ground arith
check_bytes-valid first last (some c) v = ground arith

parse-display_bytes :
    (first last : ℕ) (complete : Option ℕ)
    → first ≤ max_u64
    → last ≤ max_u64
    → ((total : ℕ) → complete ≡ some total → total ≤ max_u64)
    → parse (display (bytes first last complete)) ≡ check_bytes first last complete
unfolding display
parse-display_bytes first last complete f l h =
    let (ink, some_ink) = show_complete-IsInk complete h in
    rw
      (
        parse-ink (positions first last) (show_complete complete) (positions-IsInk first last f l)
            ink (positions-is_nil first last) some_ink,
        parse_complete-show_complete complete h,
      )
      (parse_positions-show first last complete f l)

-- A range that the parser can produce is read back from its printed header.
pub parse-display : (r : ContentRange) → IsValid r → parse (display r) ≡ ok r
parse-display (bytes first last none) v =
    parse-display_bytes first last none (omega arith) (omega arith) (λ total e. cc)
    ∙ check_bytes-valid first last none v
parse-display (bytes first last (some c)) v =
    parse-display_bytes first last (some c) (omega arith) (omega arith) (λ total e. ground arith)
    ∙ check_bytes-valid first last (some c) v
parse-display (unsatisfied c) v =
    unfold display in
    rw
      (
        parse-ink (lit "*") (show_u64 c) (ground arith, tt) (show_u64-Ink c v) refl
            (show_u64-is_nil c),
        parse_complete-show_complete (some c) (λ total e. ground arith),
      )
      (unfold parse_positions text_eq in refl)
