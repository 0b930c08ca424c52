-- ===== src/ContentRange.antt =====
-- crates/downpour-types/src/content_range.rs: `Range` and `Content-Range` headers. A `str` is its
-- list of code points (Text.antt); the proofs are in the modules below.
pub mod Valid
pub mod RoundTrip
pub mod Consistent
use Prim.Native.String.{String}
use downpour.Prelude.{
  ℕ, ◌+◌, ◌-◌, Bool, true, false, not, ◌||◌, Option, none, some, [], ◌∷◌, ◌++◌, ltb, ◌==◌,
  if◌then◌else◌, max_u64, Result, ok, err, ◌>>=◌, ◌>>◌,
}
use downpour.Text.{
  Text, lit, is_nil, text_eq, is_ascii_digit, is_ascii_whitespace, any, all, trim,
  trim_start_matches, eq_ignore_ascii_case, split_once, scan_u64, show_u64,
}

-- Both positions are inclusive.
pub data ByteRangeSpec : Type 0 where
  from_to : ℕ → ℕ → ByteRangeSpec
  from : ℕ → ByteRangeSpec
  suffix : ℕ → ByteRangeSpec

unfoldable pub header_value : ByteRangeSpec → Text
header_value (from_to first last) = lit "bytes=" ++ (show_u64 first ++ (b'-' ∷ show_u64 last))
header_value (from first) = lit "bytes=" ++ (show_u64 first ++ (b'-' ∷ []))
header_value (suffix len) = lit "bytes=-" ++ show_u64 len

-- `last.checked_sub(first)?.checked_add(1)`
unfoldable pub requested_len : ByteRangeSpec → Option ℕ
requested_len (from_to first last) =
    if ltb last first
    then none
    else if ltb max_u64 (last - first + 1)
    then none
    else some (last - first + 1)
requested_len (from first) = none
requested_len (suffix len) = some len

pub data ContentRange : Type 0 where
  bytes : ℕ → ℕ → Option ℕ → ContentRange
  unsatisfied : ℕ → ContentRange

-- In the source the subtraction and the addition are unchecked.
unfoldable pub len : ContentRange → Option ℕ
len (bytes first last complete) = some (last - first + 1)
len (unsatisfied complete) = none

pub data RangeMismatch : Type 0 where
  unsatisfied_range : RangeMismatch
  wrong_start : ℕ → ℕ → RangeMismatch
  end_beyond_request : ℕ → ℕ → RangeMismatch
  unverifiable_suffix : RangeMismatch

abbrev same_start : ℕ → ℕ → Result (Unit {0}) RangeMismatch
same_start want_first first =
    if not (first == want_first) then err (wrong_start want_first first) else ok tt

-- The last two arguments are the stated complete length and the request.
unfoldable consistent_bytes : ℕ → ℕ → Option ℕ → ByteRangeSpec → Result (Unit {0}) RangeMismatch
consistent_bytes first last complete (from_to want_first want_last) =
    same_start want_first first
    >> (if ltb want_last last then err (end_beyond_request want_last last) else ok tt)
consistent_bytes first last complete (from want_first) = same_start want_first first
consistent_bytes first last none (suffix n) = err unverifiable_suffix
consistent_bytes first last (some complete) (suffix n) =
    same_start (complete - n) first
    >> (if not (last == complete - 1) then err (end_beyond_request (complete - 1) last) else ok tt)

unfoldable pub is_consistent_with : ContentRange → ByteRangeSpec → Result (Unit {0}) RangeMismatch
unfolding consistent_bytes
is_consistent_with (bytes first last complete) requested =
    consistent_bytes first last complete requested
is_consistent_with (unsatisfied complete) requested = err unsatisfied_range

-- `Display`
abbrev pub show_complete : Option ℕ → Text
show_complete (some total) = show_u64 total
show_complete none = lit "*"

unfoldable pub display : ContentRange → Text
display (bytes first last complete) =
    lit "bytes " ++ ((show_u64 first ++ (b'-' ∷ show_u64 last)) ++ (b'/' ∷ show_complete complete))
display (unsatisfied complete) = lit "bytes " ++ (lit "*" ++ (b'/' ∷ show_u64 complete))

pub data ContentRangeError : Type 0 where
  empty : ContentRangeError
  unsupported_unit : Text → ContentRangeError
  malformed : String → ContentRangeError
  reversed : ℕ → ℕ → ContentRangeError
  last_byte_beyond_complete : ℕ → ℕ → ContentRangeError
  numeric_overflow : ContentRangeError

abbrev pub Parsed {ℓ} : Type ℓ → Type ℓ
Parsed A = Result A ContentRangeError

abbrev pub ok_or {ℓ} : {A : Type ℓ} → ContentRangeError → Option A → Parsed A
ok_or e none = err e
ok_or e (some a) = ok a

-- An early return of `e` when the test holds.
abbrev pub reject : Bool → ContentRangeError → Parsed (Unit {0})
reject true e = err e
reject false e = ok tt

unfoldable pub parse_decimal : Text → Parsed ℕ
parse_decimal s =
    reject (is_nil s || not (all is_ascii_digit s)) (malformed "expected a decimal digit sequence")
    >> ok_or numeric_overflow (scan_u64 0 s)

unfoldable pub parse_complete : Text → Parsed (Option ℕ)
parse_complete length_part =
    if text_eq length_part (lit "*")
    then ok none
    else parse_decimal length_part >>= λ total. ok (some total)

abbrev beyond_complete : ℕ → Option ℕ → Parsed (Unit {0})
beyond_complete last none = ok tt
beyond_complete last (some complete) =
    reject (not (ltb last complete)) (last_byte_beyond_complete last complete)

unfoldable pub check_bytes : ℕ → ℕ → Option ℕ → Parsed ContentRange
check_bytes first last complete =
    reject (ltb last first) (reversed first last)
    >> reject (last == max_u64) numeric_overflow
    >> beyond_complete last complete
    >> ok (bytes first last complete)

abbrev pub no_range : Option ℕ → Parsed ContentRange
no_range (some complete) = ok (unsatisfied complete)
no_range none = err (malformed "both the range and the complete-length are unknown")

unfoldable pub parse_positions : Text → Option ℕ → Parsed ContentRange
parse_positions range_part complete =
    if text_eq range_part (lit "*")
    then no_range complete
    else ok_or (malformed "no '-' between the byte positions") (split_once b'-' range_part)
      >>= λ positions. parse_decimal positions.0 >>= λ first.
          parse_decimal positions.1 >>= λ last. check_bytes first last complete

unfoldable pub parse_parts : Text → Text → Parsed ContentRange
parse_parts range_part length_part =
    reject (is_nil range_part || is_nil length_part) (malformed "empty range or complete-length")
    >> reject (any is_ascii_whitespace range_part || any is_ascii_whitespace length_part)
        (malformed "internal whitespace")
    >> parse_complete length_part
    >>= λ complete. parse_positions range_part complete

unfoldable pub parse_after_unit : Text → Parsed ContentRange
parse_after_unit rest =
    ok_or (malformed "no '/' before the complete-length")
      (split_once b'/' (trim_start_matches (λ c. c == b' ') rest))
    >>= λ parts. parse_parts parts.0 parts.1

unfoldable pub parse_unit : Text → Text → Parsed ContentRange
parse_unit unit rest =
    reject (not (eq_ignore_ascii_case unit (lit "bytes"))) (unsupported_unit unit)
    >> parse_after_unit rest

-- `from_str`
unfoldable pub parse : Text → Parsed ContentRange
parse raw =
    let s = trim raw in
    reject (is_nil s) empty
    >> ok_or (malformed "no space after the range unit") (split_once b' ' s)
    >>= λ parts. parse_unit parts.0 parts.1
