-- ===== src/Tests/ContentRange.antt =====
-- Headers as servers send them.
use downpour.Prelude.{◌≡◌, ◌↔◌, refl, arith, some, ok, err}
use downpour.Text.{
  show_u64, scan_u64, all, text_eq, is_ascii_whitespace, any, eq_ignore_ascii_case, split_once,
  trim, lit,
}
use downpour.ContentRange.{
  check_bytes, parse_positions, parse_decimal, parse_complete, parse_parts, parse_after_unit,
  parse_unit, ContentRange, bytes, unsatisfied, from_to, suffix, parse, display, header_value, len,
  requested_len, is_consistent_with, unsupported_unit, reversed, numeric_overflow,
  end_beyond_request, last_byte_beyond_complete,
}
use downpour.ContentRange.Consistent.{IsValid, IsConsistent, is_consistent_with_iff}
use downpour.ContentRange.Valid.{parse-IsValid}
use downpour.ContentRange.RoundTrip.{parse-display}

abbrev slice : ContentRange
slice = bytes 100 199 (some 1000)

parses_doubled_space : parse (lit " Bytes  100-199/1000 ") ≡ ok slice
unfolding parse trim split_once parse_unit eq_ignore_ascii_case parse_after_unit parse_parts any
    is_ascii_whitespace parse_complete text_eq parse_decimal all scan_u64 parse_positions
    check_bytes
parses_doubled_space = refl

parses_unsatisfied : parse (lit "bytes */1000") ≡ ok (unsatisfied 1000)
unfolding parse trim split_once parse_unit eq_ignore_ascii_case parse_after_unit parse_parts any
    is_ascii_whitespace parse_complete text_eq parse_decimal all scan_u64 parse_positions
parses_unsatisfied = refl

refuses_reversed : parse (lit "bytes 9-5/10") ≡ err (reversed 9 5)
unfolding parse trim split_once parse_unit eq_ignore_ascii_case parse_after_unit parse_parts any
    is_ascii_whitespace parse_complete text_eq parse_decimal all scan_u64 parse_positions
    check_bytes
refuses_reversed = refl

refuses_beyond : parse (lit "bytes 5-10/10") ≡ err (last_byte_beyond_complete 10 10)
unfolding parse trim split_once parse_unit eq_ignore_ascii_case parse_after_unit parse_parts any
    is_ascii_whitespace parse_complete text_eq parse_decimal all scan_u64 parse_positions
    check_bytes
refuses_beyond = refl

refuses_other_unit : parse (lit "items 5-10/10") ≡ err (unsupported_unit (lit "items"))
unfolding parse trim split_once parse_unit eq_ignore_ascii_case
refuses_other_unit = refl

refuses_last_u64 : parse (lit "bytes 0-18446744073709551615/*") ≡ err numeric_overflow
unfolding parse trim split_once parse_unit eq_ignore_ascii_case parse_after_unit parse_parts any
    is_ascii_whitespace parse_complete text_eq parse_positions parse_decimal all scan_u64
    check_bytes
refuses_last_u64 = refl

prints_suffix : header_value (suffix 500) ≡ lit "bytes=-500"
unfolding header_value show_u64
prints_suffix = refl

prints_bounded : header_value (from_to 0 499) ≡ lit "bytes=0-499"
unfolding header_value show_u64
prints_bounded = refl

parse-IsValid_example : IsValid slice
parse-IsValid_example = parse-IsValid (lit " Bytes  100-199/1000 ") slice parses_doubled_space

slice-IsValid : IsValid slice
slice-IsValid = omega arith

parse-display_example : parse (display slice) ≡ ok slice
parse-display_example = parse-display slice slice-IsValid

is_consistent_with_iff_example :
    (is_consistent_with slice (from_to 100 299) ≡ ok tt) ↔ IsConsistent slice (from_to 100 299)
is_consistent_with_iff_example = is_consistent_with_iff slice (from_to 100 299) slice-IsValid

accepts_shorter : is_consistent_with slice (from_to 100 299) ≡ ok tt
unfolding is_consistent_with
accepts_shorter = refl

slice-len : len slice ≡ some 100
unfolding len
slice-len = refl

request_len : requested_len (from_to 100 299) ≡ some 200
unfolding requested_len
request_len = refl

-- The last 900 bytes were asked for, and the first 100 of them are in the response.
refuses_short_suffix : is_consistent_with slice (suffix 900) ≡ err (end_beyond_request 999 199)
unfolding is_consistent_with
refuses_short_suffix = refl
