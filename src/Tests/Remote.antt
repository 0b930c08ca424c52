-- ===== src/Tests/Remote.antt =====
-- Responses to a ranged probe, and digest headers.
use downpour.Prelude.{ℕ, ◌≡◌, ◌<◌, ◌≤◌, ◌↔◌, refl, true, false, none, some, ok, err, max_u64}
use downpour.Text.{
  Text, lit, trim, text_eq, any, all, is_ascii_whitespace, eq_ignore_ascii_case, split, split_once,
  strip_suffix, scan_u64,
}
use downpour.ContentRange.{
  ByteRangeSpec, from_to, bytes, parse, parse_unit, parse_after_unit, parse_parts, parse_complete,
  parse_decimal, parse_positions, check_bytes, is_consistent_with, len,
}
use downpour.Remote.{
  RangeProof, from_observed_response, check_encoding, prove_range, status_not_206, sha512,
  parse_digest, parse_members, read_member, algorithm_of, payload_of, from_headers,
  from_last_modified, last_modified,
}
use downpour.Remote.Digest.{or_else, first_with, parse_digest-strongest}
use downpour.Remote.Proof.{
  IsIdentity, Encloses, observation_of, from_observed_response_iff, prove_again, proof-prove_again,
}

abbrev first_byte : ByteRangeSpec
first_byte = from_to 0 0

abbrev probe_header : Text
probe_header = lit "bytes 0-0/1048576"

abbrev pub probed : RangeProof
probed = record {
  total_length = 1048576;
  observed = bytes 0 0 (some 1048576);
  requested = first_byte;
  observation = observation_of first_byte 206 (some probe_header) none 1;
}

proves : from_observed_response first_byte 206 (some probe_header) none 1 ≡ ok probed
unfolding from_observed_response check_encoding prove_range parse trim split_once parse_unit
    eq_ignore_ascii_case parse_after_unit parse_parts any is_ascii_whitespace parse_complete text_eq
    parse_decimal all scan_u64 parse_positions check_bytes is_consistent_with len
proves = refl

whole_file_refused :
    from_observed_response first_byte 200 (some probe_header) none 1 ≡ err (status_not_206 200)
unfolding from_observed_response
whole_file_refused = refl

from_observed_response_iff_example :
    (from_observed_response first_byte 206 (some probe_header) none 1 ≡ ok probed) ↔ (
      (◌≡◌ {A = ℕ} 206 206)
      × IsIdentity none
      × Encloses first_byte (some probe_header) 1 probed
      × (probed.requested ≡ first_byte)
      × (probed.observation ≡ observation_of first_byte 206 (some probe_header) none 1))
from_observed_response_iff_example =
    from_observed_response_iff first_byte 206 (some probe_header) none 1 probed

proof-prove_again_example :
    (prove_again probed.observation ≡ ok probed) × (0 < 1) × (1 ≤ 1048576) × (1048576 ≤ max_u64)
proof-prove_again_example =
    proof-prove_again first_byte 206 (some probe_header) none 1 probed proves

abbrev digests : Text
digests = lit "sha-256=:BBBB:, crc=:x:, sha-512=:AAAA:, sha-512=:CC:"

strongest : parse_digest digests ≡ some (record { algorithm = sha512; encoded = lit "AAAA" })
unfolding parse_digest parse_members read_member algorithm_of payload_of split split_once trim
    text_eq strip_suffix
strongest = refl

weak_etag_passed_over :
    from_headers (some (lit "W/'abc'")) (some (lit " Mon ")) ≡ last_modified (lit "Mon")
unfolding from_headers from_last_modified trim
weak_etag_passed_over = refl

parse_digest-strongest_example :
    parse_digest digests
    ≡ or_else (first_with true (split b',' digests)) (first_with false (split b',' digests))
parse_digest-strongest_example = parse_digest-strongest digests
