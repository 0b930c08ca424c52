-- ===== src/Remote.antt =====
-- crates/downpour-types/src/remote.rs: what the capability probe learned about a remote object.
-- The private fields of RangeProof are a convention of the source's module system, so a record is
-- a proof only where from_observed_response answered it. A `str` is its list of code points.
pub mod Proof
pub mod Digest
use Prim.Native.String.{String}
use downpour.Prelude.{
  ℕ, Bool, true, false, not, ◌&&◌, ◌||◌, Option, none, some, List, [], ◌∷◌, ◌==◌, if◌then◌else◌,
  Result, ok, err, ◌>>=◌, ◌>>◌,
}
use downpour.Text.{
  Text, lit, is_nil, text_eq, trim, eq_ignore_ascii_case, split, split_once, lower, strip_prefix,
  strip_suffix,
}
use downpour.ContentRange.{
  ByteRangeSpec, ContentRange, bytes, unsatisfied, ContentRangeError, RangeMismatch, parse, len,
  is_consistent_with,
}

pub record RangeObservation : Type 0 where
  pub requested : ByteRangeSpec
  pub status : ℕ
  pub content_range : Option Text
  pub content_encoding : Option Text
  pub body_len : ℕ

pub record RangeProof : Type 0 where
  pub total_length : ℕ
  pub observed : ContentRange
  pub requested : ByteRangeSpec
  pub observation : RangeObservation

pub data RangeProofError : Type 0 where
  status_not_206 : ℕ → RangeProofError
  unexpected_content_encoding : Text → RangeProofError
  content_range_absent : RangeProofError
  content_range_malformed : ContentRangeError → RangeProofError
  content_range_mismatch : RangeMismatch → RangeProofError
  total_length_unknown : RangeProofError
  body_length_mismatch : ℕ → ℕ → RangeProofError

abbrev pub Observed {ℓ} : Type ℓ → Type ℓ
Observed A = Result A RangeProofError

abbrev pub complete_length : ContentRange → Option ℕ
complete_length (bytes first last complete) = complete
complete_length (unsatisfied complete) = some complete

-- An early return unless the test holds.
abbrev pub require : Bool → RangeProofError → Observed (Unit {0})
require true e = ok tt
require false e = err e

abbrev pub ok_or {ℓ} : {A : Type ℓ} → RangeProofError → Option A → Observed A
ok_or e none = err e
ok_or e (some a) = ok a

-- The conversions of `?`.
abbrev pub parsed : Result ContentRange ContentRangeError → Observed ContentRange
parsed (ok r) = ok r
parsed (err e) = err (content_range_malformed e)

abbrev consistent : Result (Unit {0}) RangeMismatch → Observed (Unit {0})
consistent (ok _) = ok tt
consistent (err e) = err (content_range_mismatch e)

unfoldable pub check_encoding : Option Text → Observed (Unit {0})
check_encoding none = ok tt
check_encoding (some encoding) =
    let trimmed = trim encoding in
    require (is_nil trimmed || eq_ignore_ascii_case trimmed (lit "identity"))
      (unexpected_content_encoding trimmed)

-- Behind the parsing of the header.
unfoldable pub prove_range : RangeObservation → ContentRange → Observed RangeProof
prove_range o range =
    consistent (is_consistent_with range o.requested)
    >> ok_or total_length_unknown (complete_length range)
    >>= λ total. ok_or total_length_unknown (len range) >>= λ expected.
        require (o.body_len == expected) (body_length_mismatch expected o.body_len)
        >> ok (record {
          total_length = total;
          observed = range;
          requested = o.requested;
          observation = o;
        })

unfoldable pub from_observed_response :
    ByteRangeSpec → ℕ → Option Text → Option Text → ℕ → Observed RangeProof
from_observed_response requested status content_range content_encoding body_len =
    require (status == 206) (status_not_206 status)
    >> check_encoding content_encoding
    >> ok_or content_range_absent content_range
    >>= λ header. parsed (parse header) >>= λ range.
        prove_range
          (record {
            requested = requested;
            status = status;
            content_range = content_range;
            content_encoding = content_encoding;
            body_len = body_len;
          })
          range

pub data RangeSupport : Type 0 where
  proven : RangeProof → RangeSupport
  absent : RangeSupport
  unknown : RangeSupport

abbrev pub is_proven : RangeSupport → Bool
is_proven (proven p) = true
is_proven _ = false

abbrev pub proven_length : RangeSupport → Option ℕ
proven_length (proven p) = some p.total_length
proven_length _ = none

pub data Validator : Type 0 where
  strong_etag : Text → Validator
  last_modified : Text → Validator
  no_validator : Validator

-- `starts_with` of the text `W/` and of the character `"`.
abbrev starts_weak : Text → Bool
starts_weak (b ∷ c ∷ s) = b == b'W' && c == b'/'
starts_weak _ = false

abbrev starts_quoted : Text → Bool
starts_quoted (c ∷ s) = c == b'"'
starts_quoted [] = false

unfoldable pub from_last_modified : Option Text → Validator
from_last_modified none = no_validator
from_last_modified (some date) =
    let trimmed = trim date in if is_nil trimmed then no_validator else last_modified trimmed

unfoldable pub from_headers : Option Text → Option Text → Validator
from_headers none date = from_last_modified date
from_headers (some etag) date =
    let trimmed = trim etag in
    if not (is_nil trimmed) && not (starts_weak trimmed) && starts_quoted trimmed
    then strong_etag trimmed
    else from_last_modified date

abbrev pub is_strong : Validator → Bool
is_strong (strong_etag tag) = true
is_strong _ = false

abbrev pub if_range_value : Validator → Option Text
if_range_value (strong_etag tag) = some tag
if_range_value (last_modified date) = some date
if_range_value no_validator = none

pub data DigestAlgorithm : Type 0 where
  sha256 : DigestAlgorithm
  sha512 : DigestAlgorithm

abbrev pub token : DigestAlgorithm → Text
token sha256 = lit "sha-256"
token sha512 = lit "sha-512"

pub record ContentDigest : Type 0 where
  pub algorithm : DigestAlgorithm
  pub encoded : Text

unfoldable pub algorithm_of : Text → Option DigestAlgorithm
algorithm_of key =
    if text_eq (lower (trim key)) (lit "sha-256")
    then some sha256
    else if text_eq (lower (trim key)) (lit "sha-512")
    then some sha512
    else none

-- `value.strip_prefix(':').and_then(|v| v.strip_suffix(':'))`, refused where it is empty.
unfoldable pub payload_of : Text → Option Text
payload_of value = elim (strip_prefix b':' (trim value)) [
  | none ↦ none
  | some v ↦ elim (strip_suffix b':' v) [
    | none ↦ none
    | some encoded ↦ if is_nil encoded then none else some encoded
  ]
]

abbrev digest_with : Option DigestAlgorithm → Option Text → Option ContentDigest
digest_with none payload = none
digest_with (some a) none = none
digest_with (some a) (some encoded) = some (record { algorithm = a; encoded = encoded })

-- One member of the dictionary; none where the loop continues with the next.
unfoldable pub read_member : Text → Option ContentDigest
read_member member = elim (split_once b'=' member) [
  | none ↦ none
  | some (key, value) ↦ digest_with (algorithm_of key) (payload_of value)
]

abbrev pub is_sha512 : DigestAlgorithm → Bool
is_sha512 sha512 = true
is_sha512 sha256 = false

-- `stronger`
abbrev pub is_stronger : ContentDigest → Option ContentDigest → Bool
is_stronger candidate none = true
is_stronger candidate (some current) =
    is_sha512 candidate.algorithm && not (is_sha512 current.algorithm)

abbrev pub keep_stronger : Option ContentDigest → Option ContentDigest → Option ContentDigest
keep_stronger best none = best
keep_stronger best (some candidate) = if is_stronger candidate best then some candidate else best

unfoldable pub parse_members : Option ContentDigest → List Text → Option ContentDigest
parse_members best [] = best
parse_members best (member ∷ members) =
    parse_members (keep_stronger best (read_member member)) members

unfoldable pub parse_digest : Text → Option ContentDigest
parse_digest raw = parse_members none (split b',' raw)

pub data NegotiatedProtocol : Type 0 where
  http11 : NegotiatedProtocol
  http2 : NegotiatedProtocol
  http3 : NegotiatedProtocol

-- The types of the url and mime crates are parameters. A time is a number of nanoseconds.
pub record RemoteObject (Url Mime : Type 0) : Type 0 where
  pub final_url : Url
  pub redirect_chain : List Url
  pub total_length : Option ℕ
  pub range_support : RangeSupport
  pub validator : Validator
  pub digest : Option ContentDigest
  pub protocol : NegotiatedProtocol
  pub suggested_filename : Option Text
  pub content_type : Option Mime
  pub probed_at : ℕ
