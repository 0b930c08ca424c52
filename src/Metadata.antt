-- ===== src/Metadata.antt =====
-- crates/downpour-storage/src/metadata.rs: the records of the metadata store that recovery reads and
-- writes. The SQLite database below it is not modelled: MetadataStore is a record of the operations
-- that recovery calls, each with the store that it leaves. Of DownloadMetadata and its identity the
-- fields stand here that recovery reads or changes.
use Prim.Native.String.{String}
use downpour.Prelude.{
  ℕ, ◌+◌, ◌-◌, Bool, true, false, not, ◌||◌, ◌&&◌, Option, none, some, List, [], ◌∷◌, ltb, leb,
  ◌==◌, if◌then◌else◌, max_u64, length, Result, ok, err, ◌>>◌, ◌>>=◌,
}
use downpour.Journal.{Bytes}
use downpour.Remote.{RangeProofError, RangeSupport}
use downpour.Text.{Text, is_ascii_digit, is_nil}

pub data DownloadState : Type 0 where
  submitted : DownloadState
  probing : DownloadState
  planned : DownloadState
  transferring : DownloadState
  paused : DownloadState
  stalled : DownloadState
  awaiting_refresh : DownloadState
  verifying : DownloadState
  completed : DownloadState
  failed : DownloadState

pub data MetadataFormat : Type 0 where
  range_observation : MetadataFormat
  checkpoint_format : MetadataFormat
  identity_snapshot : MetadataFormat
  native_path : MetadataFormat

-- An error of rusqlite is a text here.
pub data MetadataError : Type 0 where
  sqlite : String → MetadataError
  newer_schema_version : ℕ → ℕ → MetadataError
  unversioned_nonempty_database : MetadataError
  invalid_schema : String → MetadataError
  invalid_connection_policy : String → MetadataError
  newer_format_version : MetadataFormat → ℕ → ℕ → MetadataError
  unsupported_format_version : MetadataFormat → ℕ → MetadataError
  invalid_encoding : MetadataFormat → String → MetadataError
  non_canonical_encoding : MetadataFormat → MetadataError
  collection_limit_exceeded : MetadataFormat → ℕ → ℕ → MetadataError
  payload_too_large : MetadataFormat → ℕ → ℕ → MetadataError
  invalid_checkpoint : String → MetadataError
  invalid_range_observation : RangeProofError → MetadataError
  invalid_download_id : String → MetadataError
  secret_reference_required : MetadataError
  invalid_secret_reference : String → MetadataError
  invalid_error_kind : String → MetadataError
  invalid_public_url : String → MetadataError
  field_too_long : String → ℕ → ℕ → MetadataError
  integer_out_of_range : String → ℕ → MetadataError
  unsupported_path_encoding : ℕ → MetadataError
  invalid_value : String → MetadataError

abbrev pub Stored {ℓ} : Type ℓ → Type ℓ
Stored A = Result A MetadataError

abbrev pub DownloadErrorKind : Type 0
DownloadErrorKind = Text

abbrev is_ascii_lowercase : ℕ → Bool
is_ascii_lowercase c = leb 97 c && leb c 122

-- `split('.').all(..)`, at the start of a segment or inside one.
unfoldable pub segments_valid : Bool → Text → Bool
segments_valid at_start [] = not at_start
segments_valid true (c ∷ s) = let rest = segments_valid false s in is_ascii_lowercase c && rest
segments_valid false (c ∷ s) =
    let next = segments_valid true s in
    let rest = segments_valid false s in
    if c == 46 then next else (is_ascii_lowercase c || is_ascii_digit c || c == 45) && rest

-- A text that is not ASCII is refused for its syntax here where its bytes are too many.
unfoldable pub new_error_kind : Text → Stored DownloadErrorKind
new_error_kind raw =
    if is_nil raw || ltb 128 (length raw)
    then err (invalid_error_kind "identifier is empty or too long")
    else if not (segments_valid true raw)
    then err (invalid_error_kind "identifier is not lowercase dotted syntax")
    else ok raw

pub record DownloadMetadata : Type 0 where
  pub id : Bytes
  pub download_state : DownloadState
  pub updated_at_ms : ℕ
  pub total_length : Option ℕ
  pub covered_bytes : ℕ
  pub error_kind : Option DownloadErrorKind
  pub space_reserved : Bool
  pub range_support : RangeSupport

pub record CompleteInterval : Type 0 where
  pub start : ℕ
  pub end : ℕ

unfoldable pub complete_interval : ℕ → ℕ → Stored CompleteInterval
complete_interval start end =
    if leb end start
    then err (invalid_checkpoint "complete interval is empty or reversed")
    else ok (record { start = start; end = end })

pub record Checkpoint : Type 0 where
  pub total_length : ℕ
  pub covered_bytes : ℕ
  pub intervals : List CompleteInterval

abbrev follows : Option ℕ → ℕ → Bool
follows none start = true
follows (some end) start = leb end start

abbrev checked_sum : ℕ → ℕ → Stored ℕ
checked_sum covered size =
    if ltb max_u64 (covered + size)
    then err (invalid_checkpoint "covered byte count overflowed")
    else ok (covered + size)

abbrev require : Bool → String → Stored (Unit {0})
require test reason = if test then ok tt else err (invalid_checkpoint reason)

-- The loop, with `previous_end` and the bytes so far.
unfoldable pub sum_intervals : ℕ → Option ℕ → ℕ → List CompleteInterval → Stored ℕ
sum_intervals total previous covered [] = ok covered
sum_intervals total previous covered (i ∷ rest) =
    require (ltb i.start i.end) "complete interval is empty or reversed"
    >> require (leb i.end total) "complete interval exceeds total length"
    >> require (follows previous i.start) "complete intervals overlap or are out of order"
    >> checked_sum covered (i.end - i.start)
    >>= λ sum. sum_intervals total (some i.end) sum rest

abbrev expected : ℕ → Option (ℕ × ℕ) → Bool
expected covered none = true
expected covered (some (encoded, sql)) = covered == encoded && covered == sql

unfoldable pub validate_intervals : ℕ → List CompleteInterval → Option (ℕ × ℕ) → Stored Checkpoint
validate_intervals total intervals expected_covered =
    if ltb 1000000 (length intervals)
    then err (collection_limit_exceeded checkpoint_format (length intervals) 1000000)
    else sum_intervals total none 0 intervals >>= λ covered.
        require (expected covered expected_covered)
          "interval union differs from encoded or SQL covered_bytes"
        >> ok (record { total_length = total; covered_bytes = covered; intervals = intervals })

pub record PersistedCheckpoint : Type 0 where
  pub journal_sequence : ℕ
  pub written_at_ms : ℕ
  pub checkpoint : Checkpoint

pub record MetadataStore (S : Type 0) : Type 0 where
  pub load_download : S → Bytes → Stored (Option DownloadMetadata)
  pub save_download : S → DownloadMetadata → Stored (Unit {0}) × S
  pub load_checkpoint : S → Bytes → Stored (Option PersistedCheckpoint)
  pub save_checkpoint : S → Bytes → ℕ → ℕ → Checkpoint → Stored Bool × S
