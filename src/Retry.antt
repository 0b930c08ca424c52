-- ===== src/Retry.antt =====
-- crates/downpour-http/src/retry.rs: the retry policy. A Duration and a SystemTime are numbers of
-- nanoseconds, the latter from 1970 on. The clock's jitter and time, and the httpdate crate's
-- parse_http_date, are arguments.
pub mod Decide
pub mod Origins
use downpour.Prelude.{
  ℕ, ◌+◌, ◌-◌, ◌*◌, ◌/◌, ◌%◌, ◌^◌, Bool, true, false, not, ◌||◌, ◌&&◌, Option, none, some, ltb, leb,
  ◌==◌, if◌then◌else◌, max_u64,
}
use downpour.Text.{Text, is_nil, text_eq, all, is_ascii_digit, trim, scan_u64}

pub data TransientKind : Type 0 where
  connection_reset : TransientKind
  timeout : TransientKind
  rate_limited : TransientKind
  service_unavailable : TransientKind
  server_error : TransientKind
  truncated_body : TransientKind
  not_retryable : TransientKind

-- The arms of the match, in their order.
unfoldable pub from_status : ℕ → Option TransientKind
from_status status =
    if status == 401 || status == 403 || status == 410
    then none
    else if status == 408
    then some timeout
    else if status == 429
    then some rate_limited
    else if status == 503
    then some service_unavailable
    else if leb 500 status && leb status 599
    then some server_error
    else if leb 400 status && leb status 499
    then some not_retryable
    else none

abbrev pub is_retryable : TransientKind → Bool
is_retryable not_retryable = false
is_retryable _ = true

pub data RetryDecision : Type 0 where
  retry_after : ℕ → RetryDecision
  give_up : RetryDecision

pub record RetryPolicy : Type 0 where
  pub max_retries : ℕ
  pub base_delay : ℕ
  pub max_delay : ℕ
  pub max_server_delay : ℕ

abbrev pub from_millis : ℕ → ℕ
from_millis n = n * 1000000

abbrev pub from_secs : ℕ → ℕ
from_secs n = n * 1000000000

-- `Default`
abbrev pub default_policy : RetryPolicy
default_policy = record {
  max_retries = 5;
  base_delay = from_millis 500;
  max_delay = from_secs 30;
  max_server_delay = from_secs 3600;
}

-- `Duration::MAX`
abbrev pub max_duration : ℕ
max_duration = max_u64 * 1000000000 + 999999999

abbrev pub min : ℕ → ℕ → ℕ
min a b = if ltb b a then b else a

-- `checked_mul(factor).unwrap_or(fallback)`
abbrev pub mul_or : ℕ → ℕ → ℕ → ℕ
mul_or d factor fallback = if ltb max_duration (d * factor) then fallback else d * factor

-- A shift by at most 16 is in range.
unfoldable pub exponential : RetryPolicy → ℕ → ℕ
exponential p attempt = min (mul_or p.base_delay (2 ^ min attempt 16) p.max_delay) p.max_delay

abbrev pub saturate : ℕ → ℕ
saturate n = min n max_u64

abbrev pub max : ℕ → ℕ → ℕ
max a b = if ltb a b then b else a

-- `spread` of the source, for the answer of `jitter_source`.
abbrev pub spread : ℕ → ℕ → ℕ
spread jitter half = if half == 0 then 0 else jitter % half

unfoldable pub backoff : ℕ → RetryPolicy → ℕ → ℕ
backoff jitter p attempt =
    let half = saturate (exponential p attempt / 1000000) / 2 in
    from_millis (max (saturate (half + spread jitter half)) 1)

abbrev option_map {ℓ κ} : {A : Type ℓ} {B : Type κ} → (A → B) → Option A → Option B
option_map f none = none
option_map f (some a) = some (f a)

-- A date in the past means no wait: the subtraction stops at zero.
unfoldable pub parse_retry_after : (Text → Option ℕ) → ℕ → Text → Option ℕ
parse_retry_after parse_http_date now value =
    let trimmed = trim value in
    if is_nil trimmed
    then none
    else if all is_ascii_digit trimmed
    then option_map from_secs (scan_u64 0 trimmed)
    else option_map (λ when. when - now) (parse_http_date trimmed)

-- `None` when the header is absent or cannot be read.
abbrev pub requested_delay : (Text → Option ℕ) → ℕ → Option Text → Option ℕ
requested_delay parse_http_date now none = none
requested_delay parse_http_date now (some header) = parse_retry_after parse_http_date now header

abbrev pub honour : ℕ → ℕ → Option ℕ → RetryDecision
honour limit computed (some requested) = retry_after (min requested limit)
honour limit computed none = retry_after computed

unfoldable pub decide :
    (Text → Option ℕ) → ℕ → ℕ → RetryPolicy → TransientKind → ℕ → Option Text → RetryDecision
decide parse_http_date now jitter p kind attempt header =
    if not (is_retryable kind) || leb p.max_retries attempt
    then give_up
    else honour p.max_server_delay (backoff jitter p attempt)
        (requested_delay parse_http_date now header)

-- `RetryState`: the counter of each origin that has one.
abbrev pub RetryState : Type 0
RetryState = Text → Option ℕ

abbrev pub fresh : RetryState
fresh origin = none

abbrev pub or_zero : Option ℕ → ℕ
or_zero none = 0
or_zero (some n) = n

abbrev pub attempts : RetryState → Text → ℕ
attempts state origin = or_zero (state origin)

abbrev pub put : RetryState → Text → Option ℕ → RetryState
put state origin counter other = if text_eq other origin then counter else state other

-- The new count stands in the state that is left, too.
unfoldable pub record_failure : RetryState → Text → ℕ × RetryState
record_failure state origin =
    let count = min (attempts state origin + 1) 4294967295 in (count, put state origin (some count))

unfoldable pub reset : RetryState → Text → RetryState
reset state origin = put state origin none
