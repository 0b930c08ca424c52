-- ===== src/Retry/Decide.antt =====
-- What the policy decides.
use downpour.Prelude.{
  ℕ, zero, suc, ◌+◌, ◌*◌, ◌^◌, ltb, ◌/◌, ◌%◌, ◌≤◌, ◌<◌, Bool, true, false, not, ◌||◌, Option, none,
  some, [], ◌≡◌, ◌≢◌, ◌⊎◌, ◌↔◌, inl, inr, refl, arith, leb, ◌==◌, if◌then◌else◌, max_u64,
  Bool-cases,
}
use native.Mathlib.Nat.{pow-succ', mod-eq_of_lt}
use downpour.Text.{Text, is_whitespace, trim, show_u64}
use downpour.Text.Split.{All-weaken, trim_start_matches-Lacks, trim_end_matches-append}
use downpour.Text.Decimal.{IsDigit, show_u64-digits, show_u64-is_nil, all_digits, scan_u64-show_u64}
use downpour.Retry.{
  TransientKind, connection_reset, timeout, rate_limited, service_unavailable, server_error,
  truncated_body, not_retryable, from_status, is_retryable, RetryDecision, retry_after, give_up,
  RetryPolicy, from_millis, from_secs, min, max, max_duration, saturate, spread, exponential,
  backoff, parse_retry_after, requested_delay, honour, decide,
}

-- Whether a status is worth another attempt.
abbrev pub WorthRetrying : Option TransientKind → Type 0
WorthRetrying none = ⊥
WorthRetrying (some kind) = is_retryable kind ≡ true

-- Exactly 408, 429 and the statuses from 500 to 599 are classified as worth another attempt.
pub from_status_iff :
    (status : ℕ)
    → WorthRetrying (from_status status)
      ↔ ((status ≡ 408) ⊎ (status ≡ 429) ⊎ ((500 ≤ status) × (status ≤ 599)))
unfolding from_status
from_status_iff status = ground arith

honour-ne : (limit computed : ℕ) (asked : Option ℕ) → honour limit computed asked ≢ give_up
honour-ne limit computed none h = cc
honour-ne limit computed (some requested) h = cc

refused :
    (kind : TransientKind) (budget attempt : ℕ)
    → ((not (is_retryable kind) || leb budget attempt) ≡ true)
      ↔ ((kind ≡ not_retryable) ⊎ (budget ≤ attempt))
refused connection_reset budget attempt = ground arith
refused timeout budget attempt = ground arith
refused rate_limited budget attempt = ground arith
refused service_unavailable budget attempt = ground arith
refused server_error budget attempt = ground arith
refused truncated_body budget attempt = ground arith
refused not_retryable budget attempt = ground arith

gives_up :
    (test : Bool) (other : RetryDecision)
    → other ≢ give_up
    → ((if test then give_up else other) ≡ give_up) ↔ (test ≡ true)
gives_up true other h = (λ e. refl, λ e. refl)
gives_up false other h = (λ e. absurd (h e), λ e. cc)

-- The policy gives up exactly on the kind that is not retryable and when the attempts so far reach
-- the budget, whatever header, clock and jitter there are.
pub decide_iff :
    (parse_http_date : Text → Option ℕ) (now jitter : ℕ) (p : RetryPolicy) (kind : TransientKind)
    (attempt : ℕ) (header : Option Text)
    → (decide parse_http_date now jitter p kind attempt header ≡ give_up)
      ↔ ((kind ≡ not_retryable) ⊎ (p.max_retries ≤ attempt))
unfolding decide
decide_iff parse_http_date now jitter p kind attempt header =
    let test = not (is_retryable kind) || leb p.max_retries attempt in
    let asked = requested_delay parse_http_date now header in
    let gate = gives_up test _ (honour-ne p.max_server_delay (backoff jitter p attempt) asked) in
    let cases = refused kind p.max_retries attempt in
    (λ e. cases.0 (gate.0 e), λ e. gate.1 (cases.1 e))

remainder_lt : (a b : ℕ) → 0 < b → a % b < b
remainder_lt a b h = search native.Mathlib.Nat.mod-lt

-- The jittered delay in milliseconds, for a window of `m` milliseconds.
abbrev jittered : ℕ → ℕ → ℕ
jittered jitter m = max (saturate (m / 2 + spread jitter (m / 2))) 1

spread-lt : (jitter half : ℕ) → spread jitter half ≤ half × ((0 < half) → spread jitter half < half)
spread-lt jitter half = elim (Bool-cases (half == 0)) [
  | inl e ↦ rw e (ground arith)
  | inr e ↦
      let small = remainder_lt jitter half (ground arith) in rw e (omega (arith, small), λ h. small)
]

jittered-bounds :
    (jitter m : ℕ)
    → m ≤ max_u64
    → (m / 2 ≤ jittered jitter m)
      × (0 < jittered jitter m)
      × ((jittered jitter m < m) ⊎ (jittered jitter m ≡ 1))
jittered-bounds jitter m h =
    let (le, lt) = spread-lt jitter (m / 2) in bounded (spread jitter (m / 2)) le lt
  where
    bounded :
        (n : ℕ)
        → n ≤ m / 2
        → (0 < m / 2 → n < m / 2)
        → (m / 2 ≤ max (saturate (m / 2 + n)) 1)
          × (0 < max (saturate (m / 2 + n)) 1)
          × ((max (saturate (m / 2 + n)) 1 < m) ⊎ (max (saturate (m / 2 + n)) 1 ≡ 1))
    bounded n le lt = (ground arith, ground arith, ground arith)

-- `base * 2^attempt`: the delay doubles with each attempt.
unfoldable pub doubled : ℕ → ℕ → ℕ
doubled base zero = base
doubled base (suc attempt) = 2 * doubled base attempt

jittered-add : (jitter m : ℕ) → m ≤ max_u64 → jitter < m / 2 → jittered jitter m ≡ m / 2 + jitter
jittered-add jitter m h k =
    let open_half : (m / 2 == 0) ≡ false = ground arith in
    rw (open_half, mod-eq_of_lt k) (fits (m / 2 + jitter) (omega (arith, k)) (omega (arith, k, h)))
  where
    fits : (n : ℕ) → 0 < n → n ≤ max_u64 → max (saturate n) 1 ≡ n
    fits n h k = ground arith

-- The window grows up to the sixteenth attempt, and is at most the maximal delay.
abbrev pub window : RetryPolicy → ℕ → ℕ
window p attempt = min (doubled p.base_delay (min attempt 16)) p.max_delay

doubled-pow : (base n : ℕ) → doubled base n ≡ base * 2 ^ n
unfolding doubled
doubled-pow base zero = omega arith
doubled-pow base (suc n) = rw (doubled-pow base n, pow-succ' 2 n) (omega arith)

-- A product that no Duration holds is above the maximal delay, which one does.
exponential-window :
    (p : RetryPolicy) (attempt : ℕ)
    → p.max_delay / 1000000 ≤ max_u64
    → exponential p attempt ≡ window p attempt
unfolding exponential
exponential-window p attempt h =
    rw (doubled-pow p.base_delay (min attempt 16))
      (capped (p.base_delay * 2 ^ min attempt 16) p.max_delay h)
  where
    capped :
        (n limit : ℕ)
        → limit / 1000000 ≤ max_u64
        → min (if ltb max_duration n then limit else n) limit ≡ min n limit
    capped n limit h = ground arith

-- A computed delay is a whole number of milliseconds, at least half of the window and below it, or the
-- least delay of one millisecond, whatever the jitter. The window is the base delay, doubled with each
-- attempt up to the sixteenth, or the maximal delay where that is less, in whole milliseconds;
-- a jitter below half of it is added to that half. The milliseconds of the maximal delay are a u64.
pub backoff-bounds :
    (jitter : ℕ) (p : RetryPolicy) (attempt : ℕ)
    → p.max_delay / 1000000 ≤ max_u64
    → (d : ℕ) × (backoff jitter p attempt ≡ from_millis d)
      × (window p attempt / 1000000 / 2 ≤ d)
      × (0 < d)
      × ((d < window p attempt / 1000000) ⊎ (d ≡ 1))
      × (jitter < window p attempt / 1000000 / 2 → d ≡ window p attempt / 1000000 / 2 + jitter)
unfolding backoff
backoff-bounds jitter p attempt h =
    let small : window p attempt / 1000000 ≤ max_u64 =
      short (doubled p.base_delay (min attempt 16)) p.max_delay h in
    rw (exponential-window p attempt h, saturate-eq_self (window p attempt / 1000000) small)
      (let bounds = jittered-bounds jitter (window p attempt / 1000000) small in
        (
          jittered jitter (window p attempt / 1000000),
          refl,
          bounds.0,
          bounds.1,
          bounds.2,
          jittered-add jitter (window p attempt / 1000000) small,
        ))
  where
    short : (n limit : ℕ) → limit / 1000000 ≤ max_u64 → min n limit / 1000000 ≤ max_u64
    short n limit h = ground arith

    saturate-eq_self : (n : ℕ) → n ≤ max_u64 → saturate n ≡ n
    saturate-eq_self n h = ground arith

trim-show_u64 : (n : ℕ) → n ≤ max_u64 → trim (show_u64 n) ≡ show_u64 n
unfolding trim
trim-show_u64 n h =
    let plain =
      All-weaken IsDigit (λ c. is_whitespace c ≡ false) (show_u64 n) Digit-is_whitespace
        (show_u64-digits n h) in
    rw (trim_start_matches-Lacks is_whitespace (show_u64 n) plain)
      (trim_end_matches-append is_whitespace [] (show_u64 n) (show_u64-is_nil n) plain)
  where
    Digit-is_whitespace : (c : ℕ) → IsDigit c → is_whitespace c ≡ false
    Digit-is_whitespace c d = unfold is_whitespace in ground arith

parse_retry_after-show_u64 :
    (parse_http_date : Text → Option ℕ) (now n : ℕ)
    → n ≤ max_u64
    → parse_retry_after parse_http_date now (show_u64 n) ≡ some (from_secs n)
unfolding parse_retry_after
parse_retry_after-show_u64 parse_http_date now n h = rw (
  trim-show_u64 n h,
  show_u64-is_nil n,
  all_digits (show_u64 n) (show_u64-digits n h),
  scan_u64-show_u64 n h,
)

-- A server that asks for a number of seconds is obeyed exactly, up to the policy's ceiling on a
-- server's delay, while the failure is retryable and the budget is not spent.
pub decide-show_u64 :
    (parse_http_date : Text → Option ℕ) (now jitter : ℕ) (p : RetryPolicy) (kind : TransientKind)
    (attempt n : ℕ)
    → is_retryable kind ≡ true
    → attempt < p.max_retries
    → n ≤ max_u64
    → decide parse_http_date now jitter p kind attempt (some (show_u64 n))
      ≡ retry_after (min (from_secs n) p.max_server_delay)
unfolding decide
decide-show_u64 parse_http_date now jitter p kind attempt n k b h =
    let left : leb p.max_retries attempt ≡ false = ground arith in
    rw (k, left, parse_retry_after-show_u64 parse_http_date now n h)
