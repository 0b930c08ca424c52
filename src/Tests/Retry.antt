-- ===== src/Tests/Retry.antt =====
-- The default policy, with no dates to read.
use downpour.Prelude.{
  ℕ, ◌+◌, ◌/◌, ◌≤◌, ◌<◌, ◌≡◌, ◌⊎◌, ◌↔◌, refl, arith, Option, none, List, [], ◌∷◌,
}
use downpour.Text.{Text, lit}
use downpour.Retry.{
  rate_limited, not_retryable, give_up, default_policy, from_millis, exponential, backoff, decide,
  attempts, fresh,
}
use downpour.Retry.Decide.{window, decide_iff, backoff-bounds}
use downpour.Retry.Origins.{Event, failed, succeeded, note_all, tally, note_all-attempts}

abbrev no_dates : Text → Option ℕ
no_dates s = none

abbrev unavailable : ℕ
unavailable = 503

decide_iff_example :
    (decide no_dates 0 7 default_policy rate_limited 5 none ≡ give_up)
    ↔ ((rate_limited ≡ not_retryable) ⊎ (5 ≤ 5))
decide_iff_example = decide_iff no_dates 0 7 default_policy rate_limited 5 none

-- The first delay may be half of the base delay.
first_backoff : backoff 0 default_policy 0 ≡ from_millis 250
unfolding backoff exponential
first_backoff = refl

backoff-bounds_example :
    (d : ℕ) × (backoff 123 default_policy 3 ≡ from_millis d)
    × (window default_policy 3 / 1000000 / 2 ≤ d)
    × (0 < d)
    × ((d < window default_policy 3 / 1000000) ⊎ (d ≡ 1))
    × (123 < window default_policy 3 / 1000000 / 2
        → d ≡ window default_policy 3 / 1000000 / 2 + 123)
backoff-bounds_example = backoff-bounds 123 default_policy 3 (omega arith)

abbrev events : List Event
events =
    failed (lit "a")
    ∷ failed (lit "b")
    ∷ succeeded (lit "a")
    ∷ failed (lit "b")
    ∷ failed (lit "a")
    ∷ []

note_all-attempts_example : attempts (note_all fresh events) (lit "b") ≡ tally (lit "b") 0 events
note_all-attempts_example = note_all-attempts fresh events (lit "b") (omega arith)
