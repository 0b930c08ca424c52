-- ===== src/Tests/Reprobe.antt =====
-- A resume after ten minutes, and one that met a 200. A URL is a number.
use downpour.Prelude.{ℕ, ◌≡◌, refl, arith, ==_iff, ◌==◌, true, false, none, some, [], ◌∷◌}
use downpour.Remote.{RemoteObject, proven, no_validator, http11}
use downpour.Retry.{max_duration}
use downpour.Reprobe.{
  ResumePlan, is_required, contradiction, capability_freshness, Asked, is_required_iff,
}
use downpour.Tests.Remote.{probed}

abbrev remote : RemoteObject ℕ ℕ
remote = record {
  final_url = 7;
  redirect_chain = 5 ∷ 7 ∷ [];
  total_length = some 1048576;
  range_support = proven probed;
  validator = no_validator;
  digest = none;
  protocol = http11;
  suggested_filename = none;
  content_type = none;
  probed_at = 0;
}

abbrev plan : ResumePlan ℕ ℕ
plan = record {
  recorded = remote;
  now = 600000000000;
  planned_url = 7;
  refreshed_url = none;
  last_observed_status = some 503;
}

abbrev answered_whole : ResumePlan ℕ ℕ
answered_whole = record plan { last_observed_status = some 200 }

transient_keeps_evidence : is_required ◌==◌ capability_freshness plan ≡ some false
unfolding is_required contradiction
transient_keeps_evidence = refl

whole_file_contradicts : is_required ◌==◌ capability_freshness answered_whole ≡ some true
unfolding is_required contradiction
whole_file_contradicts = refl

-- `Duration::MAX`, on a probe that lies in the past.
largest_window_panics : is_required ◌==◌ max_duration plan ≡ none
unfolding is_required
largest_window_panics = refl

is_required_iff_example :
    Asked ◌==◌ ==_iff capability_freshness plan (is_required ◌==◌ capability_freshness plan)
is_required_iff_example = is_required_iff ◌==◌ ==_iff capability_freshness plan (omega arith)
