-- ===== src/Tests/Intervals.antt =====
-- The interval map on a file of ten bytes: three are worker 1's, two are complete, five are pending.
use downpour.Prelude.{ℕ, List, [], ◌∷◌, ◌≡◌, ◌≢◌, ◌⊎◌, refl, true, ok, err}
use downpour.Intervals.{
  splits_at, replace_range, range_matches, position, release, validate_range, normalise,
  IntervalMap, Range, pending, in_progress, complete, new, grant, complete_range, split_in_progress,
  abandon, invariants_hold, state_eq, invalid_range, range_not_pending, range_not_owned,
  split_point_unavailable, split_worker_unchanged,
}
use downpour.Intervals.Partition.{IsCanonical, byte_state, invariants_hold_iff}
use downpour.Intervals.Match.{FitsIn, AllIn}
use downpour.Intervals.Assign.{Assigned, grant_lem, complete_range_lem}
use downpour.Intervals.Split.{OwnsSides, SplitOff, split_in_progress_lem}
use downpour.Intervals.Abandon.{Abandoned, owned_by, count_below, abandon_lem}
use downpour.Intervals.Reach.{
  Call, grant_call, split_call, complete_call, abandon_call, perform, perform_all,
  reachable_invariants,
}
use downpour.Intervals.Lifecycle.{ByteStep, perform-ByteStep}

abbrev pub span : ℕ → ℕ → Range
span a b = record { start = a; end = b }

abbrev pub ten : IntervalMap
ten = record {
  total_length = 10;
  intervals =
      record { start = 0; end = 3; state = in_progress 1 }
      ∷ record { start = 3; end = 5; state = complete }
      ∷ record { start = 5; end = 10; state = pending }
      ∷ [];
}

ten-holds : invariants_hold ten ≡ true
unfolding invariants_hold state_eq
ten-holds = refl

pub ten-IsCanonical : IsCanonical ten
ten-IsCanonical = (invariants_hold_iff ten).0 ten-holds

abbrev calls : List Call
calls =
    grant_call (span 0 6) 1
    ∷ grant_call (span 4 8) 2
    ∷ split_call 3 1 2
    ∷ complete_call (span 0 2) 1
    ∷ abandon_call 2
    ∷ []

run : perform_all (new 10) calls ≡ record {
  total_length = 10;
  intervals =
      record { start = 0; end = 2; state = complete }
      ∷ record { start = 2; end = 3; state = in_progress 1 }
      ∷ record { start = 3; end = 10; state = pending }
      ∷ [];
}
unfolding new grant split_in_progress complete_range abandon state_eq normalise validate_range
    release position range_matches replace_range splits_at
run = refl

invariants_hold_iff_example :
    (invariants_hold ten ≡ true → IsCanonical ten) × (IsCanonical ten → invariants_hold ten ≡ true)
invariants_hold_iff_example = invariants_hold_iff ten

grant_lem_example :
    (¬ FitsIn (span 6 8) 10 × (grant ten (span 6 8) 2 ≡ (err (invalid_range 6 8 10), ten)))
    ⊎ (FitsIn (span 6 8) 10
        × (¬ AllIn (span 6 8) pending ten.intervals)
        × (grant ten (span 6 8) 2 ≡ (err (range_not_pending 6 8), ten)))
    ⊎ (FitsIn (span 6 8) 10
        × AllIn (span 6 8) pending ten.intervals
        × ((grant ten (span 6 8) 2).0 ≡ ok tt)
        × Assigned ten (span 6 8) (in_progress 2) (grant ten (span 6 8) 2).1)
grant_lem_example = grant_lem ten (span 6 8) 2 ten-IsCanonical

complete_range_lem_example :
    (¬ FitsIn (span 0 2) 10 × (complete_range ten (span 0 2) 1 ≡ (err (invalid_range 0 2 10), ten)))
    ⊎ (FitsIn (span 0 2) 10
        × (¬ AllIn (span 0 2) (in_progress 1) ten.intervals)
        × (complete_range ten (span 0 2) 1 ≡ (err (range_not_owned 0 2 1), ten)))
    ⊎ (FitsIn (span 0 2) 10
        × AllIn (span 0 2) (in_progress 1) ten.intervals
        × ((complete_range ten (span 0 2) 1).0 ≡ ok tt)
        × Assigned ten (span 0 2) complete (complete_range ten (span 0 2) 1).1)
complete_range_lem_example = complete_range_lem ten (span 0 2) 1 ten-IsCanonical

split_in_progress_lem_example :
    (◌≡◌ {A = ℕ} 1 2 × (split_in_progress ten 2 1 2 ≡ (err (split_worker_unchanged 1), ten)))
    ⊎ (◌≢◌ {A = ℕ} 1 2
        × (¬ OwnsSides ten 2 1)
        × (split_in_progress ten 2 1 2 ≡ (err (split_point_unavailable 2 1), ten)))
    ⊎ (◌≢◌ {A = ℕ} 1 2
        × OwnsSides ten 2 1
        × ((split_in_progress ten 2 1 2).0 ≡ ok tt)
        × SplitOff ten 2 1 2 (split_in_progress ten 2 1 2).1)
split_in_progress_lem_example = split_in_progress_lem ten 2 1 2 ten-IsCanonical

abandon_lem_example :
    Abandoned ten 1 (abandon ten 1).1
    × ((abandon ten 1).0 ≡ count_below (λ x. owned_by 1 (byte_state ten.intervals x)) 10)
abandon_lem_example = abandon_lem ten 1 ten-IsCanonical

reachable_invariants_example :
    (invariants_hold (perform_all (new 10) calls) ≡ true)
    × ((perform_all (new 10) calls).total_length ≡ 10)
reachable_invariants_example = reachable_invariants 10 calls

perform-ByteStep_example :
    ByteStep
      (abandon_call 1)
      (byte_state ten.intervals 2)
      (byte_state (perform ten (abandon_call 1)).intervals 2)
perform-ByteStep_example = perform-ByteStep ten (abandon_call 1) 2 ten-IsCanonical
