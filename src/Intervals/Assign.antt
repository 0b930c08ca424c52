-- ===== src/Intervals/Assign.antt =====
-- `grant` and `complete`, on every branch.
use downpour.Prelude.{
  ℕ, Bool, true, false, some, ◌≡◌, refl, ◌↔◌, ◌⊎◌, if◌then◌else◌, within, Bool-cases, inl, inr, ok,
  err,
}
use downpour.Intervals.{
  IntervalState, IntervalMap, Range, WorkerId, grant, complete_range, replace_range, range_matches,
  is_pending, pending, in_progress, complete, state_eq, invalid_range, range_not_pending,
  range_not_owned,
}
use downpour.Intervals.Partition.{IsCanonical, byte_state}
use downpour.Intervals.Replace.{replace_range-IsCanonical, byte_state-replace_range}
use downpour.Intervals.Match.{
  FitsIn, AllIn, AllIn-Holds, is_pending_iff, owned_iff, range_matches_iff, validate_range_cases,
}

-- `after` is canonical, of the same length, and differs from `before` in the bytes of the range,
-- which have the state `s`.
pub record Assigned (before : IntervalMap) (r : Range) (s : IntervalState) (after : IntervalMap)
    : Type 0 where
  pub same_length : after.total_length ≡ before.total_length
  pub canonical : IsCanonical after
  pub bytes :
      (x : ℕ)
      → byte_state after.intervals x
        ≡ (if within r.start r.end x then some s else byte_state before.intervals x)

replace_range-Assigned :
    (m : IntervalMap) (r : Range) (s : IntervalState)
    → IsCanonical m
    → FitsIn r m.total_length
    → Assigned m r s (replace_range m r s)
replace_range-Assigned m r s c fits = record {
  same_length = unfold replace_range in refl;
  canonical = replace_range-IsCanonical m r s c fits.0;
  bytes = λ x. byte_state-replace_range m r s x c fits.0 fits.1;
}

-- The test over the intervals, as a statement about the bytes of a range that fits.
matches_iff :
    (m : IntervalMap) (r : Range) (predicate : IntervalState → Bool) (s : IntervalState)
    → IsCanonical m
    → FitsIn r m.total_length
    → ((t : IntervalState) → (predicate t ≡ true) ↔ (t ≡ s))
    → (range_matches m r predicate ≡ true) ↔ AllIn r s m.intervals
matches_iff m r predicate s c fits decides =
    let tested = range_matches_iff m r predicate c fits.0 in
    let named = AllIn-Holds m r predicate s c fits.1 decides in
    (λ h. named.0 (tested.0 h), λ h. tested.1 (named.1 h))

not_all :
    (m : IntervalMap) (r : Range) (predicate : IntervalState → Bool) (s : IntervalState)
    → (range_matches m r predicate ≡ true) ↔ AllIn r s m.intervals
    → range_matches m r predicate ≡ false
    → ¬ AllIn r s m.intervals
not_all m r predicate s tested no_match all = cc (tested.1 all)

module _ (m : IntervalMap) (r : Range) (worker : WorkerId) (c : IsCanonical m) where
  -- `grant` on every branch: a range that is not a non-empty part of the file is refused as
  -- invalid, a range with a byte that is not pending is refused as not pending, and both leave the
  -- map as it was; any other range is granted, and exactly its bytes become the worker's.
  pub grant_lem :
      (¬ FitsIn r m.total_length
        × (grant m r worker ≡ (err (invalid_range r.start r.end m.total_length), m)))
      ⊎ (FitsIn r m.total_length
          × (¬ AllIn r pending m.intervals)
          × (grant m r worker ≡ (err (range_not_pending r.start r.end), m)))
      ⊎ (FitsIn r m.total_length
          × AllIn r pending m.intervals
          × ((grant m r worker).0 ≡ ok tt)
          × Assigned m r (in_progress worker) (grant m r worker).1)
  unfolding grant
  grant_lem = elim (validate_range_cases m r) [
    | inr (bad, e) ↦ inl (bad, rw e)
    | inl (fits, e) ↦
        let tested = matches_iff m r is_pending pending c fits is_pending_iff in
        elim (Bool-cases (range_matches m r is_pending)) [
          | inl match ↦ inr (
              inr (
                fits,
                tested.0 match,
                rw (e, match),
                rw (e, match) (replace_range-Assigned m r (in_progress worker) c fits),
              ))
          | inr other ↦ inr (inl (fits, not_all m r is_pending pending tested other, rw (e, other)))
        ]
  ]

  -- `complete` on every branch: a range that is not a non-empty part of the file is refused as
  -- invalid, a range with a byte that the worker does not own is refused as not owned, and both
  -- leave the map as it was; for any other range exactly its bytes become complete.
  pub complete_range_lem :
      (¬ FitsIn r m.total_length
        × (complete_range m r worker ≡ (err (invalid_range r.start r.end m.total_length), m)))
      ⊎ (FitsIn r m.total_length
          × (¬ AllIn r (in_progress worker) m.intervals)
          × (complete_range m r worker ≡ (err (range_not_owned r.start r.end worker), m)))
      ⊎ (FitsIn r m.total_length
          × AllIn r (in_progress worker) m.intervals
          × ((complete_range m r worker).0 ≡ ok tt)
          × Assigned m r complete (complete_range m r worker).1)
  unfolding complete_range
  complete_range_lem = elim (validate_range_cases m r) [
    | inr (bad, e) ↦ inl (bad, rw e)
    | inl (fits, e) ↦
        let owned = λ (s : IntervalState). state_eq s (in_progress worker) in
        let tested = matches_iff m r owned (in_progress worker) c fits (owned_iff worker) in
        elim (Bool-cases (range_matches m r owned)) [
          | inl match ↦ inr (
              inr (
                fits,
                tested.0 match,
                rw (e, match),
                rw (e, match) (replace_range-Assigned m r complete c fits),
              ))
          | inr other ↦
              inr (inl (fits, not_all m r owned (in_progress worker) tested other, rw (e, other)))
        ]
  ]
