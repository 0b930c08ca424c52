-- ===== src/Allocator/Preferred.antt =====
-- `preferred_range` and `preferred_active`: what they choose, and when they find nothing.
use mathlib.Core.Path.{subst}
use mathlib.Core.Option.{some_inj, none-ne-some}
use downpour.Prelude.{Bool, true, none, some, List, ◌≡◌, sym, ap, ◌≢◌, inl, inr, Option-cases}
use downpour.Intervals.{Interval, IntervalState, in_progress, WorkerId, Range}
use downpour.Prelude.{In, not-In-nil}
use downpour.Allocator.{
  max_by, filter_state, filter_active, preferred_range, preferred_active, range_of,
}
use downpour.Allocator.MaxBy.{
  NotBetter, max_by_sound, max_by-none, filter_state-In, filter_active-In,
}

-- The best interval that passes the test.
pub record IsBest (test : IntervalState → Bool) (l : List Interval) (i : Interval) : Type 0 where
  pub member : In i l
  pub passes : test i.state ≡ true
  pub best : (j : Interval) → In j l → test j.state ≡ true → NotBetter j i

pub preferred_range-some :
    (l : List Interval) (test : IntervalState → Bool) (r : Range)
    → preferred_range l test ≡ some r
    → (i : Interval) × IsBest test l i × (range_of i ≡ r)
unfolding preferred_range
preferred_range-some l test r h = elim (Option-cases (max_by (λ i. i) (filter_state test l))) [
  | inl nothing ↦ absurd (none-ne-some r (rw nothing at h))
  | inr (i, e) ↦
      let (member, best) = max_by_sound (λ i. i) (filter_state test l) i e in
      let found = (filter_state-In test l i).0 member in
      (
        i,
        record {
          member = found.0;
          passes = found.1;
          best = λ j m p. best j ((filter_state-In test l j).1 (m, p));
        },
        some_inj.0 (rw e at h),
      )
]

pub preferred_range-none :
    (l : List Interval) (test : IntervalState → Bool)
    → preferred_range l test ≡ none
    → (j : Interval) → In j l
    → test j.state ≢ true
unfolding preferred_range
preferred_range-none l test h j m p = elim (Option-cases (max_by (λ i. i) (filter_state test l))) [
  | inl nothing ↦ not-In-nil (
      subst (In j) (max_by-none (λ i. i) (filter_state test l) nothing)
        ((filter_state-In test l j).1 (m, p)))
  | inr (i, e) ↦ absurd (none-ne-some (range_of i) (sym (rw e at h)))
]

-- The best interval that a worker owns, with its worker.
pub record IsBestActive (l : List Interval) (i : Interval) (w : WorkerId) : Type 0 where
  pub member : In i l
  pub owner : i.state ≡ in_progress w
  pub best : (j : Interval) (v : WorkerId) → In j l → j.state ≡ in_progress v → NotBetter j i

pub preferred_active-some :
    (l : List Interval) (p : Range × WorkerId)
    → preferred_active l ≡ some p
    → (i : Interval) × IsBestActive l i p.1 × (range_of i ≡ p.0)
unfolding preferred_active
preferred_active-some l p h = elim (Option-cases (max_by (λ q. q.0) (filter_active l))) [
  | inl nothing ↦ absurd (none-ne-some p (rw nothing at h))
  | inr (q, e) ↦
      let (member, best) = max_by_sound (λ q. q.0) (filter_active l) q e in
      let same : (range_of q.0, q.1) ≡ p = some_inj.0 (rw e at h) in
      let found = (filter_active-In l q.0 q.1).0 member in
      (
        q.0,
        subst (IsBestActive l q.0) (ap (λ (t : Range × WorkerId). t.1) same) (record {
          member = found.0;
          owner = found.1;
          best = λ j v m o. best (j, v) ((filter_active-In l j v).1 (m, o));
        }),
        ap (λ (t : Range × WorkerId). t.0) same,
      )
]

pub preferred_active-none :
    (l : List Interval)
    → preferred_active l ≡ none
    → (j : Interval) (v : WorkerId) → In j l
    → j.state ≢ in_progress v
unfolding preferred_active
preferred_active-none l h j v m p = elim (Option-cases (max_by (λ q. q.0) (filter_active l))) [
  | inl nothing ↦ not-In-nil (
      subst (In (j, v)) (max_by-none (λ q. q.0) (filter_active l) nothing)
        ((filter_active-In l j v).1 (m, p)))
  | inr (q, e) ↦ absurd (none-ne-some (range_of q.0, q.1) (sym (rw e at h)))
]
