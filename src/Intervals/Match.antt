-- ===== src/Intervals/Match.antt =====
-- `range_matches` as a statement about bytes, and `validate_range`.

use downpour.Prelude.{
  ℕ, ◌≤◌, ◌<◌, Bool, true, ◌||◌, some, List, [], ◌∷◌, ◌≡◌, refl, ◌∙◌, ◌↔◌, ◌⊎◌, ap, arith, max, ltb,
  leb, within, Bool-cases, inl, inr, ok, err,
}
use downpour.Intervals.{
  Interval, IntervalState, IntervalMap, Range, matches_all, range_matches, validate_range,
  is_pending, pending, in_progress, state_eq, invalid_range,
}
use downpour.Intervals.Partition.{
  Covers, IsCanonical, byte_state, state_eq_iff, byte_state_inside, byte_state_outside_low,
}

-- Every byte of the range that the intervals hold has a state that passes the test.
abbrev pub Holds : Range → (IntervalState → Bool) → List Interval → Type 0
Holds r predicate l =
    (x : ℕ) (s : IntervalState)
    → r.start ≤ x
    → x < r.end
    → byte_state l x ≡ some s
    → predicate s ≡ true

module _ (r : Range) (predicate : IntervalState → Bool) (range_full : r.start < r.end) where
  matches_all-Holds : (l : List Interval) → matches_all r predicate l ≡ true → Holds r predicate l
  unfolding matches_all
  matches_all-Holds [] h x s lo hi e = cc
  matches_all-Holds (i ∷ l) h x s lo hi e = elim (Bool-cases (within i.start i.end x)) [
    | inl held ↦ ground arith
    | inr other ↦ matches_all-Holds l (ground arith) x s lo hi (rw other at e)
  ]

  Holds-matches_all :
      (a : ℕ) (l : List Interval) (b : ℕ)
      → Covers a l b
      → Holds r predicate l
      → matches_all r predicate l ≡ true
  unfolding matches_all
  Holds-matches_all a [] b c h = refl
  Holds-matches_all a (i ∷ l) b c h =
      let later : Holds r predicate l =
        λ x s lo hi e. h x s lo hi (ground (arith, byte_state_outside_low i.end l b x c.2)) in
      ground (arith, Holds-matches_all i.end l b c.2 later, h (max i.start r.start) i.state)

-- The test of `grant` and `complete` looks at the bytes of the range, and at nothing else.
pub range_matches_iff :
    (m : IntervalMap) (r : Range) (predicate : IntervalState → Bool)
    → IsCanonical m
    → r.start < r.end
    → (range_matches m r predicate ≡ true) ↔ Holds r predicate m.intervals
unfolding range_matches
range_matches_iff m r predicate c full = (
  matches_all-Holds r predicate full m.intervals,
  Holds-matches_all r predicate full 0 m.intervals m.total_length c.covers,
)

-- All bytes of the range have the state `s`.
abbrev pub AllIn : Range → IntervalState → List Interval → Type 0
AllIn r s l = (x : ℕ) → r.start ≤ x → x < r.end → byte_state l x ≡ some s

pub AllIn-Holds :
    (m : IntervalMap) (r : Range) (predicate : IntervalState → Bool) (s : IntervalState)
    → IsCanonical m
    → r.end ≤ m.total_length
    → ((t : IntervalState) → (predicate t ≡ true) ↔ (t ≡ s))
    → Holds r predicate m.intervals ↔ AllIn r s m.intervals
AllIn-Holds m r predicate s c fits decides = (
  λ h x lo hi.
      let (t, e) =
        byte_state_inside 0 m.intervals m.total_length x c.covers (omega arith) (omega arith) in
      e ∙ ap some ((decides t).0 (h x t lo hi e)),
  λ h x t lo hi e. (decides t).1 (cc (h x lo hi)),
)

pub is_pending_iff : (t : IntervalState) → (is_pending t ≡ true) ↔ (t ≡ pending)
is_pending_iff pending = ground arith
is_pending_iff _ = ground arith

pub owned_iff :
    (w : ℕ) (t : IntervalState) → (state_eq t (in_progress w) ≡ true) ↔ (t ≡ in_progress w)
owned_iff w t = state_eq_iff t (in_progress w)

abbrev pub FitsIn : Range → ℕ → Type 0
FitsIn r total = (r.start < r.end) × (r.end ≤ total)

pub validate_range_cases :
    (m : IntervalMap) (r : Range)
    → (FitsIn r m.total_length × (validate_range m r ≡ ok tt))
      ⊎ ((¬ FitsIn r m.total_length)
          × (validate_range m r ≡ err (invalid_range r.start r.end m.total_length)))
unfolding validate_range
validate_range_cases m r = elim (Bool-cases (leb r.end r.start || ltb m.total_length r.end)) [
  | inl bad ↦ inr (ground arith, rw bad)
  | inr good ↦ inl (ground arith, rw good)
]
