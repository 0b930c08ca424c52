-- ===== src/Completion/Coverage.antt =====
-- What `check_coverage` accepts, in terms of bytes.
use downpour.Prelude.{
  ℕ, ◌≤◌, ◌<◌, none, some, List, [], ◌∷◌, ◌≡◌, ◌↔◌, ◌⊎◌, inl, inr, refl, arith, All, max_u64, ok,
  Bool-cases, within, ==_iff,
}
use downpour.Intervals.{Interval, IntervalMap, state_eq, complete, len}
use downpour.Intervals.Match.{AllIn}
use downpour.Intervals.Partition.{Covers, Covers-le, IsCanonical, byte_state, state_eq_iff}
use downpour.Completion.{coverage, saturating_add, check_coverage}

abbrev IsDone : Interval → Type 0
IsDone i = i.state ≡ complete

-- The first gap that was seen stays.
coverage-gap :
    (gap : ℕ) (l : List Interval) (covered : ℕ)
    → (c : ℕ) × (coverage covered (some gap) l ≡ (c, some gap))
unfolding coverage
coverage-gap gap [] covered = (covered, refl)
coverage-gap gap (i ∷ l) covered = elim (Bool-cases (state_eq i.state complete)) [
  | inl e ↦ rw e (coverage-gap gap l (saturating_add covered (len i)))
  | inr e ↦ rw e (coverage-gap gap l covered)
]

-- What the loop answers on the part of a partition that is left: its end, if it is complete, or a gap.
abbrev Outcome : ℕ → List Interval → ℕ → Type 0
Outcome a l b =
    (All IsDone l × (coverage a none l ≡ (b, none)))
    ⊎ ((¬ All IsDone l) × (c : ℕ) × (g : ℕ) × (coverage a none l ≡ (c, some g)))

coverage-Outcome : (a : ℕ) (l : List Interval) (b : ℕ) → Covers a l b → b ≤ max_u64 → Outcome a l b
unfolding coverage
coverage-Outcome a [] b c k = inl (tt, rw c refl)
coverage-Outcome a (i ∷ l) b (start, full, rest) k = elim (Bool-cases (state_eq i.state complete)) [
  | inl e ↦
      let next = coverage-Outcome i.end l b rest k in
      let size : saturating_add a (len i) ≡ i.end = ground (arith, Covers-le i.end l b rest) in
      rw (e, size)
        (elim next [
          | inl h ↦ inl (((state_eq_iff _ _).0 e, h.0), h.1)
          | inr h ↦ inr (λ all. h.0 all.1, h.1, h.2, h.3)
        ])
  | inr e ↦
      let (c, g) = coverage-gap i.start l a in
      rw e (inr (λ all. cc ((state_eq_iff i.state complete).1 all.0), c, i.start, g))
]

All-AllIn :
    (a : ℕ) (l : List Interval) (b x : ℕ)
    → Covers a l b
    → All IsDone l
    → a ≤ x
    → x < b
    → byte_state l x ≡ some complete
All-AllIn a [] b x c h lo hi = absurd (omega arith)
All-AllIn a (i ∷ l) b x c h lo hi = elim (Bool-cases (within i.start i.end x)) [
  | inl held ↦ rw (held, h.0)
  | inr after ↦ rw after (All-AllIn i.end l b x c.2 h.1 (ground arith) hi)
]

AllIn-All :
    (a : ℕ) (l : List Interval) (b : ℕ)
    → Covers a l b
    → ((x : ℕ) → a ≤ x → x < b → byte_state l x ≡ some complete)
    → All IsDone l
AllIn-All a [] b c h = tt
AllIn-All a (i ∷ l) b c h = (
  ground (arith, h i.start, Covers-le i.end l b c.2),
  AllIn-All i.end l b c.2 (λ x lo hi. ground (arith, h x)),
)

-- On a canonical map of a u64 length, `check_coverage` answers ok exactly if the length is the map's
-- and every byte below it is complete.
pub check_coverage_iff :
    (m : IntervalMap) (total : ℕ)
    → IsCanonical m
    → m.total_length ≤ max_u64
    → (check_coverage m total ≡ ok tt)
      ↔ ((total ≡ m.total_length) × AllIn (record { start = 0; end = total }) complete m.intervals)
unfolding check_coverage
check_coverage_iff m total c k = elim (coverage-Outcome 0 m.intervals m.total_length c.covers k) [
  | inl h ↦ rw h.1 (
    λ e.
        let same : total ≡ m.total_length = ground arith in
        (same, λ x lo hi. All-AllIn 0 m.intervals m.total_length x c.covers h.0 lo (omega arith)),
    λ e. rw (e.0, (==_iff m.total_length m.total_length).1 refl),
  )
  | inr h ↦ rw h.3 (
    λ e. cc,
    λ e.
        absurd (
          h.0
            (AllIn-All 0 m.intervals m.total_length c.covers (λ x lo hi. e.1 x lo (omega arith)))),
  )
]
