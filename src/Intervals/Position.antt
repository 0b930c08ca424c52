-- ===== src/Intervals/Position.antt =====
-- `position`, and intervals in a merged partition seen from their bytes.
use mathlib.Core.Path.{subst}
use mathlib.Core.Option.{some_inj}
use downpour.Prelude.{
  ℕ, suc, Bool, true, false, none, some, List, [], ◌∷◌, ◌++◌, ◌≡◌, refl, ap, arith, within, ◌≢◌,
  Bool-cases, Option-cases, ◌≢◌, inl, inr, length,
}
use downpour.Intervals.{Interval, position, splits_at, in_progress}
use downpour.Intervals.Partition.{
  IsMerged, Differs, Covers, byte_state, state_eq_iff, byte_state_outside_low,
}

-- What `position` found: the interval that passes the test, and where it stands.
pub record Found (test : Interval → Bool) (l : List Interval) (k : ℕ) (i : Interval) : Type 0 where
  pub pre : List Interval
  pub post : List Interval
  pub splits : l ≡ pre ++ i ∷ post
  pub index : k ≡ length pre
  pub passes : test i ≡ true

Found-cons :
    (test : Interval → Bool) (j : Interval) (l : List Interval) (k : ℕ) (i : Interval)
    → Found test l k i
    → Found test (j ∷ l) (suc k) i
Found-cons test j l k i f = record {
  pre = j ∷ f.pre;
  post = f.post;
  splits = ap (◌∷◌ j) f.splits;
  index = ap suc f.index;
  passes = f.passes;
}

pub position-Found :
    (test : Interval → Bool) (l : List Interval) (found : ℕ × Interval)
    → position test l ≡ some found
    → Found test l found.0 found.1
unfolding position
position-Found test [] found h = cc
position-Found test (j ∷ l) found h = elim (Bool-cases (test j)) [
  | inl passed ↦
      subst (λ (f : ℕ × Interval). Found test (j ∷ l) f.0 f.1) (some_inj.0 (rw passed at h))
        (record { pre = []; post = l; splits = refl; index = refl; passes = passed })
  | inr failed ↦ elim (Option-cases (position test l)) [
    | inl nowhere ↦ absurd (ground arith)
    | inr (first, e) ↦
        subst (λ (f : ℕ × Interval). Found test (j ∷ l) f.0 f.1) (some_inj.0 (rw (failed, e) at h))
          (Found-cons test j l first.0 first.1 (position-Found test l first e))
  ]
]

position-none_inv :
    (test : Interval → Bool) (i : Interval) (l : List Interval)
    → position test (i ∷ l) ≡ none
    → (test i ≡ false) × (position test l ≡ none)
unfolding position
position-none_inv test i l h = elim (Bool-cases (test i)) [
  | inl passed ↦ absurd (ground arith)
  | inr failed ↦ (failed, ground arith)
]

-- What the test misses about one interval.
not_inside :
    (source at : ℕ) (i : Interval)
    → splits_at (suc at) source i ≡ false
    → i.state ≡ in_progress source
    → within i.start i.end at ≡ true
    → suc at ≡ i.end
unfolding splits_at
not_inside source at i out s held = ground (arith, state_eq_iff i.state (in_progress source))

-- In a merged partition, an owner of two neighbouring bytes has an interval with both inside.
pub position-ne-none :
    (source at a : ℕ) (l : List Interval) (b : ℕ)
    → Covers a l b
    → IsMerged l
    → byte_state l at ≡ some (in_progress source)
    → byte_state l (suc at) ≡ some (in_progress source)
    → position (splits_at (suc at) source) l ≢ none
position-ne-none source at a [] b c d e f p = cc
position-ne-none source at a (i ∷ []) b c d e f p =
    let (missed, rest) = position-none_inv (splits_at (suc at) source) i [] p in
    ground (arith, not_inside source at i missed)
position-ne-none source at a (i ∷ j ∷ l) b c d e f p =
    let (missed, rest) = position-none_inv (splits_at (suc at) source) i (j ∷ l) p in
    elim (Bool-cases (within i.start i.end at)) [
      | inr before ↦
          position-ne-none source at i.end (j ∷ l) b c.2 d.1 (rw before at e)
            (ground (arith, byte_state_outside_low i.end (j ∷ l) b at c.2)) rest
      | inl held ↦
          let owner : i.state ≡ in_progress source = some_inj.0 (rw held at e) in
          let edge = not_inside source at i missed owner held in ground arith
    ]

pub IsMerged-Differs :
    (pre : List Interval) (i : Interval) (post : List Interval)
    → IsMerged (pre ++ i ∷ post)
    → Differs i.state post
IsMerged-Differs [] i post h = h.0
IsMerged-Differs (p ∷ pre) i post h = IsMerged-Differs pre i post h.1

-- The byte behind an interval of a merged partition has another state.
pub byte_state-end :
    (i : Interval) (post : List Interval) (b : ℕ)
    → Covers i.end post b
    → Differs i.state post
    → byte_state post i.end ≢ some i.state
byte_state-end i [] b c d e = cc
byte_state-end i (j ∷ post) b c d e = ground arith
