-- ===== src/Intervals/Members.antt =====
-- A stored interval of a canonical map, seen from its bytes.
use mathlib.Core.Path.{subst}
use downpour.Prelude.{
  ℕ, ◌≤◌, ◌<◌, true, some, List, [], ◌∷◌, In, here, there, In-cons, not-In-nil, ◌≡◌, ◌≢◌, refl, sym,
  arith, within, Bool-cases, inl, inr,
}
use downpour.Intervals.{Interval, IntervalState, IntervalMap}
use downpour.Intervals.Partition.{IsCanonical, IsMerged, Covers, byte_state, Covers-le}
use downpour.Intervals.Position.{byte_state-end}

-- The bytes of `i` have its state in `l`, which reaches from `a` to `b`, and the byte behind has
-- another.
pub record IsRun (a : ℕ) (l : List Interval) (b : ℕ) (i : Interval) : Type 0 where
  pub low : a ≤ i.start
  pub full : i.start < i.end
  pub high : i.end ≤ b
  pub bytes : (x : ℕ) → i.start ≤ x → x < i.end → byte_state l x ≡ some i.state
  pub ends : byte_state l i.end ≢ some i.state

IsRun-head :
    (a : ℕ) (i : Interval) (l : List Interval) (b : ℕ)
    → Covers a (i ∷ l) b
    → IsMerged (i ∷ l)
    → IsRun a (i ∷ l) b i
IsRun-head a i l b c m = record {
  low = omega arith;
  full = c.1;
  high = Covers-le i.end l b c.2;
  bytes = λ x lo hi. ground arith;
  ends = λ e. byte_state-end i l b c.2 m.0 (ground arith);
}

IsRun-tail :
    (a : ℕ) (j : Interval) (l : List Interval) (b : ℕ) (i : Interval)
    → Covers a (j ∷ l) b
    → IsRun j.end l b i
    → IsRun a (j ∷ l) b i
IsRun-tail a j l b i c r = record {
  low = omega (arith, r.low);
  full = r.full;
  high = r.high;
  bytes = λ x lo hi. ground (arith, r.low, r.bytes x lo hi);
  ends = λ e. r.ends (ground (arith, r.low, r.full));
}

In-IsRun :
    (a : ℕ) (l : List Interval) (b : ℕ) (i : Interval)
    → Covers a l b
    → IsMerged l
    → In i l
    → IsRun a l b i
In-IsRun a [] b i c m h = absurd (not-In-nil h)
In-IsRun a (j ∷ l) b i c m h = elim (In-cons h) [
  | inl e ↦ subst (IsRun a (j ∷ l) b) (sym e) (IsRun-head a j l b c m)
  | inr later ↦ IsRun-tail a j l b i c (In-IsRun j.end l b i c.2 m.1 later)
]

pub member-IsRun :
    (m : IntervalMap) (i : Interval)
    → IsCanonical m
    → In i m.intervals
    → IsRun 0 m.intervals m.total_length i
member-IsRun m i c = In-IsRun 0 m.intervals m.total_length i c.covers c.merged

-- Every byte with a state lies in a stored interval of that state.
pub byte_state-In :
    (l : List Interval) (x : ℕ) (s : IntervalState)
    → byte_state l x ≡ some s
    → (i : Interval) × In i l × (i.state ≡ s) × (within i.start i.end x ≡ true)
byte_state-In [] x s h = absurd (ground arith)
byte_state-In (j ∷ l) x s h = elim (Bool-cases (within j.start j.end x)) [
  | inl held ↦ (j, here refl, ground arith, held)
  | inr out ↦
      let (i, member, state, inside) = byte_state-In l x s (rw out at h) in
      (i, there member, state, inside)
]
