-- ===== src/Intervals/Partition.antt =====
-- The canonical partition of `[0, total_length)` as a predicate, and the byte map that it stands
-- for (crates/downpour-intervals/src/lib.rs).
use downpour.Prelude.{
  ℕ, zero, suc, ◌≤◌, ◌<◌, true, Option, none, some, List, [], ◌∷◌, ◌++◌, ◌≡◌, ◌≢◌, ◌↔◌, refl, inl,
  inr, arith, if◌then◌else◌, within, Bool-cases,
}
use downpour.Intervals.{
  Interval, IntervalState, IntervalMap, pending, in_progress, complete, state_eq, scan_invariants,
  invariants_hold, new,
}

-- The intervals run without a gap from `a` to `b`, and none is empty.
abbrev pub Covers : ℕ → List Interval → ℕ → Type 0
Covers a [] b = a ≡ b
Covers a (i ∷ l) b = (i.start ≡ a) × (i.start < i.end) × Covers i.end l b

-- `state` is not that of the first interval.
abbrev pub Differs : IntervalState → List Interval → Type 0
Differs s [] = Unit
Differs s (i ∷ l) = s ≢ i.state

abbrev pub IsMerged : List Interval → Type 0
IsMerged [] = Unit
IsMerged (i ∷ l) = Differs i.state l × IsMerged l

pub record IsCanonical (m : IntervalMap) : Type 0 where
  pub covers : Covers 0 m.intervals m.total_length
  pub merged : IsMerged m.intervals

-- The state of byte `x`: that of the interval that holds it.
abbrev pub byte_state : List Interval → ℕ → Option IntervalState
byte_state [] x = none
byte_state (i ∷ l) x = if within i.start i.end x then some i.state else byte_state l x

pub state_eq_iff : (s t : IntervalState) → (state_eq s t ≡ true) ↔ (s ≡ t)
unfolding state_eq
state_eq_iff (in_progress v) (in_progress w) = ground arith
state_eq_iff pending pending = ground arith
state_eq_iff complete complete = ground arith
state_eq_iff _ _ = ground arith

pub Covers-le : (a : ℕ) (l : List Interval) (b : ℕ) → Covers a l b → a ≤ b
Covers-le a [] b h = omega arith
Covers-le a (i ∷ l) b h = omega (arith, Covers-le i.end l b h.2)

-- No interval of a partition of `[a, b)` holds a byte outside.
pub byte_state_outside_low :
    (a : ℕ) (l : List Interval) (b x : ℕ) → Covers a l b → x < a → byte_state l x ≡ none
byte_state_outside_low a [] b x h lt = refl
byte_state_outside_low a (i ∷ l) b x h lt = ground (arith, byte_state_outside_low i.end l b x h.2)

pub byte_state_outside_high :
    (a : ℕ) (l : List Interval) (b x : ℕ) → Covers a l b → b ≤ x → byte_state l x ≡ none
byte_state_outside_high a [] b x h le = refl
byte_state_outside_high a (i ∷ l) b x h le =
    ground (arith, byte_state_outside_high i.end l b x h.2, Covers-le i.end l b h.2)

-- Every byte of the partition has a state.
pub byte_state_inside :
    (a : ℕ) (l : List Interval) (b x : ℕ)
    → Covers a l b
    → a ≤ x
    → x < b
    → (s : IntervalState) × (byte_state l x ≡ some s)
byte_state_inside a [] b x h le lt = absurd (omega arith)
byte_state_inside a (i ∷ l) b x h le lt = elim (Bool-cases (within i.start i.end x)) [
  | inl held ↦ (i.state, rw held)
  | inr after ↦ rw after (byte_state_inside i.end l b x h.2 (ground arith) lt)
]

pub Covers-append :
    (a : ℕ) (l : List Interval) (b : ℕ) (r : List Interval) (c : ℕ)
    → Covers a l b
    → Covers b r c
    → Covers a (l ++ r) c
Covers-append a [] b r c h k = ground (arith)
Covers-append a (i ∷ l) b r c h k = (h.0, h.1, Covers-append i.end l b r c h.2 k)

-- A partition of `[a, c)` breaks at the end of any of its initial pieces.
pub Covers-append_inv :
    (a : ℕ) (l r : List Interval) (c : ℕ)
    → Covers a (l ++ r) c
    → (b : ℕ) × Covers a l b × Covers b r c
Covers-append_inv a [] r c h = (a, refl, h)
Covers-append_inv a (i ∷ l) r c h =
    let (b, left, right) = Covers-append_inv i.end l r c h.2 in (b, (h.0, h.1, left), right)

abbrev pub or_else {ℓ} : {A : Type ℓ} → Option A → Option A → Option A
or_else none o = o
or_else (some a) o = some a

pub byte_state-append :
    (l r : List Interval) (x : ℕ)
    → byte_state (l ++ r) x ≡ or_else (byte_state l x) (byte_state r x)
byte_state-append [] r x = refl
byte_state-append (i ∷ l) r x = ground (arith, byte_state-append l r x)

-- The fresh map is canonical, whatever the length.
pub new-IsCanonical : (n : ℕ) → IsCanonical (new n)
unfolding new
new-IsCanonical n = ground arith

-- The loop of `invariants_hold` decides the predicate.
abbrev Follows : Option IntervalState → List Interval → Type 0
Follows none l = Unit
Follows (some s) l = Differs s l

scan_invariants_iff :
    (total cursor : ℕ) (previous : Option IntervalState) (l : List Interval)
    → (scan_invariants total cursor previous l ≡ true)
      ↔ (Covers cursor l total × Follows previous l × IsMerged l)
unfolding scan_invariants
scan_invariants_iff total cursor none [] = ground arith
scan_invariants_iff total cursor (some s) [] = ground arith
scan_invariants_iff total cursor none (i ∷ l) =
    ground (arith, scan_invariants_iff total i.end (some i.state) l)
scan_invariants_iff total cursor (some s) (i ∷ l) =
    ground (arith, state_eq_iff s i.state, scan_invariants_iff total i.end (some i.state) l)

-- No interval fits a partition of the empty byte space.
not-Covers-zero : (i : Interval) (l : List Interval) → ¬ Covers 0 (i ∷ l) 0
not-Covers-zero i l h = absurd (omega (arith, Covers-le i.end l 0 h.2))

scan_at_suc :
    (total : ℕ) (l : List Interval)
    → invariants_hold (record { total_length = suc total; intervals = l })
      ≡ scan_invariants (suc total) 0 none l
unfolding invariants_hold
scan_at_suc total l = ground arith

invariants_hold_parts :
    (total : ℕ) (l : List Interval)
    → (invariants_hold (record { total_length = total; intervals = l }) ≡ true)
      ↔ IsCanonical (record { total_length = total; intervals = l })
unfolding invariants_hold
invariants_hold_parts total [] = ground (arith, scan_invariants_iff total 0 none [])
invariants_hold_parts zero (i ∷ l) = (λ h. cc, λ c. absurd (not-Covers-zero i l c.covers))
invariants_hold_parts (suc total) (i ∷ l) = rw (scan_at_suc total (i ∷ l)) (
    let (sound, back) = scan_invariants_iff (suc total) 0 none (i ∷ l) in
    (
      λ h. let t = sound h in record { covers = t.0; merged = t.2 },
      λ c. back (c.covers, tt, c.merged),
    ))

-- `invariants_hold` answers true on exactly the canonical maps: the intervals run from 0 to
-- `total_length` with no gap and no empty one, and neighbours differ in state.
pub invariants_hold_iff : (m : IntervalMap) → (invariants_hold m ≡ true) ↔ IsCanonical m
invariants_hold_iff m = invariants_hold_parts m.total_length m.intervals
