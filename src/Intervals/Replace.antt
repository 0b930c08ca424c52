-- ===== src/Intervals/Replace.antt =====
-- `replace_range`: the canonical partition is kept, and exactly the bytes of the range change state.
use mathlib.Core.Path.{subst}
use downpour.Prelude.{
  ℕ, ◌≤◌, ◌<◌, false, ◌&&◌, ◌||◌, some, List, [], ◌∷◌, ◌≡◌, sym, ◌∙◌, arith, min, max, ltb, leb,
  if◌then◌else◌, within, Bool-cases, inl, inr,
}
use downpour.Intervals.{
  Interval, IntervalState, IntervalMap, Range, push_merged, replace_round, replace_loop,
  replace_range,
}
use downpour.Intervals.Partition.{
  Covers, IsCanonical, byte_state, Covers-le, byte_state_outside_high,
}
use downpour.Intervals.Merge.{Built, Built-nil, push_merged-Built, byte_state-push_merged}

-- A piece that is pushed only if it is not empty.
abbrev push_some : List Interval → Interval → List Interval
push_some next i = if ltb i.start i.end then push_merged next i else next

push_some-Built :
    (a : ℕ) (next : List Interval) (i : Interval)
    → Built a next i.start
    → i.start ≤ i.end
    → Built a (push_some next i) i.end
push_some-Built a next i h le = elim (Bool-cases (ltb i.start i.end)) [
  | inl more ↦ rw more (push_merged-Built a next i h (ground arith))
  | inr empty ↦ rw empty (subst (Built a next) (ground arith) h)
]

byte_state-push_some :
    (a : ℕ) (next : List Interval) (i : Interval) (x : ℕ)
    → Built a next i.start
    → byte_state (push_some next i) x
      ≡ (if within i.start i.end x then some i.state else byte_state next x)
byte_state-push_some a next i x h = ground (arith, byte_state-push_merged a next i x h.covers)

module _ (a : ℕ) (r : Range) (replacement : IntervalState) (next : List Interval)
    (i : Interval) where
  -- An interval that the range meets is cut into the part before, the part inside and the part
  -- after.
  abbrev before : Interval
  before = record { start = i.start; end = max i.start r.start; state = i.state }

  abbrev inside : Interval
  inside = record { start = max i.start r.start; end = min i.end r.end; state = replacement }

  abbrev after : Interval
  after = record { start = min i.end r.end; end = i.end; state = i.state }

  replace_round_cut :
      i.start < i.end
      → r.start < r.end
      → replace_round r replacement next i ≡ (
          if leb i.end r.start || leb r.end i.start
          then push_merged next i
          else push_some (push_some (push_some next before) inside) after)
  unfolding replace_round
  replace_round_cut h k = ground arith

  module _ (built : Built a next i.start) (full : i.start < i.end)
      (range_full : r.start < r.end) where
    before-Built : Built a (push_some next before) inside.start
    before-Built = push_some-Built a next before built (omega arith)

    inside-Built :
        (leb i.end r.start || leb r.end i.start) ≡ false
        → Built a (push_some (push_some next before) inside) after.start
    inside-Built meets = push_some-Built a _ inside before-Built (ground arith)

    replace_round-Built : Built a (replace_round r replacement next i) i.end
    replace_round-Built =
        rw (replace_round_cut full range_full)
          (elim (Bool-cases (leb i.end r.start || leb r.end i.start)) [
            | inl apart ↦ rw apart (push_merged-Built a next i built full)
            | inr meets ↦ rw meets (push_some-Built a _ after (inside-Built meets) (omega arith))
          ])

    byte_state_pieces :
        (x : ℕ)
        → (leb i.end r.start || leb r.end i.start) ≡ false
        → byte_state (push_some (push_some (push_some next before) inside) after) x ≡ (
            if within after.start after.end x
            then some i.state
            else if within inside.start inside.end x
            then some replacement
            else if within before.start before.end x
            then some i.state
            else byte_state next x)
    byte_state_pieces x meets =
        byte_state-push_some a _ after x (inside-Built meets)
        ∙ rw (byte_state-push_some a _ inside x before-Built)
            (rw (byte_state-push_some a next before x built))

    byte_state-replace_round :
        (x : ℕ)
        → byte_state (replace_round r replacement next i) x ≡ (
            if within i.start i.end x
            then some (if within r.start r.end x then replacement else i.state)
            else byte_state next x)
    byte_state-replace_round x =
        rw (replace_round_cut full range_full)
          (elim (Bool-cases (leb i.end r.start || leb r.end i.start)) [
            | inl apart ↦
                rw apart (byte_state-push_merged a next i x built.covers full ∙ ground arith)
            | inr meets ↦ rw meets (byte_state_pieces x meets ∙ ground arith)
          ])

module _ (a : ℕ) (r : Range) (replacement : IntervalState) (range_full : r.start < r.end) where
  replace_loop-Built :
      (next : List Interval) (c : ℕ) (old : List Interval) (b : ℕ)
      → Built a next c
      → Covers c old b
      → Built a (replace_loop r replacement next old) b
  unfolding replace_loop
  replace_loop-Built next c [] b h k = subst (Built a next) k h
  replace_loop-Built next c (i ∷ old) b h k =
      replace_loop-Built (replace_round r replacement next i) i.end old b
        (replace_round-Built a r replacement next i (subst (Built a next) (sym k.0) h) k.1
          range_full)
        k.2

  byte_state-replace_loop :
      (next : List Interval) (c : ℕ) (old : List Interval) (b x : ℕ)
      → Built a next c
      → Covers c old b
      → byte_state (replace_loop r replacement next old) x ≡ (
          if ltb x c
          then byte_state next x
          else if within r.start r.end x && ltb x b
          then some replacement
          else byte_state old x)
  unfolding replace_loop
  byte_state-replace_loop next c [] b x h k =
      ground (arith, byte_state_outside_high a next c x h.covers)
  byte_state-replace_loop next c (i ∷ old) b x h k =
      let h' = subst (Built a next) (sym k.0) h in
      byte_state-replace_loop (replace_round r replacement next i) i.end old b x
        (replace_round-Built a r replacement next i h' k.1 range_full) k.2
      ∙ ground (
        arith,
        byte_state-replace_round a r replacement next i h' k.1 range_full x,
        byte_state_outside_high a next c x h.covers,
        Covers-le i.end old b k.2,
      )

module _ (m : IntervalMap) (r : Range) (replacement : IntervalState) where
  -- A non-empty range is replaced within a canonical map.
  pub replace_range-IsCanonical :
      IsCanonical m → r.start < r.end → IsCanonical (replace_range m r replacement)
  unfolding replace_range
  replace_range-IsCanonical h full =
      let built =
        replace_loop-Built 0 r replacement full [] 0 m.intervals m.total_length (Built-nil 0)
          h.covers in
      record { covers = built.covers; merged = built.merged }

  -- Exactly the bytes of the range get the new state.
  pub byte_state-replace_range :
      (x : ℕ)
      → IsCanonical m
      → r.start < r.end
      → r.end ≤ m.total_length
      → byte_state (replace_range m r replacement).intervals x
        ≡ (if within r.start r.end x then some replacement else byte_state m.intervals x)
  unfolding replace_range
  byte_state-replace_range x h full fits =
      byte_state-replace_loop 0 r replacement full [] 0 m.intervals m.total_length x (Built-nil 0)
        h.covers
      ∙ ground arith
