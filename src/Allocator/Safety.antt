-- ===== src/Allocator/Safety.antt =====
-- What an allocation guarantees to its worker.
use mathlib.Core.Path.{subst}
use mathlib.Core.Option.{some_inj, none-ne-some}
use downpour.Prelude.{
  ℕ, ◌+◌, ◌*◌, ◌≤◌, ◌<◌, true, none, some, ◌≡◌, ◌↔◌, refl, sym, ◌∙◌, ap, inl, inr, arith, within,
  Bool-cases, ok, max_u64,
}
use downpour.Intervals.{Interval, IntervalMap, in_progress, Range, WorkerId, len}
use downpour.Intervals.Partition.{IsCanonical, byte_state}
use downpour.Intervals.Assign.{Assigned}
use downpour.Intervals.Members.{byte_state-In}
use downpour.Allocator.{
  SegmentAllocator, Allocation, Grant, Answer, range_of, midpoint, halved, allocate,
}
use downpour.Allocator.Decide.{
  Decision, active, fresh, split, nothing, Idle, midpoint_inside, allocate_lem,
}

-- An idle worker that is assigned a range owns the bytes of that range, and no other byte.
Assigned-owner :
    (a : SegmentAllocator) (w : WorkerId) (r : Range) (m : IntervalMap) (x : ℕ)
    → Idle a w
    → Assigned a.intervals r (in_progress w) m
    → (byte_state m.intervals x ≡ some (in_progress w)) ↔ (within r.start r.end x ≡ true)
Assigned-owner a w r m x idle assigned = elim (Bool-cases (within r.start r.end x)) [
  | inl held ↦ (λ _. held, λ _. assigned.bytes x ∙ rw held)
  | inr out ↦ (
    λ h.
        let old : byte_state a.intervals.intervals x ≡ some (in_progress w) =
          sym (assigned.bytes x ∙ rw out) ∙ h in
        let (i, member, state, _) = byte_state-In a.intervals.intervals x (in_progress w) old in
        absurd (idle i member state),
    λ h. cc,
  )
]

-- What an allocation promises.
pub record IsSound (a : SegmentAllocator) (w : WorkerId) (x : Allocation) (b : SegmentAllocator)
    : Type 0 where
  pub canonical : IsCanonical b.intervals
  pub same_length : b.intervals.total_length ≡ a.intervals.total_length
  pub same_floor : b.min_split_bytes ≡ a.min_split_bytes
  pub worker : x.grant.worker ≡ w
  pub owned :
      (y : ℕ)
      → (byte_state b.intervals.intervals y ≡ some (in_progress w))
        ↔ (within x.grant.range.start x.grant.range.end y ≡ true)
  pub halves :
      (g : Grant)
      → x.shortened ≡ some g
      → (g.range.end ≡ x.grant.range.start)
        × (g.range.start + a.min_split_bytes ≤ g.range.end)
        × (x.grant.range.start + a.min_split_bytes ≤ x.grant.range.end)

-- The two readings of what was returned.
returned :
    (a : SegmentAllocator) (w : WorkerId) (out : Answer) (x y : Allocation) (b : SegmentAllocator)
    → out ≡ (ok (some y), b)
    → out.0 ≡ ok (some x)
    → IsSound a w y b
    → IsSound a w x out.1
returned a w out x y b e h sound =
    let same : y ≡ x = ground arith in
    subst (λ z. IsSound a w z out.1) same
      (subst (IsSound a w y) (sym (ap (λ (o : Answer). o.1) e)) sound)

fresh-IsSound :
    (a : SegmentAllocator) (w : WorkerId) (i : Interval) (m : IntervalMap)
    → Idle a w
    → Assigned a.intervals (range_of i) (in_progress w) m
    → IsSound a w
        (record { grant = record { worker = w; range = range_of i }; shortened = none })
        (record a { intervals = m })
fresh-IsSound a w i m idle assigned = record {
  canonical = assigned.canonical;
  same_length = assigned.same_length;
  same_floor = refl;
  worker = refl;
  owned = λ y. Assigned-owner a w (range_of i) m y idle assigned;
  halves = λ g h. absurd (none-ne-some g h);
}

split-IsSound :
    (a : SegmentAllocator) (w source : WorkerId) (i : Interval) (m : IntervalMap)
    → 0 < a.min_split_bytes
    → Idle a w
    → a.min_split_bytes * 2 ≤ len i
    → Assigned a.intervals (record { start = midpoint (range_of i); end = i.end }) (in_progress w) m
    → IsSound a w (halved (range_of i) source w) (record a { intervals = m })
split-IsSound a w source i m pos idle long assigned =
    let right : Range = record { start = midpoint (range_of i); end = i.end } in
    let cut = midpoint_inside i a.min_split_bytes pos long in
    record {
      canonical = assigned.canonical;
      same_length = assigned.same_length;
      same_floor = refl;
      worker = refl;
      owned = λ y. Assigned-owner a w right m y idle assigned;
      halves = λ g h.
          subst
            (λ (k : Grant).
              (k.range.end ≡ midpoint (range_of i))
              × (k.range.start + a.min_split_bytes ≤ k.range.end)
              × (midpoint (range_of i) + a.min_split_bytes ≤ i.end))
            (some_inj.0 h) (refl, cut.0, cut.1);
    }

Decision-IsSound :
    (a : SegmentAllocator) (w : WorkerId) (out : Answer) (x : Allocation)
    → 0 < a.min_split_bytes
    → Decision a w out
    → out.0 ≡ ok (some x)
    → IsSound a w x out.1
Decision-IsSound a w out x pos (active i member owner e) h = absurd (ground arith)
Decision-IsSound a w out x pos (nothing idle settled short e) h = absurd (ground arith)
Decision-IsSound a w out x pos (fresh i m idle best assigned e) h =
    returned a w out x _ _ e h (fresh-IsSound a w i m idle assigned)
Decision-IsSound a w out x pos (split i source m idle settled best long assigned e) h =
    returned a w out x _ _ e h (split-IsSound a w source i m pos idle long assigned)

-- Whenever `allocate` returns an allocation, the worker owns exactly the bytes of its grant
-- afterwards; when a source was shortened, the two grants meet at the cut and neither is shorter
-- than the split floor; the map stays canonical and keeps its length.
pub allocation-IsSound :
    (a : SegmentAllocator) (w : WorkerId) (x : Allocation)
    → IsCanonical a.intervals
    → a.intervals.total_length ≤ max_u64
    → 0 < a.min_split_bytes
    → (allocate a w).0 ≡ ok (some x)
    → IsSound a w x (allocate a w).1
allocation-IsSound a w x c fits pos =
    Decision-IsSound a w (allocate a w) x pos (allocate_lem a w c fits pos)
