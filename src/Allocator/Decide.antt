-- ===== src/Allocator/Decide.antt =====
-- `allocate` on every branch.
use mathlib.Core.Path.{subst}
use downpour.Prelude.{
  ℕ, ◌+◌, ◌-◌, ◌*◌, ◌≤◌, ◌<◌, Option, none, some, In, ◌≡◌, ◌≢◌, refl, ◌∙◌, ap, inl, inr, arith, ltb,
  Bool-cases, ok, err, max_u64,
}
use downpour.Intervals
use downpour.Intervals.{
  Interval, IntervalState, IntervalMap, IntervalMapError, Mutation, pending, in_progress, complete,
  Range, WorkerId, len, is_pending,
}
use downpour.Intervals.Partition.{IsCanonical}
use downpour.Intervals.Match.{AllIn, is_pending_iff}
use downpour.Intervals.Assign.{Assigned, grant_lem}
use downpour.Intervals.Split.{SplitOff, split_in_progress_lem}
use downpour.Intervals.Members.{IsRun, member-IsRun}
use downpour.Allocator.Owners.{owns_any-true, owns_any-false}
use downpour.Allocator.Preferred.{
  IsBest, IsBestActive, preferred_range-some, preferred_range-none, preferred_active-some,
  preferred_active-none,
}
use downpour.Allocator.{
  SegmentAllocator, Answer, Allocation, worker_already_active, owns_any, range_of, midpoint, halved,
  checked_double, preferred_range, preferred_active, answer, split_active, allocate_active,
  allocate_idle, allocate,
}

-- No stored interval is the worker's.
abbrev pub Idle : SegmentAllocator → WorkerId → Type 0
Idle a worker = (i : Interval) → In i a.intervals.intervals → i.state ≢ in_progress worker

abbrev pub NonePending : SegmentAllocator → Type 0
NonePending a = (i : Interval) → In i a.intervals.intervals → i.state ≢ pending

-- What `allocate` may do.
pub data Decision (a : SegmentAllocator) (worker : WorkerId) (out : Answer) : Type 0 where
  -- the worker has a grant already
  active :
      (i : Interval)
      → In i a.intervals.intervals
      → i.state ≡ in_progress worker
      → out ≡ (err (worker_already_active worker), a)
      → Decision a worker out
  -- the longest pending interval, the lowest among the longest, is granted whole
  fresh :
      (i : Interval) (m : IntervalMap)
      → Idle a worker
      → IsBest is_pending a.intervals.intervals i
      → Assigned a.intervals (range_of i) (in_progress worker) m
      → out ≡ (
        ok (
            some (record {
              grant = record { worker = worker; range = range_of i };
              shortened = none;
            })),
        record a { intervals = m },
      )
      → Decision a worker out
  -- nothing is pending, and the longest active interval is cut in two
  split :
      (i : Interval) (source : WorkerId) (m : IntervalMap)
      → Idle a worker
      → NonePending a
      → IsBestActive a.intervals.intervals i source
      → a.min_split_bytes * 2 ≤ len i
      → Assigned a.intervals
          (record { start = midpoint (range_of i); end = i.end })
          (in_progress worker)
          m
      → out ≡ (ok (some (halved (range_of i) source worker)), record a { intervals = m })
      → Decision a worker out
  -- nothing is pending, and every active interval is too short to cut
  nothing :
      Idle a worker
      → NonePending a
      → ((i : Interval) (v : WorkerId)
          → In i a.intervals.intervals
          → i.state ≡ in_progress v
          → len i < a.min_split_bytes * 2)
      → out ≡ (ok none, a)
      → Decision a worker out

-- A mutation that succeeds passes its map and the allocation on.
answer_ok :
    (a : SegmentAllocator) (mutation : Mutation) (x : Allocation)
    → mutation.0 ≡ ok tt
    → answer a mutation x ≡ (ok (some x), record a { intervals = mutation.1 })
answer_ok a (ok _, m) x h = refl
answer_ok a (err e, m) x h = cc

module _ (a : SegmentAllocator) (w : WorkerId) (c : IsCanonical a.intervals) (idle : Idle a w) where
  fresh_case :
      (i : Interval)
      → IsBest is_pending a.intervals.intervals i
      → Decision a w (allocate_idle a w (some (range_of i)))
  unfolding allocate_idle
  fresh_case i best =
      let run = member-IsRun a.intervals i c best.member in
      let state = (is_pending_iff i.state).0 best.passes in
      let free : AllIn (range_of i) pending a.intervals.intervals =
        λ x lo hi. run.bytes x lo hi ∙ ap some state in
      elim (grant_lem a.intervals (range_of i) w c) [
        | inl (bad, _) ↦ absurd (bad (run.full, run.high))
        | inr (inl (_, taken, _)) ↦ absurd (taken free)
        | inr (inr (_, _, done, assigned)) ↦ fresh i _ idle best assigned (answer_ok a _ _ done)
      ]

-- The cut lies strictly inside an interval of at least two bytes.
pub midpoint_inside :
    (i : Interval) (floor : ℕ)
    → 0 < floor
    → floor * 2 ≤ len i
    → (i.start + floor ≤ midpoint (range_of i)) × (midpoint (range_of i) + floor ≤ i.end)
midpoint_inside i floor pos le = omega arith

-- The source's run of bytes ends where its stored interval ends.
split_end :
    (m n : IntervalMap) (i : Interval) (at : ℕ) (source w : WorkerId)
    → IsRun 0 m.intervals m.total_length i
    → i.state ≡ in_progress source
    → i.start < at
    → at < i.end
    → (s : SplitOff m at source w n) → s.end ≡ i.end
split_end m n i at source w run owner lo hi s =
    ground (arith, s.not_empty, s.maximal, run.ends, run.bytes s.end, s.owned i.end)

module _ (a : SegmentAllocator) (w : WorkerId) (c : IsCanonical a.intervals) (idle : Idle a w)
    (settled : NonePending a) (floor_pos : 0 < a.min_split_bytes) where
  split_case :
      (i : Interval) (source : WorkerId)
      → IsBestActive a.intervals.intervals i source
      → a.min_split_bytes * 2 ≤ len i
      → Decision a w (
          answer a
            (Intervals.split_in_progress a.intervals (midpoint (range_of i)) source w)
            (halved (range_of i) source w))
  split_case i source best long =
      let run = member-IsRun a.intervals i c best.member in
      let at = midpoint (range_of i) in
      let cut = midpoint_inside i a.min_split_bytes floor_pos long in
      let owned : AllIn (range_of i) (in_progress source) a.intervals.intervals =
        λ x lo hi. run.bytes x lo hi ∙ ap some best.owner in
      elim (split_in_progress_lem a.intervals at source w c) [
        | inl (same, _) ↦ absurd (idle i best.member (best.owner ∙ ap in_progress same))
        | inr (inl (_, missed, _)) ↦ absurd (
            missed (
              omega arith,
              owned (at - 1) (omega arith) (omega arith),
              owned at (omega arith) (omega arith),
            ))
        | inr (inr (_, _, done, cut_off)) ↦
            let ends =
              split_end a.intervals _ i at source w run best.owner (omega arith) (omega arith)
                cut_off in
            split i source _ idle settled best long
              (subst
                (λ e.
                  Assigned a.intervals (record { start = at; end = e }) (in_progress w)
                    (Intervals.split_in_progress a.intervals at source w).1)
                ends cut_off.assigned)
              (answer_ok a _ _ done)
      ]

  active_case :
      (found : Option (Range × WorkerId))
      → preferred_active a.intervals.intervals ≡ found
      → Decision a w (split_active a w (a.min_split_bytes * 2) found)
  unfolding split_active
  active_case none e =
      nothing idle settled
        (λ i v m o. absurd (preferred_active-none a.intervals.intervals e i v m o)) refl
  active_case (some (r, source)) e =
      let (i, best, same) = preferred_active-some a.intervals.intervals (r, source) e in
      subst (λ q. Decision a w (split_active a w (a.min_split_bytes * 2) (some (q, source)))) same
        (elim (Bool-cases (ltb (len i) (a.min_split_bytes * 2))) [
          | inl short ↦
              rw short (nothing idle settled (λ j v m o. ground (arith, best.best j v m o)) refl)
          | inr long ↦ rw long (split_case i source best (ground arith))
        ])

  -- Where twice the floor does not fit in 64 bits, no interval is long enough.
  busy_case :
      a.intervals.total_length ≤ max_u64
      → Decision a w (allocate_active a w (checked_double a.min_split_bytes))
  unfolding allocate_active
  busy_case fits = elim (Bool-cases (ltb max_u64 (a.min_split_bytes * 2))) [
    | inl over ↦ rw over (
        nothing idle settled
          (λ i v m o. let run = member-IsRun a.intervals i c m in ground (arith, run.high)) refl)
    | inr representable ↦ rw representable (active_case _ refl)
  ]

module _ (a : SegmentAllocator) (w : WorkerId) (c : IsCanonical a.intervals) where
  Idle-case :
      a.intervals.total_length ≤ max_u64
      → 0 < a.min_split_bytes
      → Idle a w
      → (found : Option Range) → preferred_range a.intervals.intervals is_pending ≡ found
      → Decision a w (allocate_idle a w found)
  Idle-case fits pos idle none e =
      unfold allocate_idle in
      busy_case a w c idle
        (λ i m o.
          preferred_range-none a.intervals.intervals is_pending e i m
            ((is_pending_iff i.state).1 o))
        pos fits
  Idle-case fits pos idle (some r) e =
      let (i, best, same) = preferred_range-some a.intervals.intervals is_pending r e in
      subst (λ q. Decision a w (allocate_idle a w (some q))) same (fresh_case a w c idle i best)

  -- For a canonical map of a length that fits in 64 bits and a positive split floor, `allocate` does
  -- one of four things: it refuses a worker that has a grant, grants the best pending interval
  -- whole, cuts the best active interval in the middle when nothing is pending and it is at least
  -- twice the floor, or returns no work and changes nothing when neither is there. It never
  -- returns an error of the interval map.
  pub allocate_lem :
      a.intervals.total_length ≤ max_u64 → 0 < a.min_split_bytes → Decision a w (allocate a w)
  unfolding allocate
  allocate_lem fits pos = elim (Bool-cases (owns_any w a.intervals.intervals)) [
    | inl busy ↦
        let (i, member, owner) = owns_any-true w a.intervals.intervals busy in
        rw busy (active i member owner refl)
    | inr idle ↦ rw idle (Idle-case fits pos (owns_any-false w a.intervals.intervals idle) _ refl)
  ]
