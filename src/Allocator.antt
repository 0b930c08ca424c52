-- ===== src/Allocator.antt =====
-- crates/downpour-engine/src/lib.rs: the sole allocator of worker-owned byte ranges. The proofs are
-- in the modules below.
pub mod Preferred
pub mod MaxBy
pub mod Owners
pub mod Decide
pub mod Safety
pub mod Requests
use Prim.Native.Nat.{compare, Ordering}
use downpour.Prelude.{
  ℕ, ◌+◌, ◌-◌, ◌*◌, ◌/◌, Bool, true, false, ◌||◌, Option, none, some, List, [], ◌∷◌, ltb, ◌==◌,
  if◌then◌else◌, Result, ok, err, max_u64,
}
use downpour.Intervals
use downpour.Intervals.{
  Interval, IntervalState, pending, in_progress, complete, IntervalMap, IntervalMapError, Range,
  WorkerId, Mutation, len, is_pending,
}

abbrev pub default_min_split_bytes : ℕ
default_min_split_bytes = 1024 * 1024

pub record Grant : Type 0 where
  pub worker : WorkerId
  pub range : Range

pub record Allocation : Type 0 where
  pub grant : Grant
  pub shortened : Option Grant

pub data AllocatorError : Type 0 where
  zero_minimum_split : AllocatorError
  worker_already_active : WorkerId → AllocatorError
  interval : IntervalMapError → AllocatorError

pub record SegmentAllocator : Type 0 where
  pub intervals : IntervalMap
  pub min_split_bytes : ℕ

unfoldable pub new : ℕ → ℕ → Result SegmentAllocator AllocatorError
new total_length min_split_bytes =
    if min_split_bytes == 0
    then err zero_minimum_split
    else ok (record { intervals = Intervals.new total_length; min_split_bytes = min_split_bytes })

-- `matches!(state, InProgress { worker: owner } if *owner == worker)`
abbrev pub is_owner : WorkerId → IntervalState → Bool
is_owner worker (in_progress owner) = owner == worker
is_owner worker _ = false

unfoldable pub owns_any : WorkerId → List Interval → Bool
owns_any worker [] = false
owns_any worker (i ∷ rest) = is_owner worker i.state || owns_any worker rest

-- `Ordering::then_with`
abbrev then_with : Ordering → Ordering → Ordering
then_with Ordering.eq second = second
then_with first second = first

-- The comparison handed to `max_by`: by length, then towards the lower start.
unfoldable pub by_length : Interval → Interval → Ordering
by_length left right = then_with (compare (len left) (len right)) (compare right.start left.start)

-- `Iterator::max_by` keeps the later element unless the earlier one is greater.
unfoldable pub max_from {ℓ} : {A : Type ℓ} → (A → Interval) → A → List A → A
max_from key best [] = best
max_from key best (x ∷ rest) =
    max_from key (elim (by_length (key best) (key x)) [ Ordering.gt ↦ best | _ ↦ x ]) rest

unfoldable pub max_by {ℓ} : {A : Type ℓ} → (A → Interval) → List A → Option A
unfolding max_from
max_by key [] = none
max_by key (x ∷ rest) = some (max_from key x rest)

unfoldable pub filter_state : (IntervalState → Bool) → List Interval → List Interval
filter_state test [] = []
filter_state test (i ∷ rest) =
    if test i.state then i ∷ filter_state test rest else filter_state test rest

abbrev pub range_of : Interval → Range
range_of i = record { start = i.start; end = i.end }

abbrev option_map {ℓ κ} : {A : Type ℓ} {B : Type κ} → (A → B) → Option A → Option B
option_map f none = none
option_map f (some a) = some (f a)

unfoldable pub preferred_range : List Interval → (IntervalState → Bool) → Option Range
unfolding max_by filter_state
preferred_range l test = option_map range_of (max_by (λ i. i) (filter_state test l))

abbrev pub with_owner :
    Interval → IntervalState → List (Interval × WorkerId) → List (Interval × WorkerId)
with_owner i (in_progress worker) rest = (i, worker) ∷ rest
with_owner i _ rest = rest

unfoldable pub filter_active : List Interval → List (Interval × WorkerId)
filter_active [] = []
filter_active (i ∷ rest) = with_owner i i.state (filter_active rest)

unfoldable pub preferred_active : List Interval → Option (Range × WorkerId)
unfolding max_by filter_active
preferred_active l = option_map (λ p. (range_of p.0, p.1)) (max_by (λ p. p.0) (filter_active l))

-- `checked_mul(2)`
abbrev pub checked_double : ℕ → Option ℕ
checked_double n = if ltb max_u64 (n * 2) then none else some (n * 2)

-- What `allocate` returns, and the allocator that it leaves.
abbrev pub Answer : Type 0
Answer = Result (Option Allocation) AllocatorError × SegmentAllocator

-- `mutation?; Ok(Some(allocation))` on the interval map of `a`.
abbrev pub answer : SegmentAllocator → Mutation → Allocation → Answer
answer a (ok _, m) allocation = (ok (some allocation), record a { intervals = m })
answer a (err e, m) allocation = (err (interval e), record a { intervals = m })

abbrev pub midpoint : Range → ℕ
midpoint r = r.start + (r.end - r.start) / 2

abbrev pub halved : Range → WorkerId → WorkerId → Allocation
halved r source worker = record {
  grant = record { worker = worker; range = record { start = midpoint r; end = r.end } };
  shortened =
      some (record { worker = source; range = record { start = r.start; end = midpoint r } });
}

unfoldable pub split_active : SegmentAllocator → WorkerId → ℕ → Option (Range × WorkerId) → Answer
split_active a worker required none = (ok none, a)
split_active a worker required (some (r, source)) =
    if ltb (r.end - r.start) required
    then (ok none, a)
    else answer a (Intervals.split_in_progress a.intervals (midpoint r) source worker)
        (halved r source worker)

unfoldable pub allocate_active : SegmentAllocator → WorkerId → Option ℕ → Answer
unfolding split_active preferred_active
allocate_active a worker none = (ok none, a)
allocate_active a worker (some required) =
    split_active a worker required (preferred_active a.intervals.intervals)

unfoldable pub allocate_idle : SegmentAllocator → WorkerId → Option Range → Answer
unfolding allocate_active
allocate_idle a worker (some r) =
    answer a (Intervals.grant a.intervals r worker)
      (record { grant = record { worker = worker; range = r }; shortened = none })
allocate_idle a worker none = allocate_active a worker (checked_double a.min_split_bytes)

unfoldable pub allocate : SegmentAllocator → WorkerId → Answer
unfolding owns_any allocate_idle preferred_range
allocate a worker =
    if owns_any worker a.intervals.intervals
    then (err (worker_already_active worker), a)
    else allocate_idle a worker (preferred_range a.intervals.intervals is_pending)

abbrev pub map_interval :
    Mutation → SegmentAllocator → Result (Unit {0}) AllocatorError × SegmentAllocator
map_interval (ok _, m) a = (ok tt, record a { intervals = m })
map_interval (err e, m) a = (err (interval e), record a { intervals = m })

unfoldable pub complete_durable :
    SegmentAllocator → WorkerId → Range → Result (Unit {0}) AllocatorError × SegmentAllocator
complete_durable a worker r = map_interval (Intervals.complete_range a.intervals r worker) a

unfoldable pub abandon : SegmentAllocator → WorkerId → ℕ × SegmentAllocator
abandon a worker =
    let (released, m) = Intervals.abandon a.intervals worker in
    (released, record a { intervals = m })
