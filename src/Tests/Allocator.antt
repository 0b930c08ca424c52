-- ===== src/Tests/Allocator.antt =====
-- The allocator on the same ten bytes, with a split floor of one byte.
use downpour.Prelude.{◌≡◌, ◌≢◌, refl, arith, true, none, some, List, [], ◌∷◌, ok, err}
use downpour.Intervals.{
  range_matches, validate_range, IntervalMapError, invariants_hold, state_eq, grant,
  split_in_progress, complete_range,
}
use downpour.Allocator.{SegmentAllocator, Allocation, new, allocate, interval}
use downpour.Allocator.Decide.{Decision, allocate_lem}
use downpour.Allocator.Safety.{IsSound, allocation-IsSound}
use downpour.Allocator.Requests.{
  Request, allocate_request, complete_request, abandon_request, serve_all, reachable_allocation,
}
use downpour.Tests.Intervals.{ten, span, ten-IsCanonical}

abbrev ten_allocator : SegmentAllocator
ten_allocator = record { intervals = ten; min_split_bytes = 1 }

abbrev first : Allocation
first = record { grant = record { worker = 2; range = span 5 10 }; shortened = none }

allocates_pending : (allocate ten_allocator 2).0 ≡ ok (some first)
unfolding allocate grant state_eq validate_range range_matches
allocates_pending = refl

allocate_lem_example : Decision ten_allocator 2 (allocate ten_allocator 2)
allocate_lem_example = allocate_lem ten_allocator 2 ten-IsCanonical (omega arith) (omega arith)

allocation-IsSound_example : IsSound ten_allocator 2 first (allocate ten_allocator 2).1
allocation-IsSound_example =
    allocation-IsSound ten_allocator 2 first ten-IsCanonical (omega arith) (omega arith)
      allocates_pending

abbrev empty_allocator : SegmentAllocator
empty_allocator = record {
  intervals = record {
    total_length = 10;
    intervals =
        record { start = 0; end = 10; state = downpour.Intervals.IntervalState.pending } ∷ [];
  };
  min_split_bytes = 2;
}

abbrev requests : List Request
requests =
    allocate_request 1 ∷ allocate_request 2 ∷ complete_request 1 (span 0 3) ∷ abandon_request 2 ∷ []

made : new 10 2 ≡ ok empty_allocator
unfolding new downpour.Intervals.new
made = refl

reachable_allocation_example :
    (invariants_hold (serve_all empty_allocator requests).intervals ≡ true)
    × ((e : IntervalMapError)
        → (allocate (serve_all empty_allocator requests) 3).0 ≢ err (interval e))
reachable_allocation_example =
    reachable_allocation 10 2 empty_allocator requests 3 (omega arith) made
