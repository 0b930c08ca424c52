-- ===== src/Allocator/Requests.antt =====
-- Sequences of requests to the allocator: what every one of them keeps.
use mathlib.Core.Path.{subst}
use downpour.Prelude.{
  ℕ, ◌≤◌, ◌<◌, true, List, [], ◌∷◌, ◌≡◌, ◌≢◌, refl, sym, inl, inr, arith, ◌==◌, Bool-cases, ok, err,
  max_u64,
}
use downpour.Intervals
use downpour.Intervals.{
  Interval, IntervalState, IntervalMap, IntervalMapError, Mutation, invariants_hold, in_progress,
  Range, WorkerId, len,
}
use downpour.Intervals.Partition.{IsCanonical, invariants_hold_iff, new-IsCanonical}
use downpour.Intervals.Reach.{complete_call, abandon_call, perform-Kept}
use downpour.Allocator.{
  SegmentAllocator, Answer, allocate, complete_durable, abandon, map_interval, new, interval,
}
use downpour.Allocator.Decide.{Decision, active, fresh, split, nothing, allocate_lem}

-- One request to the allocator.
pub data Request : Type 0 where
  allocate_request : WorkerId → Request
  complete_request : WorkerId → Range → Request
  abandon_request : WorkerId → Request

abbrev pub serve : SegmentAllocator → Request → SegmentAllocator
serve a (allocate_request w) = (allocate a w).1
serve a (complete_request w r) = (complete_durable a w r).1
serve a (abandon_request w) = (abandon a w).1

abbrev pub serve_all : SegmentAllocator → List Request → SegmentAllocator
serve_all a [] = a
serve_all a (r ∷ requests) = serve_all (serve a r) requests

-- The facts that every request keeps.
pub record IsReady (a : SegmentAllocator) : Type 0 where
  pub canonical : IsCanonical a.intervals
  pub fits : a.intervals.total_length ≤ max_u64
  pub floor : 0 < a.min_split_bytes

Decision-IsReady :
    (a : SegmentAllocator) (w : WorkerId) (out : Answer)
    → IsReady a
    → Decision a w out
    → IsReady out.1
Decision-IsReady a w out ready (active i member owner e) =
    subst (λ (o : Answer). IsReady o.1) (sym e) ready
Decision-IsReady a w out ready (nothing idle settled short e) =
    subst (λ (o : Answer). IsReady o.1) (sym e) ready
Decision-IsReady a w out ready (fresh i m idle best assigned e) =
    subst (λ (o : Answer). IsReady o.1) (sym e)
      (record {
        canonical = assigned.canonical;
        fits = omega (arith, assigned.same_length, ready.fits);
        floor = ready.floor;
      })
Decision-IsReady a w out ready (split i source m idle settled best long assigned e) =
    subst (λ (o : Answer). IsReady o.1) (sym e)
      (record {
        canonical = assigned.canonical;
        fits = omega (arith, assigned.same_length, ready.fits);
        floor = ready.floor;
      })

map_interval-map :
    (mutation : Mutation) (a : SegmentAllocator)
    → (map_interval mutation a).1 ≡ record a { intervals = mutation.1 }
map_interval-map (ok _, m) a = refl
map_interval-map (err e, m) a = refl

-- The wrapper of `complete` keeps the map that the mutation left.
complete_durable-map :
    (a : SegmentAllocator) (w : WorkerId) (r : Range)
    → (complete_durable a w r).1
      ≡ record a { intervals = (Intervals.complete_range a.intervals r w).1 }
unfolding complete_durable
complete_durable-map a w r = map_interval-map (Intervals.complete_range a.intervals r w) a

serve-IsReady : (a : SegmentAllocator) (r : Request) → IsReady a → IsReady (serve a r)
serve-IsReady a (allocate_request w) ready =
    Decision-IsReady a w (allocate a w) ready
      (allocate_lem a w ready.canonical ready.fits ready.floor)
serve-IsReady a (complete_request w r) ready =
    let kept = perform-Kept a.intervals (complete_call r w) ready.canonical in
    subst IsReady (sym (complete_durable-map a w r)) (record {
      canonical = kept.canonical;
      fits = omega (arith, kept.same_length, ready.fits);
      floor = ready.floor;
    })
serve-IsReady a (abandon_request w) ready =
    let kept = perform-Kept a.intervals (abandon_call w) ready.canonical in
    unfold abandon in
    record {
      canonical = kept.canonical;
      fits = omega (arith, kept.same_length, ready.fits);
      floor = ready.floor;
    }

serve_all-IsReady : (a : SegmentAllocator) (l : List Request) → IsReady a → IsReady (serve_all a l)
serve_all-IsReady a [] ready = ready
serve_all-IsReady a (r ∷ l) ready = serve_all-IsReady (serve a r) l (serve-IsReady a r ready)

new-IsReady : (n floor : ℕ) (a : SegmentAllocator) → n ≤ max_u64 → new n floor ≡ ok a → IsReady a
unfolding new
new-IsReady n floor a fits e = elim (Bool-cases (floor == 0)) [
  | inl bad ↦ absurd (ground arith)
  | inr good ↦
      let fresh_map : SegmentAllocator = record {
        intervals = Intervals.new n;
        min_split_bytes = floor;
      } in
      let same : fresh_map ≡ a = ground arith in
      subst IsReady same (record {
        canonical = new-IsCanonical n;
        fits = unfold Intervals.new in fits;
        floor = ground arith;
      })
]

Decision-ne-interval :
    (a : SegmentAllocator) (w : WorkerId) (out : Answer) (e : IntervalMapError)
    → Decision a w out
    → out.0 ≢ err (interval e)
Decision-ne-interval a w out e (active i member owner f) h = absurd (ground arith)
Decision-ne-interval a w out e (nothing idle settled short f) h = absurd (ground arith)
Decision-ne-interval a w out e (fresh i m idle best assigned f) h = absurd (ground arith)
Decision-ne-interval a w out e (split i source m idle settled best long assigned f) h =
    absurd (ground arith)

-- From a new allocator, after any requests, the interval map is canonical, and no allocation is
-- refused by it.
pub reachable_allocation :
    (n floor : ℕ) (a : SegmentAllocator) (requests : List Request) (w : WorkerId)
    → n ≤ max_u64
    → new n floor ≡ ok a
    → (invariants_hold (serve_all a requests).intervals ≡ true)
      × ((e : IntervalMapError) → (allocate (serve_all a requests) w).0 ≢ err (interval e))
reachable_allocation n floor a requests w fits made =
    let b = serve_all a requests in
    let ready = serve_all-IsReady a requests (new-IsReady n floor a fits made) in
    (
      (invariants_hold_iff b.intervals).1 ready.canonical,
      λ e.
          Decision-ne-interval b w (allocate b w) e
            (allocate_lem b w ready.canonical ready.fits ready.floor),
    )
