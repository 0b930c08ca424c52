-- ===== src/Recovery/Rebuild.antt =====
-- The rebuilt interval map: complete in the merged ranges, pending elsewhere.
use mathlib.Core.Path.{subst}
use downpour.Prelude.{
  ℕ, ◌+◌, ◌-◌, ◌≤◌, ◌<◌, Bool, true, false, ◌||◌, Option, some, List, [], ◌∷◌, ◌≡◌, refl, sym, ap,
  ◌∙◌, arith, inl, inr, within, if◌then◌else◌, ltb, max_u64, ok,
}
use downpour.Intervals.{
  IntervalMap, IntervalState, Range, pending, in_progress, complete, grant, complete_range, new,
}
use downpour.Intervals.Partition.{IsCanonical, byte_state}
use downpour.Intervals.Match.{AllIn, FitsIn}
use downpour.Intervals.Assign.{Assigned, grant_lem, complete_range_lem}
use downpour.Recovery.{recovery_worker, rebuild}
use downpour.Recovery.Merge.{Chain, covered_by, total_size, Chain-le}

-- One range: pending before, complete after.
record Taken (m : IntervalMap) (r : Range) : Type 0 where
  granted : (grant m r recovery_worker).0 ≡ ok tt
  done : (complete_range (grant m r recovery_worker).1 r recovery_worker).0 ≡ ok tt
  assigned :
      Assigned m r complete (complete_range (grant m r recovery_worker).1 r recovery_worker).1

grant-ok :
    (m : IntervalMap) (r : Range)
    → IsCanonical m
    → FitsIn r m.total_length
    → AllIn r pending m.intervals
    → ((grant m r recovery_worker).0 ≡ ok tt)
      × Assigned m r (in_progress recovery_worker) (grant m r recovery_worker).1
grant-ok m r c fits free = elim (grant_lem m r recovery_worker c) [
  | inl refused ↦ absurd (refused.0 fits)
  | inr (inl refused) ↦ absurd (refused.1 free)
  | inr (inr done) ↦ (done.2, done.3)
]

complete_range-done :
    (m : IntervalMap) (r : Range)
    → IsCanonical m
    → FitsIn r m.total_length
    → AllIn r (in_progress recovery_worker) m.intervals
    → ((complete_range m r recovery_worker).0 ≡ ok tt)
      × Assigned m r complete (complete_range m r recovery_worker).1
complete_range-done m r c fits own = elim (complete_range_lem m r recovery_worker c) [
  | inl refused ↦ absurd (refused.0 fits)
  | inr (inl refused) ↦ absurd (refused.1 own)
  | inr (inr done) ↦ (done.2, done.3)
]

taken :
    (m : IntervalMap) (r : Range)
    → IsCanonical m
    → FitsIn r m.total_length
    → AllIn r pending m.intervals
    → Taken m r
taken m r c fits free =
    let (granted, a) = grant-ok m r c fits free in
    let after = (grant m r recovery_worker).1 in
    let (done, b) =
      complete_range-done after r a.canonical
        (fits.0, subst (λ n. r.end ≤ n) (sym a.same_length) fits.1)
        (λ x lo hi.
          a.bytes x
          ∙ ap (λ t. if t then some (in_progress recovery_worker) else byte_state m.intervals x)
              (inside r x lo hi)) in
    record {
      granted = granted;
      done = done;
      assigned = record {
        same_length = b.same_length ∙ a.same_length;
        canonical = b.canonical;
        bytes = λ x.
            b.bytes x
            ∙ both (within r.start r.end x) (byte_state m.intervals x)
                (byte_state after.intervals x) (a.bytes x);
      };
    }
  where
    inside : (q : Range) (x : ℕ) → q.start ≤ x → x < q.end → within q.start q.end x ≡ true
    inside q x lo hi = ground arith

    both :
        (t : Bool) (old mid : Option IntervalState)
        → mid ≡ (if t then some (in_progress recovery_worker) else old)
        → (if t then some complete else mid) ≡ (if t then some complete else old)
    both true old mid h = refl
    both false old mid h = h

rebuild-cons :
    (m : IntervalMap) (covered : ℕ) (r : Range) (rs : List Range)
    → Taken m r
    → covered + (r.end - r.start) ≤ max_u64
    → rebuild m covered (r ∷ rs)
      ≡ rebuild
          (complete_range (grant m r recovery_worker).1 r recovery_worker).1
          (covered + (r.end - r.start))
          rs
unfolding rebuild
rebuild-cons m covered r rs t small = rw (t.granted, t.done, fits _ small)
  where
    fits : (n : ℕ) → n ≤ max_u64 → ltb max_u64 n ≡ false
    fits n h = ground arith

-- The map that the loop answers, and the bytes that it counts.
pub record Rebuilt (m : IntervalMap) (covered : ℕ) (rs : List Range) (next : IntervalMap) (sum : ℕ)
    : Type 0 where
  pub canonical : IsCanonical next
  pub same_length : next.total_length ≡ m.total_length
  pub bytes :
      (x : ℕ)
      → byte_state next.intervals x
        ≡ (if covered_by x rs then some complete else byte_state m.intervals x)
  pub counted : sum ≡ covered + total_size rs

-- Nothing is granted from `lo` on.
abbrev FreeFrom : ℕ → IntervalMap → Type 0
FreeFrom lo m = (x : ℕ) → lo ≤ x → x < m.total_length → byte_state m.intervals x ≡ some pending

FreeFrom-Assigned :
    (m n : IntervalMap) (lo : ℕ) (r : Range) (s : IntervalState)
    → lo ≤ r.start
    → r.start < r.end
    → FreeFrom lo m
    → Assigned m r s n
    → FreeFrom r.end n
FreeFrom-Assigned m n lo r s low full free a x lo_x hi_x =
    a.bytes x
    ∙ ap (λ t. if t then some s else byte_state m.intervals x) (behind x lo_x)
    ∙ free x (omega (arith, low, full, lo_x)) (subst (λ k. x < k) a.same_length hi_x)
  where
    behind : (y : ℕ) → r.end ≤ y → within r.start r.end y ≡ false
    behind y h = ground arith

or_if :
    {A : Type 0} (a b : Bool) (s : A) (old : A)
    → (if b then s else (if a then s else old)) ≡ (if a || b then s else old)
or_if true true s old = refl
or_if true false s old = refl
or_if false true s old = refl
or_if false false s old = refl

rebuild-nil : (m : IntervalMap) (covered : ℕ) → rebuild m covered [] ≡ ok (m, covered)
unfolding rebuild
rebuild-nil m covered = refl

pub rebuild-Rebuilt :
    (m : IntervalMap) (covered lo hi : ℕ) (rs : List Range)
    → IsCanonical m
    → Chain lo rs hi
    → hi ≤ m.total_length
    → m.total_length ≤ max_u64
    → covered ≤ lo
    → FreeFrom lo m
    → (next : IntervalMap) × (sum : ℕ) × (rebuild m covered rs ≡ ok (next, sum))
      × Rebuilt m covered rs next sum
rebuild-Rebuilt m covered lo hi [] c chain top small count free = (
  m,
  covered,
  rebuild-nil m covered,
  record { canonical = c; same_length = refl; bytes = λ x. refl; counted = omega arith },
)
rebuild-Rebuilt m covered lo hi (r ∷ rs) c chain top small count free =
    let end_low = Chain-le r.end rs hi chain.2 in
    let t =
      taken m r c (chain.1, omega (arith, end_low, top))
        (λ x lo_x hi_x.
          free x (omega (arith, chain.0, lo_x)) (omega (arith, hi_x, end_low, top))) in
    let a = t.assigned in
    let after = (complete_range (grant m r recovery_worker).1 r recovery_worker).1 in
    let (next, sum, same, rest) =
      rebuild-Rebuilt after (covered + (r.end - r.start)) r.end hi rs a.canonical chain.2
        (omega (arith, top, a.same_length)) (omega (arith, small, a.same_length))
        (omega (arith, count, chain.0, chain.1))
        (FreeFrom-Assigned m after lo r complete chain.0 chain.1 free a) in
    (
      next,
      sum,
      rebuild-cons m covered r rs t (omega (arith, count, chain.0, chain.1, end_low, top, small))
          ∙ same,
      record {
        canonical = rest.canonical;
        same_length = rest.same_length ∙ a.same_length;
        bytes = λ x.
            rest.bytes x
            ∙ ap (λ s. if covered_by x rs then some complete else s) (a.bytes x)
            ∙ or_if (within r.start r.end x) (covered_by x rs) (some complete)
                (byte_state m.intervals x);
        counted = omega (arith, rest.counted);
      },
    )

pub new_pending : (n x : ℕ) → x < n → byte_state (new n).intervals x ≡ some pending
unfolding new
new_pending n x h = ground arith
