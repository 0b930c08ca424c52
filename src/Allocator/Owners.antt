-- ===== src/Allocator/Owners.antt =====
-- The test of `allocate` for a worker that has a grant.

use downpour.Prelude.{
  true, false, List, [], ◌∷◌, In, here, there, In-cons, not-In-nil, ◌≡◌, ◌≢◌, ◌↔◌, refl, sym, ◌∙◌,
  ap, inl, inr, arith, Bool-cases,
}
use downpour.Intervals.{Interval, IntervalState, pending, in_progress, complete, WorkerId}
use downpour.Allocator.{is_owner, owns_any}
use downpour.Allocator.{is_owner, owns_any}

is_owner_iff : (w : WorkerId) (s : IntervalState) → (is_owner w s ≡ true) ↔ (s ≡ in_progress w)
is_owner_iff w (in_progress v) = ground arith
is_owner_iff w pending = ground arith
is_owner_iff w complete = ground arith

pub owns_any-true :
    (w : WorkerId) (l : List Interval)
    → owns_any w l ≡ true
    → (i : Interval) × In i l × (i.state ≡ in_progress w)
unfolding owns_any
owns_any-true w [] h = absurd (ground arith)
owns_any-true w (j ∷ l) h = elim (Bool-cases (is_owner w j.state)) [
  | inl mine ↦ (j, here refl, (is_owner_iff w j.state).0 mine)
  | inr other ↦
      let (i, member, owner) = owns_any-true w l (rw other at h) in (i, there member, owner)
]

pub owns_any-false :
    (w : WorkerId) (l : List Interval)
    → owns_any w l ≡ false
    → (i : Interval) → In i l
    → i.state ≢ in_progress w
unfolding owns_any
owns_any-false w [] h i m = absurd (not-In-nil m)
owns_any-false w (j ∷ l) h i m = elim (Bool-cases (is_owner w j.state)) [
  | inl mine ↦ absurd (ground arith)
  | inr other ↦ elim (In-cons m) [
    | inl e ↦
        λ o. cc (other, (is_owner_iff w j.state).1 (ap (λ (k : Interval). k.state) (sym e) ∙ o))
    | inr later ↦ owns_any-false w l (rw other at h) i later
  ]
]
