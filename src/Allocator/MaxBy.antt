-- ===== src/Allocator/MaxBy.antt =====
-- `max_by` over the intervals: the chosen one passes the filter, and none that passes is better.
use mathlib.Core.Path.{subst}
use mathlib.Core.Option.{some_inj, none-ne-some}
use Prim.Native.Nat.{Ordering}
use downpour.Prelude.{
  ◌≤◌, ◌<◌, Bool, true, false, none, some, List, [], ◌∷◌, ◌≡◌, refl, sym, ap, ◌≢◌, ◌↔◌, ◌∙◌, ◌⊎◌,
  inl, inr, arith, Bool-cases,
}
use downpour.Intervals.{Interval, IntervalState, pending, in_progress, complete, WorkerId, len}
use downpour.Prelude.{In, here, there, In-cons, In-skip, In-swap, not-In-nil}
use downpour.Allocator.{max_from, max_by, by_length, filter_state, with_owner, filter_active}

-- `i` is not preferred to `best`: it is shorter, or as long and starts no earlier.
abbrev pub NotBetter : Interval → Interval → Type 0
NotBetter i best = (len i < len best) ⊎ ((len i ≡ len best) × (best.start ≤ i.start))

NotBetter-trans : (i j k : Interval) → NotBetter i j → NotBetter j k → NotBetter i k
NotBetter-trans i j k p q = ground arith

-- Which of the two the comparison prefers.
by_length_cases :
    (a b : Interval)
    → ((by_length a b ≡ Ordering.gt) × NotBetter b a)
      ⊎ ((by_length a b ≢ Ordering.gt) × NotBetter a b)
unfolding by_length
by_length_cases a b = ground arith

module _ {ℓ} {A : Type ℓ} where
  abbrev choose : Ordering → A → A → A
  choose o best x = elim o [ Ordering.gt ↦ best | _ ↦ x ]

  choose_later : (o : Ordering) (best x : A) → o ≢ Ordering.gt → choose o best x ≡ x
  choose_later Ordering.gt best x h = absurd (h refl)
  choose_later Ordering.lt best x h = refl
  choose_later Ordering.eq best x h = refl

module _ {ℓ} {A : Type ℓ} (key : A → Interval) where
  max_from-In : (best : A) (l : List A) → In (max_from key best l) (best ∷ l)
  unfolding max_from
  max_from-In best [] = here refl
  max_from-In best (x ∷ l) = elim (by_length_cases (key best) (key x)) [
    | inl first ↦ rw first.0 (In-skip (max_from-In best l))
    | inr later ↦ rw (choose_later _ best x later.0) (there (max_from-In x l))
  ]

  max_from-NotBetter :
      (best : A) (l : List A) (x : A)
      → In x (best ∷ l)
      → NotBetter (key x) (key (max_from key best l))
  unfolding max_from
  max_from-NotBetter best [] x h = elim (In-cons h) [
    | inl e ↦ rw e (inr (refl, omega arith))
    | inr out ↦ absurd (not-In-nil out)
  ]
  max_from-NotBetter best (y ∷ l) x h = elim (by_length_cases (key best) (key y)) [
    | inl first ↦ rw first.0 (beats best (max_from-NotBetter best l) first.1 (In-swap best y h))
    | inr second ↦ rw (choose_later _ best y second.0) (beats y (max_from-NotBetter y l) second.1 h)
  ]
    where
      -- `kept` won against the element in front of it, so the winner of the rest beats that too.
      beats :
          (kept : A) {front : A}
          → ((z : A) → In z (kept ∷ l) → NotBetter (key z) (key (max_from key kept l)))
          → NotBetter (key front) (key kept)
          → In x (front ∷ kept ∷ l)
          → NotBetter (key x) (key (max_from key kept l))
      beats kept {front} rest lost m = elim (In-cons m) [
        | inl e ↦
            NotBetter-trans (key x) (key kept) (key (max_from key kept l))
              (subst (λ z. NotBetter (key z) (key kept)) (sym e) lost) (rest kept (here refl))
        | inr later ↦ rest x later
      ]

  -- What `max_by` returns is an element, and no element is better.
  pub max_by_sound :
      (l : List A) (x : A)
      → max_by key l ≡ some x
      → In x l × ((y : A) → In y l → NotBetter (key y) (key x))
  unfolding max_by
  max_by_sound [] x h = absurd (none-ne-some x h)
  max_by_sound (z ∷ l) x h =
      let e : max_from key z l ≡ x = some_inj.0 h in
      (
        subst (λ r. In r (z ∷ l)) e (max_from-In z l),
        λ y m. subst (λ r. NotBetter (key y) (key r)) e (max_from-NotBetter z l y m),
      )

  pub max_by-none : (l : List A) → max_by key l ≡ none → l ≡ []
  unfolding max_by
  max_by-none [] h = refl
  max_by-none (z ∷ l) h = absurd (none-ne-some (max_from key z l) (sym h))

pub filter_state-In :
    (test : IntervalState → Bool) (l : List Interval) (i : Interval)
    → In i (filter_state test l) ↔ (In i l × (test i.state ≡ true))
unfolding filter_state
filter_state-In test [] i = (λ h. absurd (not-In-nil h), λ h. absurd (not-In-nil h.0))
filter_state-In test (j ∷ l) i = elim (Bool-cases (test j.state)) [
  | inl keep ↦ rw keep (
      (
        λ h. elim (In-cons h) [
          | inl e ↦ (here e, ap (λ (k : Interval). test k.state) e ∙ keep)
          | inr later ↦ let t = (filter_state-In test l i).0 later in (there t.0, t.1)
        ],
        λ h. elim (In-cons h.0) [
          | inl e ↦ here e
          | inr later ↦ there ((filter_state-In test l i).1 (later, h.1))
        ],
      ))
  | inr skip ↦ rw skip (
      (
        λ h. let t = (filter_state-In test l i).0 h in (there t.0, t.1),
        λ h. elim (In-cons h.0) [
          | inl e ↦ absurd (test_differs e h.1 skip)
          | inr later ↦ (filter_state-In test l i).1 (later, h.1)
        ],
      ))
]
  where
    test_differs : i ≡ j → test i.state ≡ true → test j.state ≡ false → ⊥
    test_differs e p q = cc (ap (λ (k : Interval). test k.state) e)

with_owner-In :
    (j : Interval) (s : IntervalState) (rest : List (Interval × WorkerId)) (i : Interval)
    (w : WorkerId)
    → In (i, w) (with_owner j s rest) ↔ (((i ≡ j) × (s ≡ in_progress w)) ⊎ In (i, w) rest)
with_owner-In j pending rest i w =
    (inr, λ h. elim h [ inl e ↦ absurd (no_worker e.1) | inr later ↦ later ])
  where
    no_worker : pending ≡ in_progress w → ⊥
    no_worker e = cc
with_owner-In j (in_progress v) rest i w = (
  λ h. elim (In-cons h) [
    | inl e ↦ inl (
      ap (λ (p : Interval × WorkerId). p.0) e,
      ap (λ (p : Interval × WorkerId). in_progress p.1) (sym e),
    )
    | inr later ↦ inr later
  ],
  λ h. elim h [
    | inl e ↦ let same : w ≡ v = ground arith in here (λ k. (e.0 k, same k))
    | inr later ↦ there later
  ],
)
with_owner-In j complete rest i w =
    (inr, λ h. elim h [ inl e ↦ absurd (no_worker e.1) | inr later ↦ later ])
  where
    no_worker : complete ≡ in_progress w → ⊥
    no_worker e = cc

pub filter_active-In :
    (l : List Interval) (i : Interval) (w : WorkerId)
    → In (i, w) (filter_active l) ↔ (In i l × (i.state ≡ in_progress w))
unfolding filter_active
filter_active-In [] i w = (λ h. absurd (not-In-nil h), λ h. absurd (not-In-nil h.0))
filter_active-In (j ∷ l) i w =
    let head = with_owner-In j j.state (filter_active l) i w in
    let rest = filter_active-In l i w in
    (
      λ h. elim (head.0 h) [
        | inl found ↦ (here found.0, ap (λ (k : Interval). k.state) found.0 ∙ found.1)
        | inr later ↦ let t = rest.0 later in (there t.0, t.1)
      ],
      λ h. elim (In-cons h.0) [
        | inl e ↦ head.1 (inl (e, ap (λ (k : Interval). k.state) (sym e) ∙ h.1))
        | inr later ↦ head.1 (inr (rest.1 (later, h.1)))
      ],
    )
