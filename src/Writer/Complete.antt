-- ===== src/Writer/Complete.antt =====
-- What completing a batch does to the bytes of the interval map.
use downpour.Prelude.{
  ℕ, true, some, List, [], ◌∷◌, ◌≡◌, ◌↔◌, ◌⊎◌, refl, sym, ap, ◌∙◌, inl, inr, within, Bool-cases,
  if◌then◌else◌, Result, ok, err,
}
use downpour.Intervals.{
  IntervalMap, IntervalMapError, Range, WorkerId, in_progress, complete, complete_range,
}
use downpour.Intervals.Partition.{IsCanonical, byte_state}
use downpour.Intervals.Match.{AllIn, FitsIn}
use downpour.Intervals.Assign.{Assigned, complete_range_lem}
use downpour.Writer.Batch.{StagedBlock, complete_staged}

-- The range was the worker's, and is complete now.
pub complete_range-ok :
    (m : IntervalMap) (r : Range) (worker : WorkerId)
    → IsCanonical m
    → (complete_range m r worker).0 ≡ ok tt
    → FitsIn r m.total_length
      × AllIn r (in_progress worker) m.intervals
      × Assigned m r complete (complete_range m r worker).1
complete_range-ok m r worker c h = elim (complete_range_lem m r worker c) [
  | inl refused ↦ cc (refused.1)
  | inr (inl refused) ↦ cc (refused.2)
  | inr (inr done) ↦ (done.0, done.1, done.3)
]

-- A block of the batch holds the byte.
abbrev pub Covered : ℕ → List StagedBlock → Type 0
Covered x [] = ⊥
Covered x (b ∷ bs) = (within b.range.start b.range.end x ≡ true) ⊎ Covered x bs

-- `next` is canonical, and its complete bytes are those of `m` and those of the batch.
pub record Completed (m : IntervalMap) (bs : List StagedBlock) (next : IntervalMap) : Type 0 where
  pub canonical : IsCanonical next
  pub bytes :
      (x : ℕ)
      → (byte_state next.intervals x ≡ some complete)
        ↔ ((byte_state m.intervals x ≡ some complete) ⊎ Covered x bs)

Assigned-complete :
    (m n : IntervalMap) (r : Range) (x : ℕ)
    → Assigned m r complete n
    → (byte_state n.intervals x ≡ some complete)
      ↔ ((within r.start r.end x ≡ true) ⊎ (byte_state m.intervals x ≡ some complete))
Assigned-complete m n r x a = elim (Bool-cases (within r.start r.end x)) [
  | inl inside ↦
      let e = a.bytes x in
      (
        λ h. inl inside,
        λ h. e ∙ ap (λ b. if b then some complete else byte_state m.intervals x) inside,
      )
  | inr outside ↦
      let e : byte_state n.intervals x ≡ byte_state m.intervals x =
        a.bytes x ∙ ap (λ b. if b then some complete else byte_state m.intervals x) outside in
      (λ h. inr (sym e ∙ h), λ h. elim h [ inl i ↦ cc | inr k ↦ e ∙ k ])
]

-- The first block of a batch that was completed, and the others.
pub complete_staged-cons :
    (m : IntervalMap) (b : StagedBlock) (bs : List StagedBlock) (next : IntervalMap)
    → complete_staged m (b ∷ bs) ≡ ok next
    → ((complete_range m b.range b.worker).0 ≡ ok tt)
      × (complete_staged (complete_range m b.range b.worker).1 bs ≡ ok next)
unfolding complete_staged
complete_staged-cons m b bs next h = step (complete_range m b.range b.worker).0 refl h
  where
    step :
        (result : Result (Unit {0}) IntervalMapError)
        → (complete_range m b.range b.worker).0 ≡ result
        → elim result [
          | err e ↦ err e
          | ok _ ↦ complete_staged (complete_range m b.range b.worker).1 bs
        ]
          ≡ ok next
        → ((complete_range m b.range b.worker).0 ≡ ok tt)
          × (complete_staged (complete_range m b.range b.worker).1 bs ≡ ok next)
    step (err e) same k = cc
    step (ok tt) same k = (same, k)

complete_staged-nil : (m next : IntervalMap) → complete_staged m [] ≡ ok next → next ≡ m
unfolding complete_staged
complete_staged-nil m next h = cc

pub complete_staged-Completed :
    (m : IntervalMap) (bs : List StagedBlock) (next : IntervalMap)
    → IsCanonical m
    → complete_staged m bs ≡ ok next
    → Completed m bs next
complete_staged-Completed m [] next c h = rw (complete_staged-nil m next h) (record {
  canonical = c;
  bytes = λ x. (λ k. inl k, λ k. elim k [ inl l ↦ l | inr n ↦ absurd n ]);
})
complete_staged-Completed m (b ∷ bs) next c h =
    let (first, others) = complete_staged-cons m b bs next h in
    let after = (complete_range m b.range b.worker).1 in
    let done = complete_range-ok m b.range b.worker c first in
    let rest = complete_staged-Completed after bs next done.2.canonical others in
    let bytes = λ (x : ℕ). Assigned-complete m after b.range x done.2 in
    record {
      canonical = rest.canonical;
      bytes = λ x. (
        λ k. elim ((rest.bytes x).0 k) [
          | inl l ↦ elim ((bytes x).0 l) [ inl inside ↦ inr (inl inside) | inr old ↦ inl old ]
          | inr later ↦ inr (inr later)
        ],
        λ k. (rest.bytes x).1 (elim k [
          | inl old ↦ inl ((bytes x).1 (inr old))
          | inr covered ↦ elim covered [
            | inl inside ↦ inl ((bytes x).1 (inl inside))
            | inr later ↦ inr later
          ]
        ]),
      );
    }
