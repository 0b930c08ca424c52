-- ===== src/Writer/Apart.antt =====
-- A write in a worker's grant touches no complete byte, and no staged block that it was checked
-- against.
use downpour.Prelude.{
  ℕ, ◌+◌, ◌≤◌, ◌<◌, ◌&&◌, Option, none, some, List, [], ◌∷◌, ◌≡◌, ◌⊎◌, refl, arith, inl, inr, ltb,
  leb, Bool-cases, ok, All,
}
use downpour.Intervals.{IntervalMap, Range, WorkerId, in_progress, complete}
use downpour.Intervals.Partition.{byte_state}
use downpour.Intervals.Match.{AllIn}
use downpour.Writer.Batch.{StagedBlock, find_overlap, ensure_not_staged, no_overlap}
use downpour.Writer.Laws.{Apart}

-- Every byte of a block is complete.
abbrev pub AllComplete : IntervalMap → ℕ → ℕ → Type 0
AllComplete m start width =
    (y : ℕ) → start ≤ y → y < start + width → byte_state m.intervals y ≡ some complete

not_overlapping :
    (a n b k : ℕ)
    → 0 < n
    → 0 < k
    → ((y : ℕ) → a ≤ y → y < a + n → b ≤ y → y < b + k → ⊥)
    → Apart a n b k
not_overlapping a n b k some_n some_k none_shared = elim (Bool-cases (leb a b)) [
  | inl le ↦
      let apart = none_shared b (ground arith) in
      elim (Bool-cases (leb (a + n) b)) [
        | inl before ↦ inl (ground arith)
        | inr other ↦ absurd (apart (ground arith) (omega arith) (omega arith))
      ]
  | inr gt ↦
      let apart = none_shared a (omega arith) (omega arith) (ground arith) in
      elim (Bool-cases (leb (b + k) a)) [
        | inl behind ↦ inr (ground arith)
        | inr other ↦ absurd (apart (ground arith))
      ]
]

pub complete-Apart :
    (m : IntervalMap) (worker : WorkerId) (a n b k : ℕ)
    → 0 < n
    → 0 < k
    → AllIn (record { start = a; end = a + n }) (in_progress worker) m.intervals
    → AllComplete m b k
    → Apart a n b k
complete-Apart m worker a n b k some_n some_k own whole =
    not_overlapping a n b k some_n some_k
      λ y lo hi from to. let p = own y lo hi in let q = whole y from to in cc

-- Every staged block ends before the range or starts behind it.
abbrev pub Beside : Range → StagedBlock → Type 0
Beside r b = (r.end ≤ b.range.start) ⊎ (b.range.end ≤ r.start)

find_overlap-Beside :
    (r : Range) (bs : List StagedBlock) → find_overlap r bs ≡ none → All (Beside r) bs
unfolding find_overlap
find_overlap-Beside r [] h = tt
find_overlap-Beside r (b ∷ bs) h =
    elim (Bool-cases (ltb b.range.start r.end && ltb r.start b.range.end)) [
      | inl shared ↦ cc (rw shared at h)
      | inr apart ↦ (ground arith, find_overlap-Beside r bs (rw apart at h))
    ]

pub ensure_not_staged-Beside :
    (r : Range) (bs : List StagedBlock) → ensure_not_staged r bs ≡ ok tt → All (Beside r) bs
unfolding ensure_not_staged
ensure_not_staged-Beside r bs h = find_overlap-Beside r bs (found (find_overlap r bs) h)
  where
    found : (o : Option StagedBlock) → no_overlap r o ≡ ok tt → o ≡ none
    found none k = refl
    found (some b) k = cc
