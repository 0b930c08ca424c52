-- ===== src/Intervals/Unique.antt =====
-- The canonical form: a map is determined by its byte states, and no byte has two owners.
use mathlib.Core.Path.{subst, ap₂}
use downpour.Prelude.{
  ℕ, zero, suc, ◌≤◌, true, some, List, [], ◌∷◌, ◌≡◌, refl, sym, ◌∙◌, ap, arith, get_elem?, within,
}
use downpour.Intervals.{Interval, IntervalMap}
use downpour.Intervals.Partition.{
  IsCanonical, IsMerged, Covers, byte_state, Covers-le, byte_state_outside_low,
}
use downpour.Intervals.Position.{byte_state-end}

-- Two partitions that agree on every byte.
abbrev Agree : List Interval → List Interval → Type 0
Agree l r = (x : ℕ) → byte_state l x ≡ byte_state r x

-- The first interval of a merged partition cannot end before that of another with the same bytes.
ends_no_earlier :
    (i j : Interval) (l r : List Interval) (b : ℕ)
    → Covers i.start (i ∷ l) b
    → IsMerged (i ∷ l)
    → j.start ≡ i.start
    → j.state ≡ i.state
    → Agree (i ∷ l) (j ∷ r)
    → j.end ≤ i.end
ends_no_earlier i j l r b c d e s same = ground (arith, same i.end, byte_state-end i l b c.2 d.0)

same_start :
    (i j : Interval) (l r : List Interval) (b : ℕ)
    → Covers i.start (i ∷ l) b
    → Covers i.start (j ∷ r) b
    → Agree (i ∷ l) (j ∷ r)
    → i.state ≡ j.state
same_start i j l r b c d same = ground (arith, same i.start)

Agree-tail :
    (i j : Interval) (l r : List Interval) (b : ℕ)
    → Covers i.start (i ∷ l) b
    → Covers i.start (j ∷ r) b
    → i.end ≡ j.end
    → Agree (i ∷ l) (j ∷ r)
    → Agree l r
Agree-tail i j l r b c d e same x =
    ground (
      arith,
      same x,
      byte_state_outside_low i.end l b x c.2,
      byte_state_outside_low j.end r b x d.2,
    )

interval_eq : (i j : Interval) → i.start ≡ j.start → i.end ≡ j.end → i.state ≡ j.state → i ≡ j
interval_eq i j p q r = λ k. record { start = p k; end = q k; state = r k }

Agree-eq :
    (a : ℕ) (l r : List Interval) (b : ℕ)
    → Covers a l b
    → Covers a r b
    → IsMerged l
    → IsMerged r
    → Agree l r
    → l ≡ r
Agree-eq a [] [] b c d m n same = refl
Agree-eq a [] (j ∷ r) b c d m n same = absurd (omega (arith, Covers-le j.end r b d.2))
Agree-eq a (i ∷ l) [] b c d m n same = absurd (omega (arith, Covers-le i.end l b c.2))
Agree-eq a (i ∷ l) (j ∷ r) b c d m n same =
    let ci : Covers i.start (i ∷ l) b = (refl, c.1, c.2) in
    let di : Covers i.start (j ∷ r) b = (d.0 ∙ sym c.0, d.1, d.2) in
    let dj : Covers j.start (j ∷ r) b = (refl, d.1, d.2) in
    let states = same_start i j l r b ci di same in
    let ends : i.end ≡ j.end = omega (
      arith,
      ends_no_earlier i j l r b ci m di.0 (sym states) same,
      ends_no_earlier j i r l b dj n (sym di.0) states (λ x. sym (same x)),
    ) in
    ap₂ ◌∷◌ (interval_eq i j (sym di.0) ends states) (
      Agree-eq i.end l r b c.2 (subst (λ e. Covers e r b) (sym ends) d.2) m.1 n.1
        (Agree-tail i j l r b ci di ends same))

map_eq : (m n : IntervalMap) → m.total_length ≡ n.total_length → m.intervals ≡ n.intervals → m ≡ n
map_eq m n p q = λ i. record { total_length = p i; intervals = q i }

-- A canonical map is determined by its length and the states of its bytes.
pub IsCanonical-unique :
    (m n : IntervalMap)
    → IsCanonical m
    → IsCanonical n
    → m.total_length ≡ n.total_length
    → ((x : ℕ) → byte_state m.intervals x ≡ byte_state n.intervals x)
    → m ≡ n
IsCanonical-unique m n c d e same = map_eq m n e (
    Agree-eq 0 m.intervals n.intervals m.total_length c.covers
      (subst (λ t. Covers 0 n.intervals t) (sym e) d.covers) c.merged d.merged same)

start-ge :
    (a : ℕ) (l : List Interval) (b q : ℕ) (j : Interval)
    → Covers a l b
    → get_elem? l q ≡ some j
    → a ≤ j.start
start-ge a [] b q j c h = cc
start-ge a (k ∷ l) b zero j c h = ground arith
start-ge a (k ∷ l) b (suc q) j c h = ground (arith, start-ge k.end l b q j c.2)

index_unique :
    (a : ℕ) (l : List Interval) (b p q x : ℕ) (i j : Interval)
    → Covers a l b
    → get_elem? l p ≡ some i
    → get_elem? l q ≡ some j
    → within i.start i.end x ≡ true
    → within j.start j.end x ≡ true
    → p ≡ q
index_unique a [] b p q x i j c hp hq hi hj = cc
index_unique a (k ∷ l) b zero zero x i j c hp hq hi hj = refl
index_unique a (k ∷ l) b zero (suc q) x i j c hp hq hi hj =
    absurd (ground (arith, start-ge k.end l b q j c.2))
index_unique a (k ∷ l) b (suc p) zero x i j c hp hq hi hj =
    absurd (ground (arith, start-ge k.end l b p i c.2))
index_unique a (k ∷ l) b (suc p) (suc q) x i j c hp hq hi hj =
    ap suc (index_unique k.end l b p q x i j c.2 hp hq hi hj)

-- Two stored intervals of a canonical map that share a byte are the same interval, so no byte is
-- owned by two workers.
pub no_shared_byte :
    (m : IntervalMap) (p q x : ℕ) (i j : Interval)
    → IsCanonical m
    → get_elem? m.intervals p ≡ some i
    → get_elem? m.intervals q ≡ some j
    → within i.start i.end x ≡ true
    → within j.start j.end x ≡ true
    → p ≡ q
no_shared_byte m p q x i j c = index_unique 0 m.intervals m.total_length p q x i j c.covers
