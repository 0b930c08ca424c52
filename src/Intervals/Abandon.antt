-- ===== src/Intervals/Abandon.antt =====
-- `abandon`: the bytes that it returns to pending, and how many they are.
use downpour.Prelude.{
  ℕ, zero, suc, ◌+◌, ◌-◌, ◌≤◌, ◌<◌, Bool, false, Option, none, some, List, [], ◌∷◌, ◌≡◌, refl, sym,
  ◌∙◌, arith, leb, if◌then◌else◌, Bool-cases, inl, inr,
}
use downpour.Intervals.{
  Interval, IntervalState, IntervalMap, WorkerId, release, abandon, normalise, pending, in_progress,
  state_eq,
}
use downpour.Intervals.Partition.{IsCanonical, Covers, byte_state, Covers-le}
use downpour.Intervals.Unique.{IsCanonical-unique}
use downpour.Intervals.Merge.{normalise-IsCanonical, byte_state-normalise}

-- Whether a byte's state says that the worker owns it.
abbrev pub owned_by : WorkerId → Option IntervalState → Bool
owned_by w none = false
owned_by w (some s) = state_eq s (in_progress w)

-- How many of the numbers below `n` pass the test.
abbrev pub count_below : (ℕ → Bool) → ℕ → ℕ
count_below test zero = 0
count_below test (suc n) = (if test n then 1 else 0) + count_below test n

release-Covers :
    (w : WorkerId) (a : ℕ) (l : List Interval) (b : ℕ) → Covers a l b → Covers a (release w l).1 b
unfolding release
release-Covers w a [] b h = h
release-Covers w a (i ∷ l) b h = ground (arith, release-Covers w i.end l b h.2)

byte_state-release :
    (w : WorkerId) (l : List Interval) (x : ℕ)
    → byte_state (release w l).1 x
      ≡ (if owned_by w (byte_state l x) then some pending else byte_state l x)
unfolding release
byte_state-release w [] x = refl
byte_state-release w (i ∷ l) x = ground (arith, byte_state-release w l x)

-- A test that has one answer on a stretch counts all of it or none.
count_below_stretch :
    (test : ℕ → Bool) (answer : Bool) (a e : ℕ)
    → a ≤ e
    → ((x : ℕ) → a ≤ x → x < e → test x ≡ answer)
    → count_below test e ≡ count_below test a + (if answer then e - a else 0)
count_below_stretch test answer zero zero le h = ground arith
count_below_stretch test answer (suc a) zero le h = absurd (omega arith)
count_below_stretch test answer a (suc e) le h = elim (Bool-cases (leb a e)) [
  | inl more ↦ ground (
    arith,
    h e,
    count_below_stretch test answer a e (ground arith) (λ x lo hi. h x lo (omega arith)),
  )
  | inr done ↦ let same : a ≡ suc e = ground arith in rw same (ground arith)
]

-- The bytes released are the bytes that the worker owned.
count_below-release :
    (w : WorkerId) (test : ℕ → Bool) (a : ℕ) (l : List Interval) (b : ℕ)
    → Covers a l b
    → ((x : ℕ) → a ≤ x → x < b → test x ≡ owned_by w (byte_state l x))
    → count_below test b ≡ count_below test a + (release w l).0
unfolding release
count_below-release w test a [] b c h = rw (sym c) (omega arith)
count_below-release w test a (i ∷ l) b c h =
    let head =
      count_below_stretch test (state_eq i.state (in_progress w)) i.start i.end (omega arith)
        (λ x lo hi. ground (arith, h x, Covers-le i.end l b c.2)) in
    let later = count_below-release w test i.end l b c.2 (λ x lo hi. ground (arith, h x)) in
    rw (sym c.0) (ground (arith, head, later))

-- The bytes of the worker are pending, and all others are as before.
pub record Abandoned (before : IntervalMap) (w : WorkerId) (after : IntervalMap) : Type 0 where
  pub same_length : after.total_length ≡ before.total_length
  pub canonical : IsCanonical after
  pub bytes :
      (x : ℕ)
      → byte_state after.intervals x ≡ (
          if owned_by w (byte_state before.intervals x)
          then some pending
          else byte_state before.intervals x)

module _ (m : IntervalMap) (w : WorkerId) (c : IsCanonical m) where
  -- `abandon` returns exactly the bytes of the worker to pending, leaves a canonical map, and
  -- reports how many bytes it returned.
  pub abandon_lem :
      Abandoned m w (abandon m w).1
      × ((abandon m w).0 ≡ count_below (λ x. owned_by w (byte_state m.intervals x)) m.total_length)
  unfolding abandon
  abandon_lem =
      let freed : IntervalMap = record m { intervals = (release w m.intervals).1 } in
      let cover = release-Covers w 0 m.intervals m.total_length c.covers in
      (
        record {
          same_length = unfold normalise in refl;
          canonical = normalise-IsCanonical freed cover;
          bytes = λ x. byte_state-normalise freed x cover ∙ byte_state-release w m.intervals x;
        },
        omega (
          arith,
          count_below-release w (λ x. owned_by w (byte_state m.intervals x)) 0 m.intervals
              m.total_length c.covers (λ x lo hi. refl),
        ),
      )

-- Nothing is counted where the test always fails.
count_below_none : (test : ℕ → Bool) (n : ℕ) → ((x : ℕ) → test x ≡ false) → count_below test n ≡ 0
count_below_none test zero h = refl
count_below_none test (suc n) h = ground (arith, h n, count_below_none test n h)

freed_not_owned :
    (w : WorkerId) (o : Option IntervalState)
    → owned_by w (if owned_by w o then some pending else o) ≡ false
unfolding state_eq
freed_not_owned w none = refl
freed_not_owned w (some s) = elim (Bool-cases (state_eq s (in_progress w))) [
  | inl mine ↦ rw mine refl
  | inr other ↦ rw other other
]

not_owned_after :
    (m n : IntervalMap) (w : WorkerId)
    → Abandoned m w n
    → (x : ℕ) → owned_by w (byte_state n.intervals x) ≡ false
not_owned_after m n w a x = rw (a.bytes x) (freed_not_owned w (byte_state m.intervals x))

-- A repeated notice of the same worker's death releases nothing and changes nothing.
pub abandon_twice :
    (m : IntervalMap) (w : WorkerId)
    → IsCanonical m
    → abandon (abandon m w).1 w ≡ (0, (abandon m w).1)
abandon_twice m w c =
    let once = (abandon_lem m w c).0 in
    let freed = not_owned_after m (abandon m w).1 w once in
    let (twice, released) = abandon_lem (abandon m w).1 w once.canonical in
    let nothing : (abandon (abandon m w).1 w).0 ≡ 0 =
      released ∙ count_below_none _ (abandon m w).1.total_length freed in
    let same : (abandon (abandon m w).1 w).1 ≡ (abandon m w).1 =
      IsCanonical-unique (abandon (abandon m w).1 w).1 (abandon m w).1 twice.canonical
        once.canonical twice.same_length (λ x. twice.bytes x ∙ rw (freed x)) in
    λ i. (nothing i, same i)
