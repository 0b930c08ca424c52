-- ===== src/Intervals/Merge.antt =====
-- `push_merged` and `normalise`: what they do to the partition and to the byte map.
use downpour.Prelude.{
  ℕ, ◌<◌, some, List, [], ◌∷◌, ◌≡◌, refl, sym, ◌∙◌, arith, ltb, if◌then◌else◌, within,
}
use mathlib.Core.Path.{subst}
use downpour.Intervals.{Interval, IntervalState, IntervalMap, push_merged, merge_all, normalise}
use downpour.Intervals.Partition.{
  Covers, Differs, IsMerged, IsCanonical, byte_state, state_eq_iff, Covers-le,
  byte_state_outside_low, byte_state_outside_high,
}

pub push_merged-Covers :
    (a : ℕ) (l : List Interval) (i : Interval)
    → Covers a l i.start
    → i.start < i.end
    → Covers a (push_merged l i) i.end
unfolding push_merged
push_merged-Covers a [] i h lt = ground arith
push_merged-Covers a (p ∷ []) i h lt = ground arith
push_merged-Covers a (p ∷ q ∷ l) i h lt = (h.0, h.1, push_merged-Covers p.end (q ∷ l) i h.2 lt)

push_merged-Differs :
    (s : IntervalState) (q : Interval) (l : List Interval) (i : Interval)
    → Differs s (q ∷ l)
    → Differs s (push_merged (q ∷ l) i)
unfolding push_merged
push_merged-Differs s q [] i h = ground arith
push_merged-Differs s q (r ∷ l) i h = h

pub push_merged-IsMerged :
    (a : ℕ) (l : List Interval) (i : Interval)
    → Covers a l i.start
    → IsMerged l
    → IsMerged (push_merged l i)
unfolding push_merged
push_merged-IsMerged a [] i h d = (tt, tt)
push_merged-IsMerged a (p ∷ []) i h d = ground (arith, state_eq_iff p.state i.state)
push_merged-IsMerged a (p ∷ q ∷ l) i h d =
    (push_merged-Differs p.state q l i d.0, push_merged-IsMerged p.end (q ∷ l) i h.2 d.1)

pub byte_state-push_merged :
    (a : ℕ) (l : List Interval) (i : Interval) (x : ℕ)
    → Covers a l i.start
    → i.start < i.end
    → byte_state (push_merged l i) x
      ≡ (if within i.start i.end x then some i.state else byte_state l x)
unfolding push_merged
byte_state-push_merged a [] i x h lt = refl
byte_state-push_merged a (p ∷ []) i x h lt = ground (arith, state_eq_iff p.state i.state)
byte_state-push_merged a (p ∷ q ∷ l) i x h lt =
    ground
      (arith, byte_state-push_merged p.end (q ∷ l) i x h.2 lt, Covers-le p.end (q ∷ l) i.start h.2)

-- `next` is a merged partition of `[a, c)`.
pub record Built (a : ℕ) (next : List Interval) (c : ℕ) : Type 0 where
  pub covers : Covers a next c
  pub merged : IsMerged next

pub push_merged-Built :
    (a : ℕ) (l : List Interval) (i : Interval)
    → Built a l i.start
    → i.start < i.end
    → Built a (push_merged l i) i.end
push_merged-Built a l i h lt = record {
  covers = push_merged-Covers a l i h.covers lt;
  merged = push_merged-IsMerged a l i h.covers h.merged;
}

merge_all-Built :
    (a : ℕ) (next : List Interval) (c : ℕ) (old : List Interval) (b : ℕ)
    → Built a next c
    → Covers c old b
    → Built a (merge_all next old) b
unfolding merge_all
merge_all-Built a next c [] b h k = subst (Built a next) k h
merge_all-Built a next c (i ∷ old) b h k =
    merge_all-Built a (push_merged next i) i.end old b
      (push_merged-Built a next i (subst (Built a next) (sym k.0) h) k.1) k.2

byte_state-merge_all :
    (a : ℕ) (next : List Interval) (c : ℕ) (old : List Interval) (b x : ℕ)
    → Built a next c
    → Covers c old b
    → byte_state (merge_all next old) x ≡ (if ltb x c then byte_state next x else byte_state old x)
unfolding merge_all
byte_state-merge_all a next c [] b x h k =
    ground (arith, byte_state_outside_high a next c x h.covers)
byte_state-merge_all a next c (i ∷ old) b x h k =
    let h' = subst (Built a next) (sym k.0) h in
    byte_state-merge_all a (push_merged next i) i.end old b x (push_merged-Built a next i h' k.1)
      k.2
    ∙ ground (
      arith,
      byte_state-push_merged a next i x h'.covers k.1,
      byte_state_outside_high a next c x h.covers,
      byte_state_outside_low i.end old b x k.2,
    )

pub Built-nil : (a : ℕ) → Built a [] a
Built-nil a = record { covers = refl; merged = tt }

-- Normalising a partition that need not be merged gives a canonical map.
pub normalise-IsCanonical :
    (m : IntervalMap) → Covers 0 m.intervals m.total_length → IsCanonical (normalise m)
unfolding normalise
normalise-IsCanonical m h =
    let built = merge_all-Built 0 [] 0 m.intervals m.total_length (Built-nil 0) h in
    record { covers = built.covers; merged = built.merged }

-- Normalising changes the state of no byte.
pub byte_state-normalise :
    (m : IntervalMap) (x : ℕ)
    → Covers 0 m.intervals m.total_length
    → byte_state (normalise m).intervals x ≡ byte_state m.intervals x
unfolding normalise
byte_state-normalise m x h =
    byte_state-merge_all 0 [] 0 m.intervals m.total_length x (Built-nil 0) h ∙ ground arith
