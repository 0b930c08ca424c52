-- ===== src/Intervals/Lifecycle.antt =====
-- The life of one byte: the abstract state machine that the interval map implements.

use downpour.Prelude.{
  ℕ, Option, none, some, List, [], ◌∷◌, ◌≡◌, refl, sym, ap, ◌∙◌, arith, inl, inr, if◌then◌else◌,
  err, Bool-cases, within,
}
use downpour.Intervals.{
  IntervalMap, IntervalState, pending, in_progress, complete, Range, WorkerId, Mutation,
  IntervalMapError, state_eq,
}
use downpour.Intervals.Partition.{IsCanonical, byte_state, state_eq_iff}
use downpour.Intervals.Match.{AllIn}
use downpour.Intervals.Assign.{Assigned, grant_lem, complete_range_lem}
use downpour.Intervals.Split.{split_in_progress_lem}
use downpour.Intervals.Abandon.{abandon_lem, owned_by}
use downpour.Intervals.Reach.{
  Call, grant_call, split_call, complete_call, abandon_call, perform, perform_all, perform-Kept,
}

-- What one call can do to one byte.
pub data ByteStep (c : Call) (old now : Option IntervalState) : Type 0 where
  stays : now ≡ old → ByteStep c old now
  granted :
      (r : Range) (w : WorkerId)
      → c ≡ grant_call r w
      → old ≡ some pending
      → now ≡ some (in_progress w)
      → ByteStep c old now
  moved :
      (at : ℕ) (v w : WorkerId)
      → c ≡ split_call at v w
      → old ≡ some (in_progress v)
      → now ≡ some (in_progress w)
      → ByteStep c old now
  completed :
      (r : Range) (w : WorkerId)
      → c ≡ complete_call r w
      → old ≡ some (in_progress w)
      → now ≡ some complete
      → ByteStep c old now
  freed :
      (w : WorkerId)
      → c ≡ abandon_call w
      → old ≡ some (in_progress w)
      → now ≡ some pending
      → ByteStep c old now

-- A refused call does nothing to any byte.
refused_stays :
    (c : Call) (m : IntervalMap) (call : Mutation) (e : IntervalMapError) (x : ℕ)
    → call ≡ (err e, m)
    → ByteStep c (byte_state m.intervals x) (byte_state call.1.intervals x)
refused_stays c m call e x same = stays (ap (λ (k : Mutation). byte_state k.1.intervals x) same)

-- An assigned range: its bytes had one state and have another, the rest stays.
module _ (c : Call) (m n : IntervalMap) (r : Range) (s t : IntervalState)
    (all : AllIn r s m.intervals) (a : Assigned m r t n) (x : ℕ)
    (inside : byte_state m.intervals x ≡ some s
      → byte_state n.intervals x ≡ some t
      → ByteStep c (byte_state m.intervals x) (byte_state n.intervals x)) where
  assigned_step : ByteStep c (byte_state m.intervals x) (byte_state n.intervals x)
  assigned_step = elim (Bool-cases (within r.start r.end x)) [
    | inl held ↦ inside (all x (ground arith) (ground arith)) (a.bytes x ∙ rw held)
    | inr other ↦ stays (a.bytes x ∙ rw other)
  ]

freed_step :
    (m n : IntervalMap) (w : WorkerId) (x : ℕ) (o : Option IntervalState)
    → byte_state m.intervals x ≡ o
    → byte_state n.intervals x ≡ (if owned_by w o then some pending else o)
    → ByteStep (abandon_call w) (byte_state m.intervals x) (byte_state n.intervals x)
freed_step m n w x none old now = stays (now ∙ sym old)
freed_step m n w x (some s) old now = elim (Bool-cases (state_eq s (in_progress w))) [
  | inl mine ↦
      freed w refl (old ∙ ap some ((state_eq_iff s (in_progress w)).0 mine)) (now ∙ rw mine)
  | inr other ↦ stays (now ∙ rw other (sym old))
]

-- Every call moves every byte by the machine: pending bytes are granted, an owner's bytes are moved
-- by a split of that owner, completed by that owner or freed by abandoning that owner, and nothing
-- else changes any byte.
pub perform-ByteStep :
    (m : IntervalMap) (c : Call) (x : ℕ)
    → IsCanonical m
    → ByteStep c (byte_state m.intervals x) (byte_state (perform m c).intervals x)
perform-ByteStep m (grant_call r w) x h = elim (grant_lem m r w h) [
  | inl refused ↦ refused_stays _ m _ _ x refused.1
  | inr (inl refused) ↦ refused_stays _ m _ _ x refused.2
  | inr (inr done) ↦
      assigned_step _ m _ r pending (in_progress w) done.1 done.3 x (granted r w refl)
]
perform-ByteStep m (complete_call r w) x h = elim (complete_range_lem m r w h) [
  | inl refused ↦ refused_stays _ m _ _ x refused.1
  | inr (inl refused) ↦ refused_stays _ m _ _ x refused.2
  | inr (inr done) ↦
      assigned_step _ m _ r (in_progress w) complete done.1 done.3 x (completed r w refl)
]
perform-ByteStep m (split_call at v w) x h = elim (split_in_progress_lem m at v w h) [
  | inl refused ↦ refused_stays _ m _ _ x refused.1
  | inr (inl refused) ↦ refused_stays _ m _ _ x refused.2
  | inr (inr done) ↦
      assigned_step _ m _ (record { start = at; end = done.3.end }) (in_progress v) (in_progress w)
        done.3.owned done.3.assigned x (moved at v w refl)
]
perform-ByteStep m (abandon_call w) x h =
    freed_step m (perform m (abandon_call w)) w x (byte_state m.intervals x) refl
      ((abandon_lem m w h).0.bytes x)

pub complete_step :
    (c : Call) (old now : Option IntervalState)
    → ByteStep c old now
    → old ≡ some complete
    → now ≡ some complete
complete_step c old now (stays e) h = e ∙ h
complete_step c old now (granted r w e f g) h = absurd (ground arith)
complete_step c old now (moved at v w e f g) h = absurd (ground arith)
complete_step c old now (completed r w e f g) h = g
complete_step c old now (freed w e f g) h = absurd (ground arith)

-- Only `complete` completes a byte.
pub only_complete_step :
    (c : Call) (old now : Option IntervalState)
    → ((r : Range) (w : WorkerId) → c ≡ complete_call r w → ⊥)
    → ByteStep c old now
    → now ≡ some complete
    → old ≡ some complete
only_complete_step c old now other (stays e) h = sym e ∙ h
only_complete_step c old now other (granted r w e f g) h = absurd (ground arith)
only_complete_step c old now other (moved at v w e f g) h = absurd (ground arith)
only_complete_step c old now other (completed r w e f g) h = absurd (other r w e)
only_complete_step c old now other (freed w e f g) h = absurd (ground arith)

-- A byte that is complete stays complete, whatever is called afterwards.
pub complete_forever :
    (m : IntervalMap) (calls : List Call) (x : ℕ)
    → IsCanonical m
    → byte_state m.intervals x ≡ some complete
    → byte_state (perform_all m calls).intervals x ≡ some complete
complete_forever m [] x h e = e
complete_forever m (c ∷ calls) x h e =
    complete_forever (perform m c) calls x (perform-Kept m c h).canonical
      (complete_step c _ _ (perform-ByteStep m c x h) e)
