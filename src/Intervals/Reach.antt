-- ===== src/Intervals/Reach.antt =====
-- Every map that the public operations can lead to, in any order and with any arguments.
use mathlib.Core.Path.{subst}
use downpour.Prelude.{
  some, get_elem?, within, ℕ, List, [], ◌∷◌, ◌≡◌, refl, sym, arith, ◌∙◌, inl, inr, true, Result, ok,
  err,
}
use downpour.Intervals.{
  Interval, IntervalMap, IntervalState, IntervalMapError, Range, WorkerId, Mutation, new, grant,
  complete_range, split_in_progress, abandon, invariants_hold,
}
use downpour.Intervals.Partition.{IsCanonical, new-IsCanonical, invariants_hold_iff}
use downpour.Intervals.Assign.{Assigned, grant_lem, complete_range_lem}
use downpour.Intervals.Unique.{no_shared_byte}
use downpour.Intervals.Split.{split_in_progress_lem}
use downpour.Intervals.Abandon.{abandon_lem}

-- One call of the public interface.
pub data Call : Type 0 where
  grant_call : Range → WorkerId → Call
  split_call : ℕ → WorkerId → WorkerId → Call
  complete_call : Range → WorkerId → Call
  abandon_call : WorkerId → Call

-- The map that the call leaves.
abbrev pub perform : IntervalMap → Call → IntervalMap
perform m (grant_call r w) = (grant m r w).1
perform m (split_call at source recipient) = (split_in_progress m at source recipient).1
perform m (complete_call r w) = (complete_range m r w).1
perform m (abandon_call w) = (abandon m w).1

abbrev pub perform_all : IntervalMap → List Call → IntervalMap
perform_all m [] = m
perform_all m (c ∷ calls) = perform_all (perform m c) calls

pub record Kept (before after : IntervalMap) : Type 0 where
  pub same_length : after.total_length ≡ before.total_length
  pub canonical : IsCanonical after

Kept-refl : (m : IntervalMap) → IsCanonical m → Kept m m
Kept-refl m h = record { same_length = refl; canonical = h }

-- A call that was refused left the map as it was.
Kept-refused :
    (m : IntervalMap) (call : Mutation) (e : IntervalMapError)
    → IsCanonical m
    → call ≡ (err e, m)
    → Kept m call.1
Kept-refused m call e h same = subst (λ (c : Mutation). Kept m c.1) (sym same) (Kept-refl m h)

Assigned-Kept : (m n : IntervalMap) (r : Range) (s : IntervalState) → Assigned m r s n → Kept m n
Assigned-Kept m n r s a = record { same_length = a.same_length; canonical = a.canonical }

pub perform-Kept : (m : IntervalMap) (c : Call) → IsCanonical m → Kept m (perform m c)
perform-Kept m (grant_call r w) h = elim (grant_lem m r w h) [
  | inl refused ↦ Kept-refused m _ _ h refused.1
  | inr (inl refused) ↦ Kept-refused m _ _ h refused.2
  | inr (inr granted) ↦ Assigned-Kept m _ r _ granted.3
]
perform-Kept m (complete_call r w) h = elim (complete_range_lem m r w h) [
  | inl refused ↦ Kept-refused m _ _ h refused.1
  | inr (inl refused) ↦ Kept-refused m _ _ h refused.2
  | inr (inr completed) ↦ Assigned-Kept m _ r _ completed.3
]
perform-Kept m (split_call at v w) h = elim (split_in_progress_lem m at v w h) [
  | inl refused ↦ Kept-refused m _ _ h refused.1
  | inr (inl refused) ↦ Kept-refused m _ _ h refused.2
  | inr (inr split) ↦ Assigned-Kept m _ _ _ split.3.assigned
]
perform-Kept m (abandon_call w) h =
    let freed = (abandon_lem m w h).0 in
    record { same_length = freed.same_length; canonical = freed.canonical }

pub perform_all-Kept :
    (m : IntervalMap) (calls : List Call) → IsCanonical m → Kept m (perform_all m calls)
perform_all-Kept m [] h = Kept-refl m h
perform_all-Kept m (c ∷ calls) h =
    let first = perform-Kept m c h in
    let rest = perform_all-Kept (perform m c) calls first.canonical in
    record { same_length = rest.same_length ∙ first.same_length; canonical = rest.canonical }

-- From a fresh map of any length, any calls with any arguments, refused or not, lead to a map on
-- which `invariants_hold` answers true, and the length is still the first one.
pub reachable_invariants :
    (n : ℕ) (calls : List Call)
    → (invariants_hold (perform_all (new n) calls) ≡ true)
      × ((perform_all (new n) calls).total_length ≡ n)
reachable_invariants n calls =
    let kept = perform_all-Kept (new n) calls (new-IsCanonical n) in
    ((invariants_hold_iff _).1 kept.canonical, kept.same_length ∙ unfold new in refl)

-- From a fresh map, after any calls, two stored intervals that share a byte are one: no byte has two
-- owners.
pub one_owner :
    (n : ℕ) (calls : List Call) (p q x : ℕ) (i j : Interval)
    → get_elem? (perform_all (new n) calls).intervals p ≡ some i
    → get_elem? (perform_all (new n) calls).intervals q ≡ some j
    → within i.start i.end x ≡ true
    → within j.start j.end x ≡ true
    → p ≡ q
one_owner n calls p q x i j =
    no_shared_byte (perform_all (new n) calls) p q x i j
      (perform_all-Kept (new n) calls (new-IsCanonical n)).canonical

-- What the call returns; `abandon` has no error.
abbrev pub outcome : IntervalMap → Call → Result (Unit {0}) IntervalMapError
outcome m (grant_call r w) = (grant m r w).0
outcome m (split_call at v w) = (split_in_progress m at v w).0
outcome m (complete_call r w) = (complete_range m r w).0
outcome m (abandon_call w) = ok tt

-- Mutations are atomic: a call that returns an error leaves any map, canonical or not, as it was.
pub error_changes_nothing :
    (m : IntervalMap) (c : Call) (e : IntervalMapError) → outcome m c ≡ err e → perform m c ≡ m
unfolding grant complete_range split_in_progress
error_changes_nothing m (grant_call r w) e h = ground arith
error_changes_nothing m (complete_call r w) e h = ground arith
error_changes_nothing m (split_call at v w) e h = ground arith
error_changes_nothing m (abandon_call w) e h = cc
