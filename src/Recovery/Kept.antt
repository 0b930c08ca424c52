-- ===== src/Recovery/Kept.antt =====
-- From the fold's blocks to the rebuilt map.
use mathlib.Core.Path.{subst}
use downpour.Prelude.{
  ℕ, ◌+◌, ◌≤◌, ◌<◌, Bool, true, false, ◌||◌, Option, some, List, [], ◌∷◌, ◌≡◌, ◌⊎◌, refl, ap, ◌∙◌,
  arith, inl, inr, Bool-cases, within, if◌then◌else◌, ltb, max_u64, All, In, here, there, ok,
}
use downpour.Intervals.{IntervalMap, IntervalState, Range, pending, complete, new}
use downpour.Intervals.Partition.{IsCanonical, byte_state, byte_state_outside_high, new-IsCanonical}
use downpour.Journal.{FileHeader, FramedRecord}
use downpour.Journal.State.{CompletedBlock, EffectiveState, retain, ends_by, effective_state}
use downpour.Journal.State.Blocks.{All-from_zero, Apart, effective_state-blocks}
use downpour.Recovery.{merge_adjacent, rebuild}
use downpour.Recovery.Merge.{in_blocks, total_len, merge_blocks-Merged}
use downpour.Recovery.Rebuild.{rebuild-Rebuilt, new_pending}

retain-All {κ} :
    (P : CompletedBlock → Type κ) (keep : CompletedBlock → Bool) (bs : List CompletedBlock)
    → All P bs
    → All P (retain keep bs)
retain-All P keep [] h = tt
retain-All P keep (b ∷ bs) h = elim (Bool-cases (keep b)) [
  | inl kept ↦ rw kept (h.0, retain-All P keep bs h.1)
  | inr dropped ↦ rw dropped (retain-All P keep bs h.1)
]

retain-Apart :
    (keep : CompletedBlock → Bool) (bs : List CompletedBlock) → Apart bs → Apart (retain keep bs)
retain-Apart keep [] h = tt
retain-Apart keep (b ∷ bs) h = elim (Bool-cases (keep b)) [
  | inl kept ↦ rw kept (retain-All _ keep bs h.0, retain-Apart keep bs h.1)
  | inr dropped ↦ rw dropped (retain-Apart keep bs h.1)
]

-- The blocks that the file still holds, and the map that is rebuilt from them.
pub record Recovery (st : EffectiveState) (observed : ℕ) : Type 0 where
  pub merged : List Range
  pub rebuilt_map : IntervalMap
  pub covered : ℕ
  pub merges : merge_adjacent (retain (ends_by observed) st.blocks) ≡ ok merged
  pub rebuilds : rebuild (new st.effective_length) 0 merged ≡ ok (rebuilt_map, covered)
  pub canonical : IsCanonical rebuilt_map
  pub same_length : rebuilt_map.total_length ≡ st.effective_length
  pub counted : covered ≡ total_len (retain (ends_by observed) st.blocks)
  pub bytes :
      (x : ℕ)
      → x < st.effective_length
      → byte_state rebuilt_map.intervals x
        ≡ some (if in_blocks x (retain (ends_by observed) st.blocks) then complete else pending)

new_length : (n : ℕ) → (new n).total_length ≡ n
unfolding new
new_length n = refl

picked :
    (a b : Bool) (o : Option IntervalState)
    → a ≡ b
    → o ≡ some pending
    → (if a then some complete else o) ≡ some (if b then complete else pending)
picked true true o h k = refl
picked true false o h k = cc
picked false true o h k = cc
picked false false o h k = k

-- The blocks that the fold of an accepted journal answers, of which recovery keeps those that end
-- within the length that the part file was found with, can always be merged and the interval map
-- rebuilt from them, for a header length of 64 bits: the map is canonical and of the effective length,
-- exactly the bytes of the kept blocks are complete and all others pending, and the covered bytes are
-- the sum of the kept blocks' lengths.
pub effective_state-Recovery :
    (header : FileHeader) (records : List FramedRecord) (st : EffectiveState) (observed : ℕ)
    → header.total_length ≤ max_u64
    → effective_state header records ≡ ok st
    → Recovery st observed
effective_state-Recovery header records st observed small e =
    let (held, apart, shorter) = effective_state-blocks header records st e in
    let kept = retain (ends_by observed) st.blocks in
    let (merged, merges, m) =
      merge_blocks-Merged 0 0 st.effective_length [] kept (omega (arith, small, shorter))
        (omega arith) (omega arith) (All-from_zero kept)
        (retain-All _ (ends_by observed) st.blocks held)
        (retain-Apart (ends_by observed) st.blocks apart) in
    let length_new = new_length st.effective_length in
    let (next, sum, rebuilds, r) =
      rebuild-Rebuilt (new st.effective_length) 0 0 m.top merged
        (new-IsCanonical st.effective_length) m.chain (omega (arith, m.below, length_new))
        (omega (arith, small, shorter, length_new)) (omega arith)
        (λ x lo hi. new_pending st.effective_length x (omega (arith, hi, length_new))) in
    record {
      merged = merged;
      rebuilt_map = next;
      covered = sum;
      merges = merges;
      rebuilds = rebuilds;
      canonical = r.canonical;
      same_length = r.same_length ∙ length_new;
      counted = omega (arith, r.counted, m.size);
      bytes = λ x hi. r.bytes x ∙ picked _ _ _ (m.bytes x) (new_pending st.effective_length x hi);
    }

-- A byte that is complete in the rebuilt map is in the file, and a kept block holds it.
pub record KeptBlock (bs : List CompletedBlock) (observed x : ℕ) : Type 0 where
  pub block : CompletedBlock
  pub recorded : In block bs
  pub in_block : within block.offset (block.offset + block.len) x ≡ true
  pub in_file : block.offset + block.len ≤ observed

ends_by-le :
    (observed : ℕ) (b : CompletedBlock) → ends_by observed b ≡ true → b.offset + b.len ≤ observed
ends_by-le observed b h = ground arith

later_block :
    (b : CompletedBlock) (bs : List CompletedBlock) (observed x : ℕ)
    → KeptBlock bs observed x
    → KeptBlock (b ∷ bs) observed x
later_block b bs observed x k = record {
  block = k.block;
  recorded = there k.recorded;
  in_block = k.in_block;
  in_file = k.in_file;
}

kept_block :
    (observed x : ℕ) (bs : List CompletedBlock)
    → in_blocks x (retain (ends_by observed) bs) ≡ true
    → KeptBlock bs observed x
kept_block observed x [] h = cc
kept_block observed x (b ∷ bs) h = elim (Bool-cases (ends_by observed b)) [
  | inr dropped ↦ later_block b bs observed x (kept_block observed x bs (rw dropped at h))
  | inl kept ↦
      let either : within b.offset (b.offset + b.len) x
            || in_blocks x (retain (ends_by observed) bs)
          ≡ true =
        rw kept at h in
      elim (Bool-cases (within b.offset (b.offset + b.len) x)) [
        | inl inside ↦ record {
          block = b;
          recorded = here refl;
          in_block = inside;
          in_file = ends_by-le observed b kept;
        }
        | inr outside ↦
            later_block b bs observed x (kept_block observed x bs (rw outside at either))
      ]
]

pub Recovery-settled :
    (st : EffectiveState) (observed : ℕ) (k : Recovery st observed) (x : ℕ)
    → x < k.rebuilt_map.total_length
    → (byte_state k.rebuilt_map.intervals x ≡ some pending)
      ⊎ (byte_state k.rebuilt_map.intervals x ≡ some complete)
Recovery-settled st observed k x inside =
    let e = k.bytes x (subst (λ n. x < n) k.same_length inside) in
    elim (Bool-cases (in_blocks x (retain (ends_by observed) st.blocks))) [
      | inl held ↦ inr (e ∙ ap (λ t. some (if t then complete else pending)) held)
      | inr free ↦ inl (e ∙ ap (λ t. some (if t then complete else pending)) free)
    ]

pub Recovery-KeptBlock :
    (st : EffectiveState) (observed : ℕ) (k : Recovery st observed) (x : ℕ)
    → byte_state k.rebuilt_map.intervals x ≡ some complete
    → KeptBlock st.blocks observed x
Recovery-KeptBlock st observed k x h = elim (Bool-cases (ltb x k.rebuilt_map.total_length)) [
  | inr outside ↦
      let e =
        byte_state_outside_high 0 k.rebuilt_map.intervals k.rebuilt_map.total_length x
          k.canonical.covers (beyond x k.rebuilt_map.total_length outside) in
      cc
  | inl inside ↦ elim (Bool-cases (in_blocks x (retain (ends_by observed) st.blocks))) [
    | inl held ↦ kept_block observed x st.blocks held
    | inr free ↦
        let e =
          k.bytes x (
            subst (λ n. x < n) k.same_length (within_length x k.rebuilt_map.total_length inside)) in
        let pending_state = ap (λ t. some (if t then complete else pending)) free in cc
  ]
]
  where
    beyond : (a b : ℕ) → ltb a b ≡ false → b ≤ a
    beyond a b h = ground arith

    within_length : (a b : ℕ) → ltb a b ≡ true → a < b
    within_length a b h = ground arith
