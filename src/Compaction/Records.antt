-- ===== src/Compaction/Records.antt =====
-- The fold of the replacement's records.

use downpour.Prelude.{
  ℕ, suc, ◌+◌, ◌≤◌, List, [], ◌∷◌, ◌++◌, append-nil, append_assoc, ◌≡◌, refl, sym, ap, ◌∙◌, arith,
  max_u64, length, All, ok,
}
use downpour.Journal.{Bytes, JournalRecord, identity_update, block_complete}
use downpour.Journal.State.{
  Folded, CompletedBlock, EffectiveState, apply, apply_all, insert_by_offset, sort_by_offset,
  check_windows,
}
use downpour.Journal.State.Blocks.{Within, Apart}
use downpour.Compaction.{identity_records, block_records, framed_from}

-- The loop on records that are numbered by their index.
abbrev pub fold_from : ℕ → ℕ → EffectiveState → List JournalRecord → Folded EffectiveState
fold_from count i st rs = apply_all count i st (framed_from i rs)

pub fold_from-cons :
    (count i : ℕ) (st next : EffectiveState) (r : JournalRecord) (rs : List JournalRecord)
    → apply count i st r ≡ ok next
    → fold_from count i st (r ∷ rs) ≡ fold_from count (suc i) next rs
unfolding apply_all framed_from
fold_from-cons count i st next r rs h = rw h refl

fold_from_eq :
    (count i j : ℕ) (st next : EffectiveState) (rs : List JournalRecord)
    → i ≡ j
    → st ≡ next
    → fold_from count i st rs ≡ fold_from count j next rs
fold_from_eq count i j st next rs p q = rw (p, q) refl

abbrev pub with_identities : EffectiveState → List Bytes → EffectiveState
with_identities st ids = record st { identities = ids }

abbrev pub with_blocks : EffectiveState → List CompletedBlock → EffectiveState
with_blocks st bs = record st { blocks = bs }

apply-identity :
    (count i : ℕ) (st : EffectiveState) (cbor : Bytes)
    → apply count i st (identity_update cbor) ≡ ok (with_identities st (st.identities ++ cbor ∷ []))
unfolding apply
apply-identity count i st cbor = refl

pub fold_from-identities :
    (count i : ℕ) (st : EffectiveState) (ids : List Bytes) (rest : List JournalRecord)
    → fold_from count i st (identity_records ids rest)
      ≡ fold_from count (i + length ids) (with_identities st (st.identities ++ ids)) rest
unfolding identity_records
fold_from-identities count i st [] rest =
    fold_from_eq count i (i + 0) st _ rest (omega arith)
      (ap (with_identities st) (sym (append-nil st.identities)))
fold_from-identities count i st (cbor ∷ ids) rest =
    fold_from-cons count i st _ (identity_update cbor) (identity_records ids rest)
      (apply-identity count i st cbor)
    ∙ fold_from-identities count (suc i) (with_identities st (st.identities ++ cbor ∷ [])) ids rest
    ∙ fold_from_eq count (suc i + length ids) (i + suc (length ids)) _ _ rest (omega arith)
        (ap (with_identities st) (append_assoc st.identities (cbor ∷ []) ids))

apply-block :
    (count i : ℕ) (st : EffectiveState) (b : CompletedBlock)
    → Within st.effective_length b
    → st.effective_length ≤ max_u64
    → apply count i st (block_complete b.offset b.len b.blake3)
      ≡ ok (with_blocks st (st.blocks ++ b ∷ []))
unfolding apply
apply-block count i st b w small = ground arith

pub fold_from-blocks :
    (count i : ℕ) (st : EffectiveState) (bs : List CompletedBlock) (rest : List JournalRecord)
    → All (Within st.effective_length) bs
    → st.effective_length ≤ max_u64
    → fold_from count i st (block_records bs rest)
      ≡ fold_from count (i + length bs) (with_blocks st (st.blocks ++ bs)) rest
unfolding block_records
fold_from-blocks count i st [] rest w small =
    fold_from_eq count i (i + 0) st _ rest (omega arith)
      (ap (with_blocks st) (sym (append-nil st.blocks)))
fold_from-blocks count i st (b ∷ bs) rest w small =
    fold_from-cons count i st _ (block_complete b.offset b.len b.blake3) (block_records bs rest)
      (apply-block count i st b w.0 small)
    ∙ fold_from-blocks count (suc i) (with_blocks st (st.blocks ++ b ∷ [])) bs rest w.1 small
    ∙ fold_from_eq count (suc i + length bs) (i + suc (length bs)) _ _ rest (omega arith)
        (ap (with_blocks st) (append_assoc st.blocks (b ∷ []) bs))

-- Sorted blocks stay where they are.
insert_by_offset-first :
    (b : CompletedBlock) (bs : List CompletedBlock)
    → All (λ c. b.offset + b.len ≤ c.offset) bs
    → insert_by_offset b bs ≡ b ∷ bs
unfolding insert_by_offset
insert_by_offset-first b [] h = refl
insert_by_offset-first b (c ∷ cs) h = ground arith

pub sort_by_offset-Apart : (bs : List CompletedBlock) → Apart bs → sort_by_offset bs ≡ bs
unfolding sort_by_offset
sort_by_offset-Apart [] h = refl
sort_by_offset-Apart (b ∷ bs) h = rw (sort_by_offset-Apart bs h.1) (insert_by_offset-first b bs h.0)

pub check_windows-Apart :
    (limit : ℕ) (bs : List CompletedBlock)
    → All (Within limit) bs
    → limit ≤ max_u64
    → Apart bs
    → check_windows bs ≡ ok tt
unfolding check_windows
check_windows-Apart limit [] w small h = refl
check_windows-Apart limit (b ∷ []) w small h = refl
check_windows-Apart limit (b ∷ c ∷ rest) w small h =
    let later = check_windows-Apart limit (c ∷ rest) w.1 small h.1 in ground arith
