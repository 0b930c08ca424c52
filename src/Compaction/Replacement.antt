-- ===== src/Compaction/Replacement.antt =====
-- Compaction keeps what the journal says.
use downpour.Prelude.{
  ℕ, suc, ◌+◌, ◌≤◌, Option, none, some, List, [], ◌∷◌, ◌≡◌, refl, sym, ap, ◌∙◌, arith, max_u64,
  length, All, ok,
}
use downpour.Journal.{Bytes, FileHeader, JournalRecord, truncate, checkpoint, sealed, FramedRecord}
use downpour.Journal.State.{
  CompletedBlock, EffectiveState, apply, apply_all, initial, effective_state,
}
use downpour.Journal.State.Blocks.{Within, Apart, effective_state-blocks}
use downpour.Compaction.{
  identity_records, block_records, truncate_record, seal_record, semantic_records, framed_from,
}
use downpour.Compaction.Records.{
  fold_from, fold_from-cons, fold_from-identities, fold_from-blocks, sort_by_offset-Apart,
  check_windows-Apart, with_blocks,
}
use downpour.Compaction.Length.{last_length, effective_state-length}

length-framed_from : (n : ℕ) (rs : List JournalRecord) → length (framed_from n rs) ≡ length rs
unfolding framed_from
length-framed_from n [] = refl
length-framed_from n (r ∷ rs) = ap suc (length-framed_from (suc n) rs)

length-identity_records :
    (ids : List Bytes) (rest : List JournalRecord)
    → length (identity_records ids rest) ≡ length ids + length rest
unfolding identity_records
length-identity_records [] rest = omega arith
length-identity_records (c ∷ ids) rest = omega (arith, length-identity_records ids rest)

length-block_records :
    (bs : List CompletedBlock) (rest : List JournalRecord)
    → length (block_records bs rest) ≡ length bs + length rest
unfolding block_records
length-block_records [] rest = omega arith
length-block_records (b ∷ bs) rest = omega (arith, length-block_records bs rest)

-- A state without blocks and seal, of the given length.
abbrev before_blocks : ℕ → Option ℕ → List Bytes → EffectiveState
before_blocks n last ids = record {
  effective_length = n;
  last_truncate = last;
  identities = ids;
  blocks = [];
  seal = none;
}

abbrev truncate_count : Option ℕ → ℕ
truncate_count none = 0
truncate_count (some n) = 1

apply-truncate :
    (count i total n : ℕ) (ids : List Bytes)
    → n ≤ total
    → apply count i (before_blocks total none ids) (truncate n) ≡ ok (before_blocks n (some n) ids)
unfolding apply
apply-truncate count i total n ids h = ground arith

fold_from-truncate :
    (count i total : ℕ) (last : Option ℕ) (ids : List Bytes) (rest : List JournalRecord)
    → last_length total last ≤ total
    → fold_from count i (before_blocks total none ids) (truncate_record last rest)
      ≡ fold_from count
          (i + truncate_count last)
          (before_blocks (last_length total last) last ids)
          rest
fold_from-truncate count i total none ids rest h =
    ap (λ k. fold_from count k (before_blocks total none ids) rest) (omega arith)
fold_from-truncate count i total (some n) ids rest h =
    fold_from-cons count i (before_blocks total none ids) (before_blocks n (some n) ids)
      (truncate n) rest (apply-truncate count i total n ids h)
    ∙ ap (λ k. fold_from count k (before_blocks n (some n) ids) rest) (omega arith)

apply-checkpoint :
    (count i a b : ℕ) (st : EffectiveState) → apply count i st (checkpoint a b) ≡ ok st
unfolding apply
apply-checkpoint count i a b st = refl

abbrev with_seal : EffectiveState → Option Bytes → EffectiveState
with_seal st seal = record st { seal = seal }

apply-sealed :
    (count i : ℕ) (st : EffectiveState) (d : Bytes)
    → st.seal ≡ none
    → i + 1 ≡ count
    → apply count i st (sealed d) ≡ ok (with_seal st (some d))
unfolding apply
apply-sealed count i st d h k = ground arith

fold_from-nil : (count i : ℕ) (st : EffectiveState) → fold_from count i st [] ≡ ok st
unfolding apply_all framed_from
fold_from-nil count i st = refl

-- The seal is the last record.
fold_from-seal :
    (count i : ℕ) (st : EffectiveState) (seal : Option Bytes)
    → st.seal ≡ none
    → i + length (seal_record seal) ≡ count
    → fold_from count i st (seal_record seal) ≡ ok (with_seal st seal)
fold_from-seal count i st none h k = fold_from-nil count i st ∙ ap (λ s. ok (with_seal st s)) h
fold_from-seal count i st (some d) h k =
    fold_from-cons count i st (with_seal st (some d)) (sealed d) []
      (apply-sealed count i st d h (omega (arith, k)))
    ∙ fold_from-nil count (suc i) (with_seal st (some d))

module _ (header : FileHeader) (records : List FramedRecord) (st : EffectiveState)
    (merged : List CompletedBlock) (covered clock : ℕ) where
  abbrev rest_records : List JournalRecord
  rest_records = checkpoint covered clock ∷ block_records merged (seal_record st.seal)

  abbrev replaced : List JournalRecord
  replaced = semantic_records st merged covered clock

  length-truncate_record :
      (last : Option ℕ) (rest : List JournalRecord)
      → length (truncate_record last rest) ≡ truncate_count last + length rest
  length-truncate_record none rest = omega arith
  length-truncate_record (some n) rest = omega arith

  length-replaced :
      length replaced
      ≡ length st.identities
        + truncate_count st.last_truncate
        + 1
        + length merged
        + length (seal_record st.seal)
  length-replaced = omega (
    arith,
    length-identity_records st.identities (truncate_record st.last_truncate rest_records),
    length-truncate_record st.last_truncate rest_records,
    length-block_records merged (seal_record st.seal),
  )

  abbrev rebuilt_state : EffectiveState
  rebuilt_state = with_blocks st merged

  fold_from-replaced :
      (count : ℕ)
      → st.effective_length ≡ last_length header.total_length st.last_truncate
      → st.effective_length ≤ header.total_length
      → header.total_length ≤ max_u64
      → All (Within st.effective_length) merged
      → length replaced ≡ count
      → fold_from count 0 (initial header) replaced ≡ ok rebuilt_state
  fold_from-replaced count same shorter small w all =
      let total = header.total_length in
      let last = st.last_truncate in
      let ids = st.identities in
      let cut = before_blocks (last_length total last) last ids in
      let i : ℕ = 0 + length ids in
      let k : ℕ = i + truncate_count last in
      fold_from-identities count 0 (initial header) ids (truncate_record last rest_records)
      ∙ fold_from-truncate count i total last ids rest_records (omega (arith, same, shorter))
      ∙ fold_from-cons count k cut cut (checkpoint covered clock)
          (block_records merged (seal_record st.seal)) (apply-checkpoint count k covered clock cut)
      ∙ fold_from-blocks count (suc k) cut merged (seal_record st.seal) (rw (sym same) w)
          (omega (arith, same, shorter, small))
      ∙ fold_from-seal count (suc k + length merged) (with_blocks cut merged) st.seal refl
          (omega (arith, length-replaced, all))
      ∙ ap
          (λ n. ok (record {
            effective_length = n;
            last_truncate = last;
            identities = ids;
            blocks = merged;
            seal = st.seal;
          }))
          (sym same)

  -- Let the fold of a journal whose header has a length of 64 bits answer a state, and let blocks be
  -- given that hold bytes, lie within the effective length and are sorted and apart. Then the fold of
  -- the replacement's records, whatever the checkpoint says, answers the same effective length, last
  -- truncation, identities and seal, with these blocks.
  pub effective_state-semantic_records :
      header.total_length ≤ max_u64
      → effective_state header records ≡ ok st
      → All (Within st.effective_length) merged
      → Apart merged
      → effective_state header (framed_from 0 (semantic_records st merged covered clock))
        ≡ ok (record st { blocks = merged })
  unfolding effective_state
  effective_state-semantic_records small h w apart =
      let (_, _, shorter) = effective_state-blocks header records st h in
      let same = effective_state-length header records st h in
      let folds =
        fold_from-replaced (length (framed_from 0 replaced)) same shorter small w
          (sym (length-framed_from 0 replaced)) in
      rw (
        folds,
        sort_by_offset-Apart merged apart,
        check_windows-Apart st.effective_length merged w (omega (arith, shorter, small)) apart,
      )
