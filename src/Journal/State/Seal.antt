-- ===== src/Journal/State/Seal.antt =====
-- When the fold reports a seal.
use downpour.Prelude.{
  ℕ, suc, ◌+◌, none, some, List, [], ◌∷◌, ◌≡◌, ◌≢◌, ◌↔◌, refl, arith, length, ok, ok-bind, ◌∙◌,
}
use downpour.Journal.{
  Bytes, FileHeader, JournalRecord, block_complete, checkpoint, identity_update, truncate, sealed,
  FramedRecord,
}
use downpour.Journal.State.{EffectiveState, apply, apply_all, initial, effective_state}
use downpour.Journal.State.Blocks.{Applied, apply-Applied, effective_state-ok}

abbrev NoSeal : JournalRecord → Type 0
NoSeal (sealed d) = ⊥
NoSeal _ = Unit

-- The last record, and no other, is a seal with this digest.
abbrev pub EndsSealed : Bytes → List FramedRecord → Type 0
EndsSealed d [] = ⊥
EndsSealed d (framed ∷ []) = framed.record_ ≡ sealed d
EndsSealed d (framed ∷ next ∷ rest) = NoSeal framed.record_ × EndsSealed d (next ∷ rest)

-- A round in front of another records no seal.
apply-NoSeal :
    (count index : ℕ) (st next : EffectiveState) (r : JournalRecord)
    → index + 1 ≢ count
    → Applied count index st r next
    → NoSeal r × (next.seal ≡ st.seal)
apply-NoSeal count index st next (block_complete a b d) early e = (tt, rw e.2 refl)
apply-NoSeal count index st next (checkpoint a b) early e = (tt, rw e refl)
apply-NoSeal count index st next (identity_update cbor) early e = (tt, rw e refl)
apply-NoSeal count index st next (truncate n) early e = (tt, rw e.1 refl)
apply-NoSeal count index st next (sealed d) early e = absurd (early e.1)

-- The last round reports the seal that it records.
apply-seal :
    (d : Bytes) (count index : ℕ) (st next : EffectiveState) (r : JournalRecord)
    → st.seal ≡ none
    → Applied count index st r next
    → (next.seal ≡ some d) ↔ (r ≡ sealed d)
apply-seal d count index st next (block_complete a b x) n e = rw e.2 (λ h. cc, λ h. cc)
apply-seal d count index st next (checkpoint a b) n e = rw e (λ h. cc, λ h. cc)
apply-seal d count index st next (identity_update cbor) n e = rw e (λ h. cc, λ h. cc)
apply-seal d count index st next (truncate x) n e = rw e.1 (λ h. cc, λ h. cc)
apply-seal d count index st next (sealed c) n e = rw e.2 (λ h. cc, λ h. cc)

apply_all-EndsSealed :
    (d : Bytes) (count index : ℕ) (st last : EffectiveState) (records : List FramedRecord)
    → count ≡ index + length records
    → st.seal ≡ none
    → apply_all count index st records ≡ ok last
    → (last.seal ≡ some d) ↔ EndsSealed d records
unfolding apply_all
apply_all-EndsSealed d count index st last [] c n h =
    let same : last ≡ st = cc in rw same (λ k. cc, λ k. absurd k)
apply_all-EndsSealed d count index st last (framed ∷ []) c n h =
    let (next, h₁, h₂) =
      ok-bind (apply count index st framed.record_) (λ next. apply_all count (suc index) next [])
        last h in
    let same : last ≡ next = cc in
    rw same (
      apply-seal d count index st next framed.record_ n
        (apply-Applied count index st next framed.record_ h₂))
apply_all-EndsSealed d count index st last (framed ∷ second ∷ rest) c n h =
    let (next, h₁, h₂) =
      ok-bind (apply count index st framed.record_)
        (λ next. apply_all count (suc index) next (second ∷ rest)) last h in
    let (no_seal, kept) =
      apply-NoSeal count index st next framed.record_ (omega arith)
        (apply-Applied count index st next framed.record_ h₂) in
    let later =
      apply_all-EndsSealed d count (suc index) next last (second ∷ rest) (omega arith) (kept ∙ n)
        h₁ in
    (λ k. (no_seal, later.0 k), λ k. later.1 k.1)

-- An accepted journal is reported as sealed with a digest exactly if its last record seals it with
-- that digest and no earlier record is a seal.
pub effective_state-EndsSealed :
    (header : FileHeader) (records : List FramedRecord) (st : EffectiveState) (d : Bytes)
    → effective_state header records ≡ ok st
    → (st.seal ≡ some d) ↔ EndsSealed d records
effective_state-EndsSealed header records st d h =
    let (last, e, _, same) = effective_state-ok header records st h in
    rw same
      (apply_all-EndsSealed d (length records) 0 (initial header) last records (omega arith) refl e)
