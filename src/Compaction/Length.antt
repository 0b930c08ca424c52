-- ===== src/Compaction/Length.antt =====
-- The effective length is the last truncation's, or the header's.
use downpour.Prelude.{
  ℕ, suc, Option, none, some, List, [], ◌∷◌, ◌≡◌, refl, sym, length, ok, ok-bind, ok-injective,
}
use downpour.Journal.{
  FileHeader, JournalRecord, identity_update, truncate, checkpoint, block_complete, sealed,
  FramedRecord,
}
use downpour.Journal.State.{EffectiveState, apply, apply_all, initial, effective_state}
use downpour.Journal.State.Blocks.{Applied, apply-Applied, effective_state-ok}

abbrev pub last_length : ℕ → Option ℕ → ℕ
last_length total none = total
last_length total (some n) = n

abbrev IsLast : ℕ → EffectiveState → Type 0
IsLast total st = st.effective_length ≡ last_length total st.last_truncate

apply-IsLast :
    (count index total : ℕ) (st next : EffectiveState) (r : JournalRecord)
    → Applied count index st r next
    → IsLast total st
    → IsLast total next
apply-IsLast count index total st next (block_complete offset len blake3) a h = rw (a.2) h
apply-IsLast count index total st next (checkpoint a b) e h = rw e h
apply-IsLast count index total st next (identity_update cbor) e h = rw e h
apply-IsLast count index total st next (truncate n) a h = rw (a.1) refl
apply-IsLast count index total st next (sealed d) a h = rw (a.2) h

apply_all-IsLast :
    (count index total : ℕ) (st last : EffectiveState) (rs : List FramedRecord)
    → apply_all count index st rs ≡ ok last
    → IsLast total st
    → IsLast total last
unfolding apply_all
apply_all-IsLast count index total st last [] e h = rw (ok-injective last st (sym e)) h
apply_all-IsLast count index total st last (f ∷ fs) e h =
    let (next, rest, first) =
      ok-bind (apply count index st f.record_) (λ n. apply_all count (suc index) n fs) last e in
    apply_all-IsLast count (suc index) total next last fs rest (
      apply-IsLast count index total st next f.record_
        (apply-Applied count index st next f.record_ first) h)

pub effective_state-length :
    (header : FileHeader) (records : List FramedRecord) (st : EffectiveState)
    → effective_state header records ≡ ok st
    → st.effective_length ≡ last_length header.total_length st.last_truncate
effective_state-length header records st h =
    let (last, e, _, same) = effective_state-ok header records st h in
    rw same
      (apply_all-IsLast (length records) 0 header.total_length (initial header) last records e refl)
