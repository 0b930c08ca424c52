-- ===== src/Journal/State/Blocks.antt =====
-- The completed blocks of an effective state lie apart and in bounds.
use downpour.Prelude.{
  ℕ, suc, ◌+◌, ◌≤◌, ◌<◌, none, some, List, [], ◌∷◌, ◌++◌, ◌≡◌, refl, arith, inl, inr, ltb, leb,
  if◌then◌else◌, length, All, Bool-cases, ok, err, ◌>>◌, ok-bind,
}
use downpour.Text.Decimal.{All-append}
use downpour.Journal.{
  FileHeader, JournalRecord, block_complete, checkpoint, identity_update, truncate, sealed,
  FramedRecord,
}
use downpour.Journal.State.{
  Folded, refuse, CompletedBlock, end, EffectiveState, retain, ends_by, apply, apply_all,
  insert_by_offset, sort_by_offset, check_windows, initial, effective_state,
}

-- A block of at least one byte that ends by the limit.
abbrev pub Within : ℕ → CompletedBlock → Type 0
Within limit b = (0 < b.len) × (b.offset + b.len ≤ limit)

-- Every block ends before the ones behind it start.
abbrev pub Apart : List CompletedBlock → Type 0
Apart [] = Unit
Apart (b ∷ bs) = All (λ c. b.offset + b.len ≤ c.offset) bs × Apart bs

-- Blocks and length of a state in the fold.
abbrev pub InBounds : ℕ → EffectiveState → Type 0
InBounds total st = All (Within st.effective_length) st.blocks × (st.effective_length ≤ total)

retain-Within :
    (limit new_length : ℕ) (bs : List CompletedBlock)
    → All (Within limit) bs
    → All (Within new_length) (retain (ends_by new_length) bs)
retain-Within limit new_length [] h = tt
retain-Within limit new_length (b ∷ bs) h =
    let rest = retain-Within limit new_length bs h.1 in ground arith

-- What a round that is not refused has found and done.
abbrev pub Applied : ℕ → ℕ → EffectiveState → JournalRecord → EffectiveState → Type 0
Applied count index st (block_complete offset len blake3) next =
    (0 < len)
    × (offset + len ≤ st.effective_length)
    × (next ≡ record st {
      blocks = st.blocks ++ record { offset = offset; len = len; blake3 = blake3 } ∷ [];
    })
Applied count index st (checkpoint covered_bytes wall_clock) next = next ≡ st
Applied count index st (identity_update cbor) next =
    next ≡ record st { identities = st.identities ++ cbor ∷ [] }
Applied count index st (truncate new_length) next =
    (new_length ≤ st.effective_length)
    × (next ≡ record st {
      effective_length = new_length;
      last_truncate = some new_length;
      blocks = retain (ends_by new_length) st.blocks;
    })
Applied count index st (sealed final_blake3) next =
    (st.seal ≡ none) × (index + 1 ≡ count) × (next ≡ record st { seal = some final_blake3 })

pub apply-Applied :
    (count index : ℕ) (st next : EffectiveState) (r : JournalRecord)
    → apply count index st r ≡ ok next
    → Applied count index st r next
unfolding apply
apply-Applied count index st next (block_complete offset len blake3) e = ground arith
apply-Applied count index st next (checkpoint a b) e = cc
apply-Applied count index st next (identity_update cbor) e = cc
apply-Applied count index st next (truncate new_length) e = ground arith
apply-Applied count index st next (sealed d) e = ground arith

apply-InBounds :
    (count index total : ℕ) (st next : EffectiveState) (r : JournalRecord)
    → InBounds total st
    → Applied count index st r next
    → InBounds total next
apply-InBounds count index total st next (block_complete offset len blake3) h e =
    rw e.2 (All-append (Within st.effective_length) st.blocks _ h.0 ((e.0, e.1), tt), h.1)
apply-InBounds count index total st next (checkpoint a b) h e = rw e h
apply-InBounds count index total st next (identity_update cbor) h e = rw e h
apply-InBounds count index total st next (truncate new_length) h e =
    rw e.1 (retain-Within st.effective_length new_length st.blocks h.0, omega arith)
apply-InBounds count index total st next (sealed d) h e = rw e.2 h

apply_all-InBounds :
    (count index total : ℕ) (st last : EffectiveState) (records : List FramedRecord)
    → InBounds total st
    → apply_all count index st records ≡ ok last
    → InBounds total last
unfolding apply_all
apply_all-InBounds count index total st last [] h e = let same : last ≡ st = cc in rw same h
apply_all-InBounds count index total st last (framed ∷ rest) h e =
    let (next, e₁, e₂) =
      ok-bind (apply count index st framed.record_) (λ next. apply_all count (suc index) next rest)
        last e in
    apply_all-InBounds count (suc index) total next last rest
      (apply-InBounds count index total st next framed.record_ h
        (apply-Applied count index st next framed.record_ e₂))
      e₁

-- Sorting keeps what holds of every block.
pub insert_by_offset-All {κ} :
    (P : CompletedBlock → Type κ) (b : CompletedBlock) (bs : List CompletedBlock)
    → P b
    → All P bs
    → All P (insert_by_offset b bs)
unfolding insert_by_offset
insert_by_offset-All P b [] p h = (p, tt)
insert_by_offset-All P b (c ∷ cs) p h = elim (Bool-cases (leb b.offset c.offset)) [
  | inl le ↦ rw le (p, h)
  | inr gt ↦ rw gt (h.0, insert_by_offset-All P b cs p h.1)
]

sort_by_offset-All {κ} :
    (P : CompletedBlock → Type κ) (bs : List CompletedBlock) → All P bs → All P (sort_by_offset bs)
unfolding sort_by_offset
sort_by_offset-All P [] h = tt
sort_by_offset-All P (b ∷ bs) h =
    insert_by_offset-All P b (sort_by_offset bs) h.0 (sort_by_offset-All P bs h.1)

-- Blocks behind one that ends before them start later still.
before-All :
    (start : ℕ) (c : CompletedBlock) (cs : List CompletedBlock)
    → start ≤ c.offset
    → All (λ d. c.offset + c.len ≤ d.offset) cs
    → All (λ d. start ≤ d.offset) cs
before-All start c [] h k = tt
before-All start c (d ∷ ds) h k = (omega (arith, k.0), before-All start c ds h k.1)

check_windows-Apart : (bs : List CompletedBlock) → check_windows bs ≡ ok tt → Apart bs
unfolding check_windows
check_windows-Apart [] h = tt
check_windows-Apart (b ∷ []) h = (tt, tt)
check_windows-Apart (b ∷ c ∷ rest) h =
    let (e, h₁, h₂) =
      ok-bind (end b)
        (λ e.
          if ltb c.offset e
          then refuse "surviving completed blocks overlap"
          else check_windows (c ∷ rest))
        tt h in
    let (apart, tail_ok) : (b.offset + b.len ≤ c.offset) × (check_windows (c ∷ rest) ≡ ok tt) =
      ground arith in
    let tail = check_windows-Apart (c ∷ rest) tail_ok in
    ((apart, before-All (b.offset + b.len) c rest apart tail.0), tail)

ok-then :
    (first : Folded (Unit {0})) (answer b : EffectiveState)
    → first >> ok answer ≡ ok b
    → (first ≡ ok tt) × (b ≡ answer)
ok-then (ok tt) answer b e = (refl, cc)
ok-then (err x) answer b e = cc

-- The stages of an accepted fold.
pub effective_state-ok :
    (header : FileHeader) (records : List FramedRecord) (st : EffectiveState)
    → effective_state header records ≡ ok st
    → (last : EffectiveState) × (apply_all (length records) 0 (initial header) records ≡ ok last)
      × (check_windows (sort_by_offset last.blocks) ≡ ok tt)
      × (st ≡ record last { blocks = sort_by_offset last.blocks })
unfolding effective_state
effective_state-ok header records st h =
    let (last, h₁, e) =
      ok-bind (apply_all (length records) 0 (initial header) records)
        (λ last.
          check_windows (sort_by_offset last.blocks)
          >> ok (record last { blocks = sort_by_offset last.blocks }))
        st h in
    let (windows, same) = ok-then (check_windows (sort_by_offset last.blocks)) _ st h₁ in
    (last, e, windows, same)

-- What the fold of an accepted journal answers: its completed blocks hold at least one byte each,
-- lie within the effective length and are sorted with none overlapping another, and the effective
-- length is at most the header's.
pub effective_state-blocks :
    (header : FileHeader) (records : List FramedRecord) (st : EffectiveState)
    → effective_state header records ≡ ok st
    → All (Within st.effective_length) st.blocks
      × Apart st.blocks
      × (st.effective_length ≤ header.total_length)
effective_state-blocks header records st h =
    let (last, e, windows, same) = effective_state-ok header records st h in
    let bounds =
      apply_all-InBounds (length records) 0 header.total_length (initial header) last records
        (tt, omega arith) e in
    rw same (
      sort_by_offset-All (Within last.effective_length) last.blocks bounds.0,
      check_windows-Apart (sort_by_offset last.blocks) windows,
      bounds.1,
    )

pub All-from_zero : (bs : List CompletedBlock) → All (λ b. 0 ≤ b.offset) bs
All-from_zero [] = tt
All-from_zero (b ∷ bs) = (omega arith, All-from_zero bs)
