-- ===== src/Journal/State.antt =====
-- crates/downpour-storage/src/journal/state.rs: what a replayed sequence of records says.
pub mod Blocks
pub mod Survivors
pub mod Seal
use Prim.Native.String.{String}
use downpour.Prelude.{
  ℕ, suc, ◌+◌, Bool, true, false, not, ◌||◌, ◌&&◌, Option, none, some, List, [], ◌∷◌, ◌++◌, ltb,
  leb, ◌==◌, if◌then◌else◌, max_u64, length, Result, ok, err, ◌>>=◌, ◌>>◌,
}
use downpour.Journal.{
  Bytes, FileHeader, JournalRecord, block_complete, checkpoint, identity_update, truncate, sealed,
  FramedRecord,
}

pub record JournalStateError : Type 0 where
  pub detail : String

abbrev pub Folded : Type 0 → Type 0
Folded A = Result A JournalStateError

abbrev pub refuse {ℓ} : {A : Type ℓ} → String → Result A JournalStateError
refuse detail = err (record { detail = detail })

pub record CompletedBlock : Type 0 where
  pub offset : ℕ
  pub len : ℕ
  pub blake3 : Bytes

-- `self.offset.checked_add(self.len)`
abbrev pub end : CompletedBlock → Folded ℕ
end b =
    if ltb max_u64 (b.offset + b.len)
    then refuse "completed block end overflows u64"
    else ok (b.offset + b.len)

pub record EffectiveState : Type 0 where
  pub effective_length : ℕ
  pub last_truncate : Option ℕ
  pub identities : List Bytes
  pub blocks : List CompletedBlock
  pub seal : Option Bytes

-- `Vec::retain`
abbrev pub retain {ℓ} : {A : Type ℓ} → (A → Bool) → List A → List A
retain keep [] = []
retain keep (x ∷ xs) = let rest = retain keep xs in if keep x then x ∷ rest else rest

-- `block.end().is_ok_and(|end| end <= new_length)`
abbrev pub ends_by : ℕ → CompletedBlock → Bool
ends_by new_length b = elim (end b) [ ok e ↦ leb e new_length | err e ↦ false ]

abbrev pub is_some {ℓ} : {A : Type ℓ} → Option A → Bool
is_some none = false
is_some (some a) = true

-- One round of the loop, with the number of records and the index of this one.
unfoldable pub apply : ℕ → ℕ → EffectiveState → JournalRecord → Folded EffectiveState
apply count index st (block_complete offset len blake3) =
    let block : CompletedBlock = record { offset = offset; len = len; blake3 = blake3 } in
    if len == 0
    then refuse "completed block has zero length"
    else end block >>= λ e.
        if ltb st.effective_length e
        then refuse "completed block lies beyond the effective length"
        else ok (record st { blocks = st.blocks ++ block ∷ [] })
apply count index st (checkpoint covered_bytes wall_clock) = ok st
apply count index st (identity_update cbor) =
    ok (record st { identities = st.identities ++ cbor ∷ [] })
apply count index st (truncate new_length) =
    if ltb st.effective_length new_length
    then refuse "truncate increases the effective length"
    else ok (record st {
      effective_length = new_length;
      last_truncate = some new_length;
      blocks = retain (ends_by new_length) st.blocks;
    })
apply count index st (sealed final_blake3) =
    if is_some st.seal || not (index + 1 == count)
    then refuse "sealed record is not unique and final"
    else ok (record st { seal = some final_blake3 })

unfoldable pub apply_all : ℕ → ℕ → EffectiveState → List FramedRecord → Folded EffectiveState
apply_all count index st [] = ok st
apply_all count index st (framed ∷ rest) =
    apply count index st framed.record_ >>= λ next. apply_all count (suc index) next rest

-- `sort_by_key(|block| block.offset)`, which is stable.
unfoldable pub insert_by_offset : CompletedBlock → List CompletedBlock → List CompletedBlock
insert_by_offset b [] = b ∷ []
insert_by_offset b (c ∷ cs) =
    let rest = insert_by_offset b cs in if leb b.offset c.offset then b ∷ c ∷ cs else c ∷ rest

unfoldable pub sort_by_offset : List CompletedBlock → List CompletedBlock
unfolding insert_by_offset
sort_by_offset [] = []
sort_by_offset (b ∷ bs) = insert_by_offset b (sort_by_offset bs)

-- The loop over `windows(2)`.
unfoldable pub check_windows : List CompletedBlock → Folded (Unit {0})
check_windows [] = ok tt
check_windows (b ∷ []) = ok tt
check_windows (b ∷ c ∷ rest) = end b >>= λ previous_end.
    if ltb c.offset previous_end
    then refuse "surviving completed blocks overlap"
    else check_windows (c ∷ rest)

abbrev pub initial : FileHeader → EffectiveState
initial header = record {
  effective_length = header.total_length;
  last_truncate = none;
  identities = [];
  blocks = [];
  seal = none;
}

unfoldable pub effective_state : FileHeader → List FramedRecord → Folded EffectiveState
effective_state header records = apply_all (length records) 0 (initial header) records >>= λ st.
    let sorted = sort_by_offset st.blocks in
    check_windows sorted >> ok (record st { blocks = sorted })
