-- ===== src/Tests/Journal.antt =====
-- A journal of four records: two blocks, a truncation through the second one, and a seal.
use downpour.Prelude.{◌≡◌, ◌↔◌, ◌≤◌, refl, arith, ℕ, some, List, [], ◌∷◌, ok, All, In}
use downpour.Journal.{FileHeader, JournalRecord, block_complete, truncate, sealed, FramedRecord}
use downpour.Journal.State.{
  apply, apply_all, sort_by_offset, insert_by_offset, check_windows, CompletedBlock, EffectiveState,
  effective_state, refuse,
}
use downpour.Journal.State.Blocks.{Within, Apart, effective_state-blocks}
use downpour.Journal.State.Survivors.{Survives, effective_state-Survives}
use downpour.Journal.State.Seal.{EndsSealed, effective_state-EndsSealed}

abbrev file_header : FileHeader
file_header = record { transfer_id = []; total_length = 100; block_size = 10; validator_hash = [] }

abbrev framed : ℕ → JournalRecord → FramedRecord
framed sequence r = record { sequence = sequence; record_ = r }

abbrev journal : List FramedRecord
journal =
    framed 0 (block_complete 40 20 (2 ∷ []))
    ∷ framed 1 (block_complete 0 10 (1 ∷ []))
    ∷ framed 2 (block_complete 10 10 (3 ∷ []))
    ∷ framed 3 (truncate 50)
    ∷ framed 4 (sealed (9 ∷ []))
    ∷ []

abbrev front : CompletedBlock
front = record { offset = 0; len = 10; blake3 = 1 ∷ [] }

abbrev outcome : EffectiveState
outcome = record {
  effective_length = 50;
  last_truncate = some 50;
  identities = [];
  blocks = front ∷ record { offset = 10; len = 10; blake3 = 3 ∷ [] } ∷ [];
  seal = some (9 ∷ []);
}

folds : effective_state file_header journal ≡ ok outcome
unfolding effective_state apply_all apply sort_by_offset insert_by_offset check_windows
folds = refl

refuses_overlap :
    effective_state file_header
      (framed 0 (block_complete 0 10 []) ∷ framed 1 (block_complete 9 10 []) ∷ [])
    ≡ refuse "surviving completed blocks overlap"
unfolding effective_state apply_all apply sort_by_offset insert_by_offset check_windows
refuses_overlap = refl

refuses_early_seal :
    effective_state file_header (framed 0 (sealed []) ∷ framed 1 (truncate 5) ∷ [])
    ≡ refuse "sealed record is not unique and final"
unfolding effective_state apply_all apply sort_by_offset insert_by_offset check_windows
refuses_early_seal = refl

effective_state-blocks_example : All (Within 50) outcome.blocks × Apart outcome.blocks × (50 ≤ 100)
effective_state-blocks_example = effective_state-blocks file_header journal outcome folds

effective_state-Survives_example : In front outcome.blocks ↔ Survives front journal
effective_state-Survives_example =
    effective_state-Survives file_header journal outcome front (omega arith) folds

effective_state-EndsSealed_example : (outcome.seal ≡ some (9 ∷ [])) ↔ EndsSealed (9 ∷ []) journal
effective_state-EndsSealed_example =
    effective_state-EndsSealed file_header journal outcome (9 ∷ []) folds
