-- ===== src/Tests/Compaction.antt =====
-- Compaction of a journal of one block and a truncation.
use mathlib.Core.Path.{subst}
use downpour.Prelude.{
  ap, sym, ◌∙◌, ◌⊎◌, inl, ◌++◌, List, [], ◌∷◌, ◌≡◌, refl, arith, length, Result, ok, err, inr,
}
use downpour.Journal.{Bytes, FramedRecord, truncate, checkpoint, block_complete}
use downpour.Journal.Format.{encode_record, encode_payload, frame_body, to_le_bytes}
use downpour.Journal.Format.Header.{IsHeader}
use downpour.Journal.Replay.Written.{written, Numbered}
use downpour.Compaction.{
  encode_replacement, semantic_records, framed_from, identity_records, block_records,
}
use Prim.Native.String.{String}
use downpour.Compaction.Replace.{
  Directory, DirectoryLaws, ReplacementBoundary, new_file_synced, IsOld, IsReplaced,
  replace_atomically_with_hook, replace_atomically_with_hook-IsReplaced,
}
use downpour.Compaction.Journaled.{Says, encode_replacement-Says}
use downpour.Tests.Format.{byte_sum, byte_sum-IsChecksum, sixteen}
use downpour.Tests.Recovery.{ten_header, cut_records, cut_state, folds_cut}

abbrev compacted : List FramedRecord
compacted =
    record { sequence = 0; record_ = truncate 6 }
    ∷ record { sequence = 1; record_ = checkpoint 4 99 }
    ∷ record { sequence = 2; record_ = block_complete 0 4 (sixteen ++ sixteen) }
    ∷ []

compacts : framed_from 0 (semantic_records cut_state cut_state.blocks 4 99) ≡ compacted
unfolding framed_from identity_records block_records
compacts = refl

compacted-Numbered : Numbered 0 compacted
compacted-Numbered = (
  refl,
  (omega arith, omega arith),
  (
    refl,
    (omega arith, (omega arith, omega arith)),
    (refl, (omega arith, (omega arith, omega arith, refl)), tt),
  ),
)

compacted_size : length (written byte_sum compacted) ≡ 113
unfolding written encode_record encode_payload frame_body to_le_bytes byte_sum
compacted_size = refl

ten_header-IsHeader : IsHeader ten_header
ten_header-IsHeader = (refl, omega arith, omega arith, refl)

encode_replacement-Says_example :
    (bytes : Bytes) × (encode_replacement byte_sum ten_header cut_state cut_state.blocks 99
      ≡ ok bytes)
    × Says byte_sum ten_header bytes cut_state
encode_replacement-Says_example =
    encode_replacement-Says byte_sum ten_header cut_records cut_state cut_state.blocks 99
      byte_sum-IsChecksum ten_header-IsHeader folds_cut ((omega arith, omega arith), tt) (tt, tt)
      (subst (Numbered 0) (sym compacts) compacted-Numbered)
      (omega (arith, ap (λ fs. length (written byte_sum fs)) compacts, compacted_size))

-- What is read at the journal's path and at its sibling, what the disk has of either file, and what the
-- directory on the disk has at the journal's path.
record TwoFiles : Type 0 where
  path : Bytes
  path_stored : Bytes
  sibling : Bytes
  sibling_stored : Bytes
  committed : Bytes

abbrev two_files : Directory TwoFiles
two_files = record {
  open_new = λ x. (ok tt, record x { sibling = []; sibling_stored = [] });
  write_new = λ x s. (ok tt, record x { sibling = x.sibling ++ s });
  sync_new = λ x. (ok tt, record x { sibling_stored = x.sibling });
  rename_new = λ x. (
    ok tt,
    record x {
      path = x.sibling;
      path_stored = x.sibling_stored;
      sibling = [];
      sibling_stored = [];
    },
  );
  sync_parent = λ x. (ok tt, record x { committed = x.path_stored });
}

abbrev CrashMayLeave : TwoFiles → Bytes → Type 0
CrashMayLeave x s = (s ≡ x.committed) ⊎ (s ≡ x.path_stored)

renamed_leaves :
    (x : TwoFiles) (s : Bytes)
    → x.sibling_stored ≡ x.sibling
    → CrashMayLeave (two_files.rename_new x).1 s
    → CrashMayLeave x s ⊎ (s ≡ x.sibling)
renamed_leaves x s stored (inl h) = inl (inl h)
renamed_leaves x s stored (inr h) = inr (h ∙ stored)

committed_leaves :
    (x : TwoFiles) (s : Bytes) → CrashMayLeave (two_files.sync_parent x).1 s → s ≡ x.path_stored
committed_leaves x s (inl h) = h
committed_leaves x s (inr h) = h

abbrev two_files_laws : DirectoryLaws two_files
two_files_laws = record {
  journal = λ x. x.path;
  sibling = λ x. x.sibling;
  MayLeave = CrashMayLeave;
  SiblingStored = λ x. x.sibling_stored ≡ x.sibling;
  JournalStored = λ x. x.path_stored ≡ x.path;
  open_keeps = λ x. refl;
  open_empties = λ x h. refl;
  open_leaves = λ x s h. h;
  write_keeps = λ x s. refl;
  write_appends = λ x s h. refl;
  write_leaves = λ x s t h. h;
  sync_keeps = λ x. refl;
  sync_keeps_sibling = λ x. refl;
  sync_stores = λ x h. refl;
  sync_leaves = λ x s h. h;
  rename_moves = λ x h. refl;
  rename_failed = λ x. inr refl;
  rename_leaves = renamed_leaves;
  rename_stores = λ x stored h. stored;
  parent_keeps = λ x. refl;
  parent_leaves = λ x s h. inr (committed_leaves x s h);
  parent_commits = λ x s stored h left. committed_leaves x s left ∙ stored;
}

abbrev stops_at_sync : ReplacementBoundary → Result (Unit {0}) String
stops_at_sync new_file_synced = err "stopped"
stops_at_sync other = ok tt

abbrev start : TwoFiles
start = record {
  path = 1 ∷ 2 ∷ [];
  path_stored = 1 ∷ 2 ∷ [];
  sibling = 9 ∷ [];
  sibling_stored = [];
  committed = 1 ∷ 2 ∷ [];
}

start-IsOld : IsOld two_files two_files_laws (1 ∷ 2 ∷ []) (3 ∷ []) start
start-IsOld = record { reads = refl; survives = both }
  where
    both : (s : Bytes) → CrashMayLeave start s → s ≡ 1 ∷ 2 ∷ []
    both s (inl h) = h
    both s (inr h) = h

stopped_before_rename :
    replace_atomically_with_hook two_files stops_at_sync start (3 ∷ [])
    ≡ (err "stopped", record start { sibling = 3 ∷ []; sibling_stored = 3 ∷ [] })
unfolding replace_atomically_with_hook
stopped_before_rename = refl

abbrev goes_on : ReplacementBoundary → Result (Unit {0}) String
goes_on boundary = ok tt

replace_atomically_with_hook-IsReplaced_example :
    IsReplaced two_files two_files_laws
      (1 ∷ 2 ∷ [])
      (3 ∷ [])
      (replace_atomically_with_hook two_files goes_on start (3 ∷ []))
replace_atomically_with_hook-IsReplaced_example =
    replace_atomically_with_hook-IsReplaced two_files two_files_laws (1 ∷ 2 ∷ []) (3 ∷ []) goes_on
      start start-IsOld
