-- ===== src/Recovery/Reconcile.antt =====
-- crates/downpour-storage/src/recovery.rs: reconcile_download, one function per stage. The world is the
-- metadata store, the part file (whether its path exists, and what opening it answers) and the
-- journal's bytes, if its path exists; a method returns its result beside the world that it leaves.
-- Reading the journal answers without an I/O error but for the missing path.
use Prim.Native.String.{String}
use downpour.Prelude.{
  ℕ, Bool, true, false, not, ◌||◌, Option, none, some, List, [], ◌∷◌, ltb, ◌==◌, if◌then◌else◌,
  length, Result, ok, err, ◌>>=◌,
}
use downpour.Text.{text_eq, lit}
use downpour.Intervals.{IntervalMap, Interval, Range, new, complete, state_eq}
use downpour.Journal.{Bytes}
use downpour.Journal.State.{Folded, EffectiveState, retain, ends_by, effective_state}
use downpour.Journal.Replay.{
  ReplayOutcome, ReplayStop, clean_eof, ReplayError, format, io, out_of_fuel, recover_journal,
}
use downpour.PartFile.{System, RecoveredPartFile, OpenError, Filed, open_existing, reopen, max_i64}
use downpour.Metadata.{
  DownloadState, completed, failed, paused, Stored, DownloadErrorKind, new_error_kind,
  DownloadMetadata, CompleteInterval, complete_interval, Checkpoint, validate_intervals,
  MetadataStore,
}
use downpour.Remote.{unknown}
use downpour.Recovery.{
  CheckpointDivergence, PartFileExtent, Reconciliation, Recovered, already_terminal,
  compare_checkpoint, intact, io_error, merge_adjacent, metadata_error, no_checkpoint, overlong,
  part_file_error, rebuild, reextended, unknown_download,
}

pub record World (S F : Type 0) : Type 0 where
  pub store : S
  pub part : Option (Result F OpenError)
  pub journal : Option Bytes

abbrev pub Reconciled : Type 0 → Type 0 → Type 0
Reconciled S F = Recovered Reconciliation × World S F

-- `filter` of the complete intervals, and `CompleteInterval::try_new` of each.
unfoldable pub complete_intervals : List Interval → Stored (List CompleteInterval)
complete_intervals [] = ok []
complete_intervals (i ∷ rest) =
    let later = complete_intervals rest in
    if state_eq i.state complete
    then (complete_interval i.start i.end >>= λ first. later >>= λ others. ok (first ∷ others))
    else later

abbrev pub is_terminal : DownloadState → Bool
is_terminal completed = true
is_terminal failed = true
is_terminal other = false

abbrev known_length : Option ℕ → ℕ
known_length none = 0
known_length (some n) = n

abbrev is_clean : ReplayStop → Bool
is_clean clean_eof = true
is_clean other = false

abbrev pub extent_of : {F : Type 0} → RecoveredPartFile F → ℕ → PartFileExtent
extent_of recovered total =
    if recovered.reextended
    then reextended recovered.observed_length total
    else if ltb total recovered.observed_length
    then overlong recovered.observed_length total
    else intact

abbrev same_length : Option ℕ → ℕ → Bool
same_length none n = false
same_length (some m) n = m == n

module _ {S F : Type 0} (db : MetadataStore S) (system : System F) (crc : Bytes → ℕ) where
  -- Behind the row of a failure.
  abbrev pub fail_saved :
      DownloadMetadata → DownloadErrorKind → World S F → Stored (Unit {0}) → Reconciled S F
  fail_saved row kind world (err e) = (err (metadata_error e), world)
  fail_saved row kind world (ok _) = (
    ok (record {
      download_state = failed;
      error_kind = some kind;
      intervals = new (known_length row.total_length);
      covered_bytes = 0;
      next_sequence = 0;
      seal = none;
      divergence = no_checkpoint;
      extent = intact;
      journal_tail_repaired = false;
      space_reserved = false;
    }),
    world,
  )

  abbrev pub fail_kind :
      World S F → DownloadMetadata → ℕ → Stored DownloadErrorKind → Reconciled S F
  fail_kind world row now (err e) = (err (metadata_error e), world)
  fail_kind world row now (ok kind) =
      let (saved, store) = db.save_download world.store (record row {
        download_state = failed;
        error_kind = some kind;
        covered_bytes = 0;
        updated_at_ms = now;
      }) in
      fail_saved row kind (record world { store = store }) saved

  unfoldable pub fail : World S F → DownloadMetadata → String → ℕ → Reconciled S F
  fail world row kind now = fail_kind world row now (new_error_kind (lit kind))

  -- Behind the checkpoint.
  abbrev pub checkpoint_saved : World S F → Reconciliation → Stored Bool → Reconciled S F
  checkpoint_saved world r (err e) = (err (metadata_error e), world)
  checkpoint_saved world r (ok _) = (ok r, world)

  abbrev pub save_cache :
      World S F → DownloadMetadata → Reconciliation → ℕ → Stored Checkpoint → Reconciled S F
  save_cache world row r now (err e) = (err (metadata_error e), world)
  save_cache world row r now (ok cache) =
      let (saved, store) = db.save_checkpoint world.store row.id r.next_sequence now cache in
      checkpoint_saved (record world { store = store }) r saved

  -- Behind the row.
  abbrev pub row_saved :
      World S F → DownloadMetadata → Reconciliation → ℕ → ℕ → Stored (Unit {0}) → Reconciled S F
  row_saved world row r effective_length now (err e) = (err (metadata_error e), world)
  row_saved world row r effective_length now (ok _) = save_cache world row r now (
      complete_intervals r.intervals.intervals >>= λ intervals.
      validate_intervals effective_length intervals none)

  abbrev pub persisted_row : DownloadMetadata → Reconciliation → ℕ → ℕ → DownloadMetadata
  persisted_row row r effective_length now = record row {
    range_support =
        if same_length row.total_length effective_length then row.range_support else unknown;
    download_state = r.download_state;
    error_kind = none;
    total_length = some effective_length;
    covered_bytes = r.covered_bytes;
    space_reserved = r.space_reserved;
    updated_at_ms = now;
  }

  unfoldable pub persist : World S F → DownloadMetadata → Reconciliation → ℕ → ℕ → Reconciled S F
  persist world row r effective_length now =
      let (saved, store) =
        db.save_download world.store (persisted_row row r effective_length now) in
      row_saved (record world { store = store }) row r effective_length now saved

  -- What is known of the part file, and of the journal.
  abbrev paused_with :
      Reconciliation
      → IntervalMap
      → ℕ
      → ℕ
      → Option Bytes
      → CheckpointDivergence
      → Bool
      → Reconciliation
  paused_with r m covered next_sequence seal divergence repaired = record r {
    intervals = m;
    covered_bytes = covered;
    next_sequence = next_sequence;
    seal = seal;
    divergence = divergence;
    journal_tail_repaired = repaired;
  }

  -- The reconciliation with nothing recovered.
  abbrev pub nothing : RecoveredPartFile F → ℕ → Reconciliation
  nothing recovered total = record {
    download_state = paused;
    error_kind = none;
    intervals = new total;
    covered_bytes = 0;
    next_sequence = 0;
    seal = none;
    divergence = no_checkpoint;
    extent = extent_of recovered total;
    journal_tail_repaired = false;
    space_reserved = recovered.space_reserved;
  }

  -- The part file that `open_existing` leaves.
  abbrev pub left_part : Result F OpenError → ℕ → Result F OpenError
  left_part (err e) total = err e
  left_part (ok file) total = if ltb max_i64 total then ok file else ok (reopen system file total).1

  -- The stages, for the download that is asked for.
  module _ (id : Bytes) where
    abbrev pub rebuilt :
        World S F
        → DownloadMetadata
        → Reconciliation
        → ReplayOutcome
        → EffectiveState
        → List Range
        → ℕ
        → Recovered (IntervalMap × ℕ)
        → Reconciled S F
    rebuilt world row r outcome st merged now (err e) = (err e, world)
    rebuilt world row r outcome st merged now (ok (m, covered)) =
        persist world row
          (paused_with r m covered (length outcome.records) st.seal
            (compare_checkpoint (db.load_checkpoint world.store id) covered merged)
            (not (is_clean outcome.stop)))
          st.effective_length now

    abbrev pub merged_blocks :
        World S F
        → DownloadMetadata
        → Reconciliation
        → ReplayOutcome
        → EffectiveState
        → ℕ
        → Recovered (List Range)
        → Reconciled S F
    merged_blocks world row r outcome st now (err e) = (err e, world)
    merged_blocks world row r outcome st now (ok merged) =
        rebuilt world row r outcome st merged now (rebuild (new st.effective_length) 0 merged)

    -- The blocks that the file still holds are merged, and the rest of the states is read.
    abbrev pub folded :
        World S F
        → DownloadMetadata
        → Reconciliation
        → ReplayOutcome
        → ℕ
        → ℕ
        → Folded EffectiveState
        → Reconciled S F
    folded world row r outcome observed now (err e) = fail world row "storage.journal-invalid" now
    folded world row r outcome observed now (ok st) =
        merged_blocks world row r outcome st now
          (merge_adjacent (retain (ends_by observed) st.blocks))

    abbrev pub header_checked :
        World S F
        → DownloadMetadata
        → Reconciliation
        → ReplayOutcome
        → ℕ
        → ℕ
        → Bool
        → Reconciled S F
    header_checked world row r outcome observed now true =
        fail world row "storage.journal-mismatched" now
    header_checked world row r outcome observed now false =
        folded world row r outcome observed now (effective_state outcome.header outcome.records)

    -- The last case does not occur: the replay's fuel is enough.
    abbrev pub replayed :
        World S F
        → DownloadMetadata
        → Reconciliation
        → ℕ
        → ℕ
        → ℕ
        → Result ReplayOutcome ReplayError
        → Reconciled S F
    replayed world row r total observed now (err (format e)) =
        fail world row "storage.journal-unreadable" now
    replayed world row r total observed now (err (io message)) = (err (io_error message), world)
    replayed world row r total observed now (err out_of_fuel) =
        (err (io_error "replay out of fuel"), world)
    replayed world row r total observed now (ok outcome) =
        header_checked world row r outcome observed now (
          not (text_eq outcome.header.transfer_id id) || not (outcome.header.total_length == total))

    abbrev pub journal_read :
        World S F → DownloadMetadata → Reconciliation → ℕ → ℕ → ℕ → Option Bytes → Reconciled S F
    journal_read world row r total observed now none = persist world row r total now
    journal_read world row r total observed now (some bytes) =
        let (result, file) = recover_journal crc bytes in
        replayed (record world { journal = some file }) row r total observed now result

    abbrev pub part_opened :
        World S F → DownloadMetadata → ℕ → ℕ → Filed (RecoveredPartFile F) → Reconciled S F
    part_opened world row total now (err e) = (err (part_file_error e), world)
    part_opened world row total now (ok recovered) =
        journal_read world row (nothing recovered total) total recovered.observed_length now
          world.journal

    abbrev pub length_known :
        World S F → DownloadMetadata → ℕ → Result F OpenError → Option ℕ → Reconciled S F
    length_known world row now opened none = fail world row "storage.length-unknown" now
    length_known world row now opened (some total) =
        part_opened (record world { part = some (left_part opened total) }) row total now
          (open_existing system opened total)

    abbrev pub part_found :
        World S F → DownloadMetadata → ℕ → Option (Result F OpenError) → Reconciled S F
    part_found world row now none = fail world row "storage.part-file-missing" now
    part_found world row now (some opened) = length_known world row now opened row.total_length

    abbrev pub row_loaded : World S F → ℕ → Stored (Option DownloadMetadata) → Reconciled S F
    row_loaded world now (err e) = (err (metadata_error e), world)
    row_loaded world now (ok none) = (err unknown_download, world)
    row_loaded world now (ok (some row)) =
        if is_terminal row.download_state
        then (err (already_terminal row.download_state), world)
        else part_found world row now world.part

  unfoldable pub reconcile_download : World S F → Bytes → ℕ → Reconciled S F
  reconcile_download world id now = row_loaded id world now (db.load_download world.store id)
