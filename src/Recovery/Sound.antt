-- ===== src/Recovery/Sound.antt =====
-- What every successful reconciliation says of the bytes, whatever the store, the file and the journal
-- hold.

use mathlib.Core.Path.{subst}
use downpour.Prelude.{
  ℕ, ◌≤◌, ◌<◌, Bool, true, false, not, ◌||◌, Option, some, none, ◌≡◌, ◌⊎◌, refl, sym, arith, inl,
  inr, Bool-cases, if◌then◌else◌, ltb, ◌==◌, max_u64, Result, ok, err,
}
use downpour.Text.{text_eq}
use downpour.Intervals.{IntervalMap, pending, complete}
use downpour.Intervals.Partition.{IsCanonical, byte_state}
use downpour.Journal.{Bytes}
use downpour.Journal.State.{Folded, EffectiveState, effective_state}
use downpour.Journal.Replay.{ReplayOutcome, ReplayError, format, io, out_of_fuel, recover_journal}
use downpour.PartFile.{
  System, RecoveredPartFile, unsupported_length, OpenError, Filed, open_existing, max_i64,
}
use downpour.Metadata.{paused, Stored, DownloadMetadata, MetadataStore}
use downpour.Recovery.{Reconciliation, io_error, part_file_error, already_terminal}
use downpour.Recovery.Reconcile.{
  World, Reconciled, folded, header_checked, replayed, journal_read, nothing, part_opened,
  left_part, length_known, part_found, row_loaded, reconcile_download, is_terminal,
}
use downpour.Recovery.Kept.{
  Recovery, Recovery-settled, Recovery-KeptBlock, effective_state-Recovery,
}
use downpour.Recovery.Answers.{
  IsSound, Answers, refused, empty-IsSound, fail-Answers, persist-Answers,
}

module _ {S F : Type 0} (db : MetadataStore S) (system : System F) (crc : Bytes → ℕ) where
  module _ (id : Bytes) (journal : Option Bytes) (part : Option (Result F OpenError)) where
    abbrev Says : Reconciled S F → Type 0
    Says out = Answers db system crc journal part out

    -- The journal and the file are there, and were read so.
    module _ (bytes : Bytes) (total : ℕ) (opened : Result F OpenError)
        (recovered : RecoveredPartFile F) (outcome : ReplayOutcome)
        (has_journal : journal ≡ some bytes) (has_part : part ≡ some opened)
        (opens : open_existing system opened total ≡ ok recovered)
        (replays : (recover_journal crc bytes).0 ≡ ok outcome) where
      recovered-IsSound :
          (r : Reconciliation) (st : EffectiveState)
          → effective_state outcome.header outcome.records ≡ ok st
          → (k : Recovery st recovered.observed_length) → r.intervals ≡ k.rebuilt_map
          → r.download_state ≡ paused
          → IsSound db system crc journal part r
      recovered-IsSound r st folds k same state = record {
        canonical = subst IsCanonical (sym same) k.canonical;
        stopped = inl state;
        settled = λ x h.
            subst
              (λ (m : IntervalMap).
                (byte_state m.intervals x ≡ some pending)
                ⊎ (byte_state m.intervals x ≡ some complete))
              (sym same)
              (Recovery-settled st recovered.observed_length k x
                (subst (λ (m : IntervalMap). x < m.total_length) same h));
        proven = λ x h.
            let b =
              Recovery-KeptBlock st recovered.observed_length k x
                (subst (λ (m : IntervalMap). byte_state m.intervals x ≡ some complete) same h) in
            record {
              bytes = bytes;
              total = total;
              opened = opened;
              recovered = recovered;
              outcome = outcome;
              state = st;
              block = b.block;
              has_journal = has_journal;
              has_part = has_part;
              opens = opens;
              replays = replays;
              folds = folds;
              recorded = b.recorded;
              in_block = b.in_block;
              in_file = b.in_file;
            };
      }

      folded-Answers :
          (world : World S F) (row : DownloadMetadata) (r : Reconciliation) (now : ℕ)
          (fold : Folded EffectiveState)
          → r.download_state ≡ paused
          → outcome.header.total_length ≤ max_u64
          → effective_state outcome.header outcome.records ≡ fold
          → Says (folded db system crc id world row r outcome recovered.observed_length now fold)
      folded-Answers world row r now (err e) state small folds =
          fail-Answers db system crc journal part world row "storage.journal-invalid" now
      folded-Answers world row r now (ok st) state small folds =
          let k =
            effective_state-Recovery outcome.header outcome.records st recovered.observed_length
              small folds in
          rw (k.merges, k.rebuilds)
            (persist-Answers db system crc journal part world row _ st.effective_length now
              (recovered-IsSound _ st folds k refl state))

      header_checked-Answers :
          (world : World S F) (row : DownloadMetadata) (r : Reconciliation) (now : ℕ) (other : Bool)
          → r.download_state ≡ paused
          → total ≤ max_u64
          → not (text_eq outcome.header.transfer_id id)
              || not (outcome.header.total_length == total)
            ≡ other
          → Says (
              header_checked db system crc id world row r outcome recovered.observed_length now
                other)
      header_checked-Answers world row r now true state small h =
          fail-Answers db system crc journal part world row "storage.journal-mismatched" now
      header_checked-Answers world row r now false state small h =
          folded-Answers world row r now (effective_state outcome.header outcome.records) state
            (same_total _ outcome.header.total_length total small h) refl
        where
          same_total : (a : Bool) (n m : ℕ) → m ≤ max_u64 → a || not (n == m) ≡ false → n ≤ max_u64
          same_total a n m h k = ground arith

    part_opened-Answers :
        (world : World S F) (row : DownloadMetadata) (total now : ℕ) (opened : Result F OpenError)
        (result : Filed (RecoveredPartFile F))
        → world.journal ≡ journal
        → part ≡ some opened
        → total ≤ max_u64
        → open_existing system opened total ≡ result
        → Says (part_opened db system crc id world row total now result)
    part_opened-Answers world row total now opened (err e) j p small o =
        refused db system crc journal part _ world
    part_opened-Answers world row total now opened (ok recovered) j p small o =
        read world.journal (sym j)
      where
        r : Reconciliation
        r = nothing db system crc recovered total

        read :
            (file : Option Bytes)
            → journal ≡ file
            → Says
                (journal_read db system crc id world row r total recovered.observed_length now file)
        read none h =
            persist-Answers db system crc journal part world row r total now
              (empty-IsSound db system crc journal part r total refl (inl refl))
        read (some bytes) h = replayed_so (recover_journal crc bytes).0 refl
          where
            next : World S F
            next = record world { journal = some (recover_journal crc bytes).1 }

            replayed_so :
                (result : Result ReplayOutcome ReplayError)
                → (recover_journal crc bytes).0 ≡ result
                → Says (
                    replayed db system crc id next row r total recovered.observed_length now result)
            replayed_so (err (format e)) same =
                fail-Answers db system crc journal part next row "storage.journal-unreadable" now
            replayed_so (err (io message)) same =
                refused db system crc journal part (io_error message) next
            replayed_so (err out_of_fuel) same =
                refused db system crc journal part (io_error "replay out of fuel") next
            replayed_so (ok outcome) same =
                header_checked-Answers bytes total opened recovered outcome h p o same next row r
                  now
                  (not (text_eq outcome.header.transfer_id id)
                    || not (outcome.header.total_length == total))
                  refl small refl

    too_long :
        (opened : Result F OpenError) (total : ℕ)
        → ltb max_i64 total ≡ true
        → open_existing system opened total ≡ err (unsupported_length total)
    unfolding open_existing
    too_long opened total h = rw h

    length_known-Answers :
        (world : World S F) (row : DownloadMetadata) (now : ℕ) (opened : Result F OpenError)
        (known : Option ℕ)
        → world.journal ≡ journal
        → part ≡ some opened
        → Says (length_known db system crc id world row now opened known)
    length_known-Answers world row now opened none j p =
        fail-Answers db system crc journal part world row "storage.length-unknown" now
    length_known-Answers world row now opened (some total) j p =
        elim (Bool-cases (ltb max_i64 total)) [
          | inl long ↦ rw (too_long opened total long) (
              refused db system crc journal part (part_file_error (unsupported_length total))
                (record world { part = some (left_part db system crc opened total) }))
          | inr short ↦
              part_opened-Answers
                (record world { part = some (left_part db system crc opened total) }) row total now
                opened (open_existing system opened total) j p (fits total short) refl
        ]
      where
        fits : (n : ℕ) → ltb max_i64 n ≡ false → n ≤ max_u64
        fits n h = ground arith

    part_found-Answers :
        (world : World S F) (row : DownloadMetadata) (now : ℕ) (found : Option (Result F OpenError))
        → world.journal ≡ journal
        → part ≡ found
        → Says (part_found db system crc id world row now found)
    part_found-Answers world row now none j p =
        fail-Answers db system crc journal part world row "storage.part-file-missing" now
    part_found-Answers world row now (some opened) j p =
        length_known-Answers world row now opened row.total_length j p

    row_loaded-Answers :
        (world : World S F) (now : ℕ) (loaded : Stored (Option DownloadMetadata))
        → world.journal ≡ journal
        → world.part ≡ part
        → Says (row_loaded db system crc id world now loaded)
    row_loaded-Answers world now (err e) j p = refused db system crc journal part _ world
    row_loaded-Answers world now (ok none) j p = refused db system crc journal part _ world
    row_loaded-Answers world now (ok (some row)) j p = open_or_not (is_terminal row.download_state)
      where
        open_or_not :
            (b : Bool)
            → Says (
                if b
                then (err (already_terminal row.download_state), world)
                else part_found db system crc id world row now world.part)
        open_or_not true =
            refused db system crc journal part (already_terminal row.download_state) world
        open_or_not false = part_found-Answers world row now world.part j (sym p)

  -- A reconciliation that succeeds, whatever the store answers and the part file and the journal hold,
  -- leaves the download paused or failed with a canonical map in which no byte is in progress, and
  -- every byte that is complete is proven: the journal replays and its fold keeps a block around the
  -- byte that ends within the length that the part file was found with.
  pub reconcile_download-IsSound :
      (world : World S F) (id : Bytes) (now : ℕ) (r : Reconciliation)
      → (reconcile_download db system crc world id now).0 ≡ ok r
      → IsSound db system crc world.journal world.part r
  unfolding reconcile_download
  reconcile_download-IsSound world id now r h =
      row_loaded-Answers id world.journal world.part world now (db.load_download world.store id)
        refl refl r h
