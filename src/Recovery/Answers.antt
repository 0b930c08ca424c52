-- ===== src/Recovery/Answers.antt =====
-- What an answer says of the bytes, and the stages that end a reconciliation.
use Prim.Native.String.{String}
use mathlib.Core.Path.{subst}
use downpour.Prelude.{
  ok-injective, ℕ, ◌+◌, ◌≤◌, ◌<◌, Bool, true, Option, some, ◌≡◌, ◌⊎◌, refl, sym, ap, ◌∙◌, arith,
  inl, inr, within, In, Result, ok, err,
}
use downpour.Text.{lit}
use downpour.Intervals.{IntervalMap, pending, complete, new}
use downpour.Intervals.Partition.{IsCanonical, byte_state, new-IsCanonical}
use downpour.Journal.{Bytes}
use downpour.Journal.State.{CompletedBlock, EffectiveState, effective_state}
use downpour.Journal.Replay.{ReplayOutcome, recover_journal}
use downpour.PartFile.{System, RecoveredPartFile, OpenError, open_existing}
use downpour.Metadata.{
  failed, paused, Stored, DownloadErrorKind, new_error_kind, DownloadMetadata, Checkpoint,
  MetadataStore,
}
use downpour.Recovery.{Reconciliation, RecoveryError}
use downpour.Recovery.Reconcile.{
  World, Reconciled, fail, fail_kind, fail_saved, persist, row_saved, save_cache, checkpoint_saved,
}
use downpour.Recovery.Rebuild.{new_pending}

module _ {S F : Type 0} (db : MetadataStore S) (system : System F) (crc : Bytes → ℕ) where
  -- What proves a byte complete: a block of the journal that ends within the length that the part
  -- file was found with.
  pub record Proven (journal : Option Bytes) (part : Option (Result F OpenError)) (x : ℕ)
      : Type 0 where
    pub bytes : Bytes
    pub total : ℕ
    pub opened : Result F OpenError
    pub recovered : RecoveredPartFile F
    pub outcome : ReplayOutcome
    pub state : EffectiveState
    pub block : CompletedBlock
    pub has_journal : journal ≡ some bytes
    pub has_part : part ≡ some opened
    pub opens : open_existing system opened total ≡ ok recovered
    pub replays : (recover_journal crc bytes).0 ≡ ok outcome
    pub folds : effective_state outcome.header outcome.records ≡ ok state
    pub recorded : In block state.blocks
    pub in_block : within block.offset (block.offset + block.len) x ≡ true
    pub in_file : block.offset + block.len ≤ recovered.observed_length

  -- No interval is in progress, and every complete byte is proven by the world.
  pub record IsSound (journal : Option Bytes) (part : Option (Result F OpenError))
      (r : Reconciliation) : Type 0 where
    pub canonical : IsCanonical r.intervals
    pub stopped : (r.download_state ≡ paused) ⊎ (r.download_state ≡ failed)
    pub settled :
        (x : ℕ)
        → x < r.intervals.total_length
        → (byte_state r.intervals.intervals x ≡ some pending)
          ⊎ (byte_state r.intervals.intervals x ≡ some complete)
    pub proven :
        (x : ℕ) → byte_state r.intervals.intervals x ≡ some complete → Proven journal part x

  module _ (journal : Option Bytes) (part : Option (Result F OpenError)) where
    abbrev pub Answers : Reconciled S F → Type 0
    Answers out = (r : Reconciliation) → out.0 ≡ ok r → IsSound journal part r

    pub refused : (e : RecoveryError) (world : World S F) → Answers (err e, world)
    refused e world r h = cc

    answered :
        (a : Reconciliation) (world : World S F) → IsSound journal part a → Answers (ok a, world)
    answered a world s r h = subst (IsSound journal part) (ok-injective a r h) s

    new_total : (n : ℕ) → (new n).total_length ≡ n
    unfolding new
    new_total n = refl

    none_complete : (n x : ℕ) → byte_state (new n).intervals x ≡ some complete → ⊥
    unfolding new
    none_complete n x h = ground arith

    -- A reconciliation with an empty map.
    pub empty-IsSound :
        (r : Reconciliation) (n : ℕ)
        → r.intervals ≡ new n
        → (r.download_state ≡ paused) ⊎ (r.download_state ≡ failed)
        → IsSound journal part r
    empty-IsSound r n same s = record {
      canonical = subst IsCanonical (sym same) (new-IsCanonical n);
      stopped = s;
      settled = λ x h. inl (
          ap (λ (m : IntervalMap). byte_state m.intervals x) same
          ∙ new_pending n x
              (subst (λ k. x < k) (ap (λ (m : IntervalMap). m.total_length) same ∙ new_total n) h));
      proven = λ x h.
          absurd
            (none_complete n x (sym (ap (λ (m : IntervalMap). byte_state m.intervals x) same) ∙ h));
    }

    fail_saved-Answers :
        (row : DownloadMetadata) (kind : DownloadErrorKind) (world : World S F)
        (saved : Stored (Unit {0}))
        → Answers (fail_saved db system crc row kind world saved)
    fail_saved-Answers row kind world (err e) = refused _ world
    fail_saved-Answers row kind world (ok _) = answered _ world (empty-IsSound _ _ refl (inr refl))

    pub fail-Answers :
        (world : World S F) (row : DownloadMetadata) (kind : String) (now : ℕ)
        → Answers (fail db system crc world row kind now)
    unfolding fail
    fail-Answers world row kind now = kind_known (new_error_kind (lit kind))
      where
        kind_known :
            (k : Stored DownloadErrorKind) → Answers (fail_kind db system crc world row now k)
        kind_known (err e) = refused _ world
        kind_known (ok k) = fail_saved-Answers row k _ _

    checkpoint_saved-Answers :
        (world : World S F) (r : Reconciliation) (saved : Stored Bool)
        → IsSound journal part r
        → Answers (checkpoint_saved db system crc world r saved)
    checkpoint_saved-Answers world r (err e) s = refused _ world
    checkpoint_saved-Answers world r (ok _) s = answered r world s

    save_cache-Answers :
        (world : World S F) (row : DownloadMetadata) (r : Reconciliation) (now : ℕ)
        (cache : Stored Checkpoint)
        → IsSound journal part r
        → Answers (save_cache db system crc world row r now cache)
    save_cache-Answers world row r now (err e) s = refused _ world
    save_cache-Answers world row r now (ok c) s = checkpoint_saved-Answers _ r _ s

    pub persist-Answers :
        (world : World S F) (row : DownloadMetadata) (r : Reconciliation) (effective_length now : ℕ)
        → IsSound journal part r
        → Answers (persist db system crc world row r effective_length now)
    unfolding persist
    persist-Answers world row r effective_length now s = saved _ _
      where
        saved :
            (next : World S F) (result : Stored (Unit {0}))
            → Answers (row_saved db system crc next row r effective_length now result)
        saved next (err e) = refused _ next
        saved next (ok _) = save_cache-Answers next row r now _ s
