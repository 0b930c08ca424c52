-- ===== src/Completion/Named.antt =====
-- `verify_and_rename` on every branch: what is left of the files and the journal.
use downpour.Prelude.{
  ℕ, ◌≡◌, ◌↔◌, ◌≤◌, refl, Option, max_u64, Result, ok, err, sym, ap, ◌∙◌, ok-injective,
}
use downpour.Text.{Text}
use downpour.Intervals.{IntervalMap}
use downpour.Intervals.Partition.{IsCanonical}
use downpour.Journal.{Bytes, sealed}
use downpour.PartFile.{IoError}
use downpour.Remote.{ContentDigest}
use downpour.Writer.Batch.{DurableJournal, WriterError, Written}
use downpour.Completion.{
  Checked, CompletionError, DigestOutcome, Sealed, FileSystem, Hasher, Named, io, seal, sealing,
  verify, rename_sealed, renamed, sync_sealed, seal_and_rename, verify_and_rename,
}
use downpour.Completion.Digests.{IsHash}
use downpour.Completion.Seal.{Verified, verify_iff}

module _ {B S T F Q J : Type 0} (blake3 : Hasher B) (sha_256 : Hasher S) (sha_512 : Hasher T)
    (ours small large : Bytes → Bytes) (blake3-IsHash : IsHash blake3 ours)
    (sha_256-IsHash : IsHash sha_256 small) (sha_512-IsHash : IsHash sha_512 large)
    (fs : FileSystem F Q) (journals : DurableJournal J) (decode : Text → Option Bytes) (f : F)
    (j : J) (part_path final_path : Q) (total : ℕ) (m : IntervalMap) (digest : Option ContentDigest)
    (next_sequence : ℕ) where
  abbrev pub appended : Bytes → Written (Unit {0}) × J
  appended blake = journals.append j (record { sequence = next_sequence; record_ = sealed blake })

  abbrev pub synced : Bytes → Written (Unit {0}) × J
  synced blake = journals.sync_data (appended blake).1

  abbrev pub moved : Result (Unit {0}) IoError × F
  moved = fs.rename f part_path final_path

  abbrev pub IsVerified : Bytes × DigestOutcome → Type 0
  IsVerified =
      Verified blake3 sha_256 sha_512 ours small large blake3-IsHash sha_256-IsHash sha_512-IsHash
        fs decode f part_path total m digest

  -- What is left behind a verified file and a seal that was appended and synced.
  abbrev pub sealed_as : Bytes × DigestOutcome → Sealed Q
  sealed_as answer = record {
    final_path = final_path;
    final_blake3 = answer.0;
    digest_checked = answer.1;
  }

  pub data Branch (result : Named blake3 sha_256 sha_512 fs journals) : Type 0 where
    refused :
        (e : CompletionError)
        → ((answer : Bytes × DigestOutcome) → ¬ IsVerified answer)
        → result ≡ (err e, f, j)
        → Branch result
    not_appended :
        (answer : Bytes × DigestOutcome) (e : WriterError)
        → IsVerified answer
        → (appended answer.0).0 ≡ err e
        → result ≡ (err (seal e), f, (appended answer.0).1)
        → Branch result
    not_synced :
        (answer : Bytes × DigestOutcome) (e : WriterError)
        → IsVerified answer
        → (appended answer.0).0 ≡ ok tt
        → (synced answer.0).0 ≡ err e
        → result ≡ (err (seal e), f, (synced answer.0).1)
        → Branch result
    not_renamed :
        (answer : Bytes × DigestOutcome) (e : IoError)
        → IsVerified answer
        → (appended answer.0).0 ≡ ok tt
        → (synced answer.0).0 ≡ ok tt
        → moved.0 ≡ err e
        → result ≡ (
          err (io "rename the verified part file to its final name" e),
          moved.1,
          (synced answer.0).1,
        )
        → Branch result
    named :
        (answer : Bytes × DigestOutcome)
        → IsVerified answer
        → (appended answer.0).0 ≡ ok tt
        → (synced answer.0).0 ≡ ok tt
        → moved.0 ≡ ok tt
        → result ≡ (ok (sealed_as answer), moved.1, (synced answer.0).1)
        → Branch result

  renamed-Branch :
      (answer : Bytes × DigestOutcome) (result : Result (Unit {0}) IoError)
      → IsVerified answer
      → (appended answer.0).0 ≡ ok tt
      → (synced answer.0).0 ≡ ok tt
      → moved.0 ≡ result
      → Branch (
          renamed blake3 sha_256 sha_512 fs journals
            (sealed_as answer)
            (synced answer.0).1
            result
            moved.1)
  renamed-Branch answer (ok tt) v a s r = named answer v a s r refl
  renamed-Branch answer (err e) v a s r = not_renamed answer e v a s r refl

  rename_sealed-Branch :
      (answer : Bytes × DigestOutcome) (result : Written (Unit {0}))
      → IsVerified answer
      → (appended answer.0).0 ≡ ok tt
      → (synced answer.0).0 ≡ result
      → Branch (
          rename_sealed blake3 sha_256 sha_512 fs journals f
            (synced answer.0).1
            part_path
            final_path
            (sealed_as answer)
            (sealing result))
  rename_sealed-Branch answer (ok tt) v a s = renamed-Branch answer moved.0 v a s refl
  rename_sealed-Branch answer (err e) v a s = not_synced answer e v a s refl

  sync_sealed-Branch :
      (answer : Bytes × DigestOutcome) (result : Written (Unit {0}))
      → IsVerified answer
      → (appended answer.0).0 ≡ result
      → Branch (
          sync_sealed blake3 sha_256 sha_512 fs journals f
            (appended answer.0).1
            part_path
            final_path
            (sealed_as answer)
            (sealing result))
  sync_sealed-Branch answer (ok tt) v a = rename_sealed-Branch answer (synced answer.0).0 v a refl
  sync_sealed-Branch answer (err e) v a = not_appended answer e v a refl

  -- `verify_and_rename` on a canonical map of a u64 length takes one of five branches. The checks
  -- refuse the file, which then is not verified, and the files and the journal are as they were. Or
  -- the file is verified, and the append of the seal fails, or its sync, and the files are as they
  -- were; or both succeed and the rename fails, and its error is reported; or all three succeed, and
  -- the answer has the final path, the file's hash and what became of the server's digest. The files
  -- change by the rename alone, the journal by the append and the sync of a `Sealed` record.
  pub verify_and_rename_branches :
      IsCanonical m
      → m.total_length ≤ max_u64
      → Branch (
          verify_and_rename blake3 sha_256 sha_512 fs journals decode f j part_path final_path total
            m digest next_sequence)
  unfolding verify_and_rename seal_and_rename
  verify_and_rename_branches c k =
      checked (verify blake3 sha_256 sha_512 fs decode f part_path total m digest) refl
    where
      iff :
          (answer : Bytes × DigestOutcome)
          → (verify blake3 sha_256 sha_512 fs decode f part_path total m digest ≡ ok answer)
            ↔ IsVerified answer
      iff answer =
          verify_iff blake3 sha_256 sha_512 ours small large blake3-IsHash sha_256-IsHash
            sha_512-IsHash fs decode f part_path total m digest answer c k

      checked :
          (r : Checked (Bytes × DigestOutcome))
          → verify blake3 sha_256 sha_512 fs decode f part_path total m digest ≡ r
          → Branch (elim r [
            | err e ↦ (err e, f, j)
            | ok answer ↦
                seal_and_rename blake3 sha_256 sha_512 fs journals f j part_path final_path answer
                  next_sequence
          ])
      checked (err e) h = refused e (λ answer v. cc ((iff answer).1 v)) refl
      checked (ok answer) h =
          sync_sealed-Branch answer (appended answer.0).0 ((iff answer).0 h) refl

  -- Behind an answer that is ok every step has succeeded.
  pub record IsNamed (a : Sealed Q) (f' : F) (j' : J) : Type 0 where
    pub answer : Bytes × DigestOutcome
    pub checked : IsVerified answer
    pub was_appended : (appended answer.0).0 ≡ ok tt
    pub was_synced : (synced answer.0).0 ≡ ok tt
    pub same_answer : sealed_as answer ≡ a
    pub same_journal : (synced answer.0).1 ≡ j'

  no_error :
      (e : CompletionError) (g : F) (i : J) (a : Sealed Q) (f' : F) (j' : J)
      → ¬ (◌≡◌ {A = Named blake3 sha_256 sha_512 fs journals} (err e, g, i) (ok a, f', j'))
  no_error e g i a f' j' k = cc

  pub ok-IsNamed :
      (result : Named blake3 sha_256 sha_512 fs journals) (a : Sealed Q) (f' : F) (j' : J)
      → Branch result
      → result ≡ (ok a, f', j')
      → IsNamed a f' j'
  ok-IsNamed result a f' j' (refused e no_answer r) h = absurd (no_error e _ _ a f' j' (sym r ∙ h))
  ok-IsNamed result a f' j' (not_appended answer e v x r) h =
      absurd (no_error _ _ _ a f' j' (sym r ∙ h))
  ok-IsNamed result a f' j' (not_synced answer e v x y r) h =
      absurd (no_error _ _ _ a f' j' (sym r ∙ h))
  ok-IsNamed result a f' j' (not_renamed answer e v x y z r) h =
      absurd (no_error _ _ _ a f' j' (sym r ∙ h))
  ok-IsNamed result a f' j' (named answer v x y z r) h = record {
    answer = answer;
    checked = v;
    was_appended = x;
    was_synced = y;
    same_answer =
        ok-injective _ _ (ap (λ (t : Named blake3 sha_256 sha_512 fs journals). t.0) (sym r ∙ h));
    same_journal = ap (λ (t : Named blake3 sha_256 sha_512 fs journals). t.2) (sym r ∙ h);
  }
