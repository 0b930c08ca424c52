-- ===== src/Completion.antt =====
-- crates/downpour-storage/src/completion.rs: verification in front of the final name. The calls of
-- std::fs, the hash functions (blake3, sha2) and base64 are arguments. A u8 is a number below 256.
pub mod Coverage
pub mod Digests
pub mod Seal
pub mod Named
pub mod Download
use Prim.Native.Nat.{bit_or, bit_xor}
pub use Prim.Native.String.{String}
use downpour.Prelude.{
  ℕ, ◌+◌, ◌-◌, Bool, true, false, not, ◌&&◌, Option, none, some, List, [], ◌∷◌, ltb, ◌==◌,
  if◌then◌else◌, max_u64, length, Result, ok, err, ◌>>=◌, ◌>>◌,
}
use downpour.Intervals.{Interval, IntervalMap, len, state_eq, complete}
use downpour.Journal.{Bytes, FramedRecord, sealed}
use downpour.PartFile.{IoError}
use downpour.Remote.{ContentDigest, DigestAlgorithm, sha256, sha512}
use downpour.Text.{Text}
use downpour.Writer.Batch.{DurableJournal, WriterError, Written}

pub data CompletionError : Type 0 where
  length_mismatch : ℕ → ℕ → CompletionError
  incomplete_coverage : ℕ → ℕ → ℕ → CompletionError
  digest_mismatch : DigestAlgorithm → CompletionError
  io : String → IoError → CompletionError
  seal : WriterError → CompletionError

abbrev pub Checked {ℓ} : Type ℓ → Type ℓ
Checked A = Result A CompletionError

pub data DigestOutcome : Type 0 where
  not_offered : DigestOutcome
  verified : DigestAlgorithm → DigestOutcome
  unusable : String → DigestOutcome

pub record Sealed (Q : Type 0) : Type 0 where
  pub final_path : Q
  pub final_blake3 : Bytes
  pub digest_checked : DigestOutcome

-- The calls on files at paths. `open_reads` answers what the reads of the opened file answer in turn, up
-- to the empty one.
pub record FileSystem (F Q : Type 0) : Type 0 where
  pub metadata : F → Q → Result ℕ IoError
  pub open_reads : F → Q → Result (List (Result Bytes IoError)) IoError
  pub rename : F → Q → Q → Result (Unit {0}) IoError × F

-- A hash function that is fed in pieces.
pub record Hasher (H : Type 0) : Type 0 where
  pub new : H
  pub update : H → Bytes → H
  pub finalize : H → Bytes

abbrev pub saturating_add : ℕ → ℕ → ℕ
saturating_add a b = if ltb max_u64 (a + b) then max_u64 else a + b

-- `if gap.is_none() { gap = Some(start) }`
abbrev first_gap : Option ℕ → ℕ → Option ℕ
first_gap none start = some start
first_gap (some gap) start = some gap

-- The loop over the intervals, with `covered` and `gap`.
unfoldable pub coverage : ℕ → Option ℕ → List Interval → ℕ × Option ℕ
coverage covered gap [] = (covered, gap)
coverage covered gap (i ∷ l) =
    let done = state_eq i.state complete in
    coverage (if done then saturating_add covered (len i) else covered)
      (if done then gap else first_gap gap i.start) l

abbrev pub judge : ℕ → ℕ × Option ℕ → Checked (Unit {0})
judge total (covered, some gap) = err (incomplete_coverage covered total gap)
judge total (covered, none) =
    if not (covered == total) then err (incomplete_coverage covered total covered) else ok tt

unfoldable pub check_coverage : IntervalMap → ℕ → Checked (Unit {0})
check_coverage m total = judge total (coverage 0 none m.intervals)

-- The loop over both digests; called on digests of one length.
unfoldable pub difference : ℕ → Bytes → Bytes → ℕ
difference diff (a ∷ l) (b ∷ m) = difference (bit_or diff (bit_xor a b)) l m
difference diff _ _ = diff

unfoldable pub constant_time_eq : Bytes → Bytes → Bool
constant_time_eq left right =
    if not (length left == length right) then false else difference 0 left right == 0

abbrev digest_length : DigestAlgorithm → ℕ
digest_length sha256 = 32
digest_length sha512 = 64

abbrev of_length : ℕ → Option Bytes → Option Bytes
of_length n none = none
of_length n (some decoded) = if length decoded == n then some decoded else none

-- The first argument is base64's decoder; a payload is ASCII.
unfoldable pub decode_digest : (Text → Option Bytes) → ContentDigest → Option Bytes
decode_digest decode digest =
    if ltb 128 (length digest.encoded)
    then none
    else of_length (digest_length digest.algorithm) (decode digest.encoded)

abbrev is_empty_chunk : Bytes → Bool
is_empty_chunk [] = true
is_empty_chunk (b ∷ bs) = false

-- `map_err` of an io::Error.
abbrev pub failing {ℓ} : {A : Type ℓ} → String → Result A IoError → Checked A
failing operation (ok a) = ok a
failing operation (err e) = err (io operation e)

abbrev pub sealing : Written (Unit {0}) → Checked (Unit {0})
sealing (ok _) = ok tt
sealing (err e) = err (seal e)

abbrev pub algorithm_offered : Option ContentDigest → Option DigestAlgorithm
algorithm_offered none = none
algorithm_offered (some digest) = some digest.algorithm

abbrev pub judge_payload : DigestAlgorithm → Option Bytes → Bytes → Checked DigestOutcome
judge_payload algorithm none computed =
    ok (unusable "digest payload is not valid base64 of the algorithm's length")
judge_payload algorithm (some expected) computed =
    if not (constant_time_eq expected computed)
    then err (digest_mismatch algorithm)
    else ok (verified algorithm)

-- A computed digest beside the offered one: what is reported, or the mismatch. The first argument is
-- base64's decoder.
abbrev pub compare_digest :
    (Text → Option Bytes) → Option ContentDigest → Option Bytes → Checked DigestOutcome
compare_digest decode none computed = ok not_offered
compare_digest decode (some offered) none =
    ok (unusable "digest algorithm is not one this build can compute")
compare_digest decode (some offered) (some computed) =
    judge_payload offered.algorithm (decode_digest decode offered) computed

abbrev pub settle :
    (Text → Option Bytes)
    → Option ContentDigest
    → Bytes × Option Bytes
    → Checked (Bytes × DigestOutcome)
settle decode digest hashes =
    compare_digest decode digest hashes.1 >>= λ outcome. ok (hashes.0, outcome)

abbrev pub length_check : ℕ → ℕ → Checked (Unit {0})
length_check total_length actual =
    if not (actual == total_length) then err (length_mismatch total_length actual) else ok tt

-- The running hashes: ours, and that of the server's algorithm where a digest is offered.
pub record Running (B S T : Type 0) : Type 0 where
  pub blake : B
  pub small : Option S
  pub large : Option T

abbrev feed : {H : Type 0} → Hasher H → Bytes → Option H → Option H
feed hasher chunk none = none
feed hasher chunk (some h) = some (hasher.update h chunk)

module _ {B S T : Type 0} (blake3 : Hasher B) (sha_256 : Hasher S) (sha_512 : Hasher T) where
  abbrev pub start_hashing : Option DigestAlgorithm → Running B S T
  start_hashing none = record { blake = blake3.new; small = none; large = none }
  start_hashing (some sha256) = record {
    blake = blake3.new;
    small = some sha_256.new;
    large = none;
  }
  start_hashing (some sha512) = record {
    blake = blake3.new;
    small = none;
    large = some sha_512.new;
  }

  abbrev pub hash_chunk : Running B S T → Bytes → Running B S T
  hash_chunk h chunk = record {
    blake = blake3.update h.blake chunk;
    small = feed sha_256 chunk h.small;
    large = feed sha_512 chunk h.large;
  }

  abbrev pub server_digest : Option S → Option T → Option Bytes
  server_digest (some h) large = some (sha_256.finalize h)
  server_digest none (some h) = some (sha_512.finalize h)
  server_digest none none = none

  -- The loop of reads, which ends at the first empty one.
  unfoldable pub hash_reads :
      Running B S T → List (Result Bytes IoError) → Checked (Bytes × Option Bytes)
  hash_reads h [] = ok (blake3.finalize h.blake, server_digest h.small h.large)
  hash_reads h (err e ∷ reads) = err (io "read the part file for verification" e)
  hash_reads h (ok chunk ∷ reads) =
      let rest = hash_reads (hash_chunk h chunk) reads in
      if is_empty_chunk chunk
      then ok (blake3.finalize h.blake, server_digest h.small h.large)
      else rest

  module _ {F Q : Type 0} (fs : FileSystem F Q) where
    unfoldable pub hash_file : F → Q → Option ContentDigest → Checked (Bytes × Option Bytes)
    hash_file f path digest =
        failing "open the part file for verification" (fs.open_reads f path)
        >>= hash_reads (start_hashing (algorithm_offered digest))

    -- The checks in front of the seal.
    unfoldable pub verify :
        (Text → Option Bytes)
        → F
        → Q
        → ℕ
        → IntervalMap
        → Option ContentDigest
        → Checked (Bytes × DigestOutcome)
    verify decode f part_path total_length intervals digest =
        failing "measure the part file before verification" (fs.metadata f part_path) >>= λ actual.
        length_check total_length actual
        >> check_coverage intervals total_length
        >> hash_file f part_path digest
        >>= settle decode digest

    module _ {J : Type 0} (journals : DurableJournal J) where
      -- A result, the files and the journal that are left.
      abbrev pub Named : Type 0
      Named = Checked (Sealed Q) × F × J

      abbrev pub renamed : Sealed Q → J → Result (Unit {0}) IoError → F → Named
      renamed answer j (ok _) f = (ok answer, f, j)
      renamed answer j (err e) f =
          (err (io "rename the verified part file to its final name" e), f, j)

      abbrev pub rename_sealed : F → J → Q → Q → Sealed Q → Checked (Unit {0}) → Named
      rename_sealed f j part_path final_path answer (err e) = (err e, f, j)
      rename_sealed f j part_path final_path answer (ok _) =
          let (result, f') = fs.rename f part_path final_path in renamed answer j result f'

      abbrev pub sync_sealed : F → J → Q → Q → Sealed Q → Checked (Unit {0}) → Named
      sync_sealed f j part_path final_path answer (err e) = (err e, f, j)
      sync_sealed f j part_path final_path answer (ok _) =
          let (result, j') = journals.sync_data j in
          rename_sealed f j' part_path final_path answer (sealing result)

      -- The source's two calls of this function stand in `verify_and_rename`.
      unfoldable pub seal_and_rename : F → J → Q → Q → Bytes × DigestOutcome → ℕ → Named
      seal_and_rename f j part_path final_path (final_blake3, outcome) next_sequence =
          let (result, j') =
            journals.append j
              (record { sequence = next_sequence; record_ = sealed final_blake3 }) in
          sync_sealed f j' part_path final_path
            (record {
              final_path = final_path;
              final_blake3 = final_blake3;
              digest_checked = outcome;
            })
            (sealing result)

      unfoldable pub verify_and_rename :
          (Text → Option Bytes) → F → J → Q → Q → ℕ → IntervalMap → Option ContentDigest → ℕ → Named
      verify_and_rename decode f j part_path final_path total_length intervals digest
            next_sequence =
          elim (verify decode f part_path total_length intervals digest) [
            | err e ↦ (err e, f, j)
            | ok answer ↦ seal_and_rename f j part_path final_path answer next_sequence
          ]
