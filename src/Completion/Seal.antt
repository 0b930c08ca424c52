-- ===== src/Completion/Seal.antt =====
-- A file gets its final name only behind every check and a durable seal.
use downpour.Prelude.{
  ℕ, ◌≡◌, ◌≤◌, ◌↔◌, ◌∙◌, inl, inr, refl, ap, arith, Option, none, some, List, [], max_u64, Result,
  ok, err, ◌>>◌, ok-bind, ok-then, ok-injective, Bool-cases, ==_iff,
}
use downpour.Text.{Text}
use downpour.Intervals.{IntervalMap, complete}
use downpour.Intervals.Partition.{IsCanonical}
use downpour.Intervals.Match.{AllIn}
use downpour.Journal.{Bytes}
use downpour.PartFile.{IoError}
use downpour.Remote.{ContentDigest, DigestAlgorithm}
use downpour.Completion.{
  String, DigestOutcome, not_offered, verified, unusable, FileSystem, Hasher, hash_reads,
  start_hashing, algorithm_offered, check_coverage, constant_time_eq, decode_digest, compare_digest,
  judge_payload, verify, hash_file, failing, length_check, settle,
}
use downpour.Completion.Coverage.{check_coverage_iff}
use downpour.Completion.Digests.{
  IsHash, contents, digest_by, hashes_of, Hashed, hash_reads-contents, constant_time_eq_iff,
}

-- What is reported of an offered digest, given its decoded payload and the file's digest.
abbrev pub ReportedPayload : DigestAlgorithm → Option Bytes → Bytes → DigestOutcome → Type 0
ReportedPayload a none digest outcome =
    outcome ≡ unusable "digest payload is not valid base64 of the algorithm's length"
ReportedPayload a (some expected) digest outcome = (expected ≡ digest) × (outcome ≡ verified a)

failing-ok {ℓ} :
    {A : Type ℓ} (operation : String) (r : Result A IoError) (a : A)
    → failing operation r ≡ ok a
    → r ≡ ok a
failing-ok operation (ok b) a h = cc
failing-ok operation (err e) a h = cc

judge_payload_iff :
    (a : DigestAlgorithm) (o : Option Bytes) (digest : Bytes) (outcome : DigestOutcome)
    → (judge_payload a o digest ≡ ok outcome) ↔ ReportedPayload a o digest outcome
judge_payload_iff a none digest outcome = (λ h. cc, λ h. rw h)
judge_payload_iff a (some expected) digest outcome =
    elim (Bool-cases (constant_time_eq expected digest)) [
      | inl e ↦ rw e (λ h. ((constant_time_eq_iff expected digest).0 e, cc), λ h. rw h.1)
      | inr e ↦ rw e (λ h. cc, λ h. cc (e, (constant_time_eq_iff expected digest).1 h.0))
    ]

module _ {B S T F Q : Type 0} (blake3 : Hasher B) (sha_256 : Hasher S) (sha_512 : Hasher T)
    (ours small large : Bytes → Bytes) (blake3-IsHash : IsHash blake3 ours)
    (sha_256-IsHash : IsHash sha_256 small) (sha_512-IsHash : IsHash sha_512 large)
    (fs : FileSystem F Q) (decode : Text → Option Bytes) where
  abbrev pub Reported : Option ContentDigest → Bytes → DigestOutcome → Type 0
  Reported none content outcome = outcome ≡ not_offered
  Reported (some d) content outcome =
      ReportedPayload d.algorithm (decode_digest decode d)
        (digest_by ours small large d.algorithm content) outcome

  -- The file has the representation's length, every byte of it is complete in the map, and it reads as
  -- a content that has the offered digest where one can be decoded; the answer is our hash of that
  -- content and what became of the digest.
  pub record Verified (f : F) (part_path : Q) (total : ℕ) (m : IntervalMap)
      (digest : Option ContentDigest) (answer : Bytes × DigestOutcome) : Type 0 where
    pub content : Bytes
    pub reads : List (Result Bytes IoError)
    pub measured : fs.metadata f part_path ≡ ok total
    pub total_of_map : total ≡ m.total_length
    pub covered : AllIn (record { start = 0; end = total }) complete m.intervals
    pub opened : fs.open_reads f part_path ≡ ok reads
    pub read : contents reads ≡ some content
    pub hashed_ours : answer.0 ≡ ours content
    pub reported : Reported digest content answer.1

  compare_digest_iff :
      (digest : Option ContentDigest) (content : Bytes) (outcome : DigestOutcome)
      → (compare_digest decode digest
            (hashes_of ours small large (algorithm_offered digest) content).1
          ≡ ok outcome)
        ↔ Reported digest content outcome
  compare_digest_iff none content outcome = (λ h. cc, λ h. rw h)
  compare_digest_iff (some d) content outcome =
      judge_payload_iff d.algorithm (decode_digest decode d)
        (digest_by ours small large d.algorithm content) outcome

  settled :
      (digest : Option ContentDigest) (content : Bytes) (hashes : Bytes × Option Bytes)
      (answer : Bytes × DigestOutcome)
      → hashes ≡ hashes_of ours small large (algorithm_offered digest) content
      → settle decode digest hashes ≡ ok answer
      → (answer.0 ≡ ours content) × Reported digest content answer.1
  settled digest content hashes answer same h =
      let (outcome, k, compared) =
        ok-bind (compare_digest decode digest hashes.1) (λ o. ok (hashes.0, o)) answer h in
      let reported = (compare_digest_iff digest content outcome).0 (rw same at compared) in
      parts digest outcome reported (ok-injective _ _ (rw same at k))
    where
      parts :
          (d : Option ContentDigest) (outcome : DigestOutcome)
          → Reported d content outcome
          → ((hashes_of ours small large (algorithm_offered d) content).0, outcome) ≡ answer
          → (answer.0 ≡ ours content) × Reported d content answer.1
      parts none outcome r k = rw (← k) (refl, r)
      parts (some d) outcome r k = rw (← k) (refl, r)

  settles :
      (digest : Option ContentDigest) (content : Bytes) (answer : Bytes × DigestOutcome)
      → answer.0 ≡ ours content
      → Reported digest content answer.1
      → settle decode digest (hashes_of ours small large (algorithm_offered digest) content)
        ≡ ok answer
  settles none content answer k r = rw (← k, ← r) refl
  settles (some d) content answer k r =
      rw
        (
          (judge_payload_iff d.algorithm (decode_digest decode d)
                (digest_by ours small large d.algorithm content) answer.1).1
              r,
          ← k,
        )
        refl

  read_file :
      (a : Option DigestAlgorithm) (reads : List (Result Bytes IoError))
      (hashes : Bytes × Option Bytes)
      → hash_reads blake3 sha_256 sha_512 (start_hashing blake3 sha_256 sha_512 a) reads ≡ ok hashes
      → (content : Bytes) × (contents reads ≡ some content)
        × (hashes ≡ hashes_of ours small large a content)
  read_file a reads hashes h = shown (contents reads) (
      hash_reads-contents blake3 sha_256 sha_512 ours small large blake3-IsHash sha_256-IsHash
        sha_512-IsHash a reads)
    where
      shown :
          (o : Option Bytes)
          → Hashed ours small large a [] o
              (hash_reads blake3 sha_256 sha_512 (start_hashing blake3 sha_256 sha_512 a) reads)
          → (content : Bytes) × (o ≡ some content) × (hashes ≡ hashes_of ours small large a content)
      shown none (e, k) = cc
      shown (some content) k = (content, refl, cc)

  module _ (f : F) (part_path : Q) (total : ℕ) (m : IntervalMap) (digest : Option ContentDigest)
      (answer : Bytes × DigestOutcome) (m-IsCanonical : IsCanonical m)
      (m-u64 : m.total_length ≤ max_u64) where
    verify-Verified :
        verify blake3 sha_256 sha_512 fs decode f part_path total m digest ≡ ok answer
        → Verified f part_path total m digest answer
    unfolding verify hash_file
    verify-Verified h =
        let (actual, h₁, measured) = ok-bind (failing _ (fs.metadata f part_path)) _ answer h in
        let (hashes, h₂, guarded) =
          ok-bind
            (length_check total actual
              >> check_coverage m total
              >> hash_file blake3 sha_256 sha_512 fs f part_path digest)
            (settle decode digest) answer h₁ in
        let (checks, hashed) =
          ok-then (length_check total actual >> check_coverage m total)
            (hash_file blake3 sha_256 sha_512 fs f part_path digest) hashes guarded in
        let (sized, covered) =
          ok-then (length_check total actual) (check_coverage m total) tt checks in
        let (total_of_map, all_in) = (check_coverage_iff m total m-IsCanonical m-u64).0 covered in
        let (reads, loop, opened) =
          ok-bind (failing _ (fs.open_reads f part_path))
            (hash_reads blake3 sha_256 sha_512
              (start_hashing blake3 sha_256 sha_512 (algorithm_offered digest)))
            hashes hashed in
        let (content, read, same) = read_file (algorithm_offered digest) reads hashes loop in
        let (ours_hash, reported) = settled digest content hashes answer same h₂ in
        let exact : actual ≡ total = ground arith in
        record {
          content = content;
          reads = reads;
          measured = failing-ok _ _ _ measured ∙ ap ok exact;
          total_of_map = total_of_map;
          covered = all_in;
          opened = failing-ok _ _ _ opened;
          read = read;
          hashed_ours = ours_hash;
          reported = reported;
        }

    Verified-verify :
        Verified f part_path total m digest answer
        → verify blake3 sha_256 sha_512 fs decode f part_path total m digest ≡ ok answer
    unfolding verify hash_file
    Verified-verify v =
        let read_back =
          hash_reads-contents blake3 sha_256 sha_512 ours small large blake3-IsHash sha_256-IsHash
            sha_512-IsHash (algorithm_offered digest) v.reads in
        rw
          (
            v.measured,
            (==_iff total total).1 refl,
            (check_coverage_iff m total m-IsCanonical m-u64).1 (v.total_of_map, v.covered),
            v.opened,
            rw v.read at read_back,
          )
          (settles digest v.content answer v.hashed_ours v.reported)

    -- The checks in front of the seal pass exactly for a file that is verified.
    pub verify_iff :
        (verify blake3 sha_256 sha_512 fs decode f part_path total m digest ≡ ok answer)
        ↔ Verified f part_path total m digest answer
    verify_iff = (verify-Verified, Verified-verify)
