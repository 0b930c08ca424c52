-- ===== src/Completion/Digests.antt =====
-- What the comparison of digests answers, and what the running hashes end in.
use Prim.Native.Nat.{bit_or, bit_xor}
use downpour.Prelude.{
  ℕ, ◌≡◌, ◌↔◌, ◌∙◌, refl, ap, arith, true, Option, none, some, List, [], ◌∷◌, ◌++◌, append-nil,
  append_assoc, length, ok, err, Result, Bool-cases, inl, inr, ==_iff, ◌==◌,
}
use downpour.Bits.{bit_xor-zero_iff, bit_or-zero}
use downpour.Journal.{Bytes}
use downpour.PartFile.{IoError}
use downpour.Remote.{DigestAlgorithm, sha256, sha512}
use downpour.Completion.{
  difference, constant_time_eq, Hasher, Running, start_hashing, hash_chunk, hash_reads,
  server_digest, Checked, CompletionError,
}

difference-zero :
    (l m : Bytes) (diff : ℕ) → length l ≡ length m → difference diff l m ≡ 0 → (diff ≡ 0) × (l ≡ m)
unfolding difference
difference-zero [] [] diff k h = (h, refl)
difference-zero [] (b ∷ m) diff k h = absurd (omega arith)
difference-zero (a ∷ l) [] diff k h = absurd (omega arith)
difference-zero (a ∷ l) (b ∷ m) diff k h =
    let (both, tails) = difference-zero l m (bit_or diff (bit_xor a b)) (omega arith) h in
    let (old, now) = bit_or-zero diff (bit_xor a b) both in (old, cc ((bit_xor-zero_iff a b).0 now))

difference_self : (l : Bytes) → difference 0 l l ≡ 0
unfolding difference
difference_self [] = refl
difference_self (a ∷ l) = rw ((bit_xor-zero_iff a a).1 refl) (difference_self l)

-- The comparison without early exits is equality.
pub constant_time_eq_iff : (l m : Bytes) → (constant_time_eq l m ≡ true) ↔ (l ≡ m)
unfolding constant_time_eq
constant_time_eq_iff l m = (
  λ h. elim (Bool-cases (length l == length m)) [
    | inl e ↦ (difference-zero l m 0 ((==_iff _ _).0 e) ((==_iff _ _).0 (rw e at h))).1
    | inr e ↦ cc (rw e at h)
  ],
  λ h. rw (h, (==_iff (length m) (length m)).1 refl, difference_self m) refl,
)

-- A hash function's documented behaviour: its state depends on the bytes that it was fed, whatever the
-- pieces were, and it ends in the digest of them all.
pub record IsHash {H : Type 0} (hasher : Hasher H) (digest : Bytes → Bytes) : Type 0 where
  pub after : Bytes → H
  pub after_nothing : hasher.new ≡ after []
  pub update-after : (s chunk : Bytes) → hasher.update (after s) chunk ≡ after (s ++ chunk)
  pub finalize-after : (s : Bytes) → hasher.finalize (after s) ≡ digest s

-- The file that a sequence of reads shows: what stands in front of the first empty one, and nothing
-- where a read fails before it.
abbrev pub prepend : Bytes → Option Bytes → Option Bytes
prepend chunk none = none
prepend chunk (some rest) = some (chunk ++ rest)

unfoldable pub contents : List (Result Bytes IoError) → Option Bytes
contents [] = some []
contents (err e ∷ reads) = none
contents (ok [] ∷ reads) = some []
contents (ok (b ∷ bs) ∷ reads) = prepend (b ∷ bs) (contents reads)

module _ (ours small large : Bytes → Bytes) where
  -- The server's algorithm on a file.
  abbrev pub digest_by : DigestAlgorithm → Bytes → Bytes
  digest_by sha256 = small
  digest_by sha512 = large

  -- The hashes of a file, ours and the server's.
  abbrev pub hashes_of : Option DigestAlgorithm → Bytes → Bytes × Option Bytes
  hashes_of none s = (ours s, none)
  hashes_of (some a) s = (ours s, some (digest_by a s))

  -- What the loop of reads is to answer: the hashes of what was fed and of the file's rest.
  abbrev pub Hashed :
      Option DigestAlgorithm → Bytes → Option Bytes → Checked (Bytes × Option Bytes) → Type 0
  Hashed a s none answer = (e : CompletionError) × (answer ≡ err e)
  Hashed a s (some rest) answer = answer ≡ ok (hashes_of a (s ++ rest))

module _ {B S T : Type 0} (blake3 : Hasher B) (sha_256 : Hasher S) (sha_512 : Hasher T)
    (ours small large : Bytes → Bytes) (blake3-IsHash : IsHash blake3 ours)
    (sha_256-IsHash : IsHash sha_256 small) (sha_512-IsHash : IsHash sha_512 large) where
  abbrev running : Option DigestAlgorithm → Bytes → Running B S T
  running none s = record { blake = blake3-IsHash.after s; small = none; large = none }
  running (some sha256) s = record {
    blake = blake3-IsHash.after s;
    small = some (sha_256-IsHash.after s);
    large = none;
  }
  running (some sha512) s = record {
    blake = blake3-IsHash.after s;
    small = none;
    large = some (sha_512-IsHash.after s);
  }

  start_hashing-running :
      (a : Option DigestAlgorithm) → start_hashing blake3 sha_256 sha_512 a ≡ running a []
  start_hashing-running none = rw blake3-IsHash.after_nothing
  start_hashing-running (some sha256) =
      rw (blake3-IsHash.after_nothing, sha_256-IsHash.after_nothing)
  start_hashing-running (some sha512) =
      rw (blake3-IsHash.after_nothing, sha_512-IsHash.after_nothing)

  hash_chunk-running :
      (a : Option DigestAlgorithm) (s chunk : Bytes)
      → hash_chunk blake3 sha_256 sha_512 (running a s) chunk ≡ running a (s ++ chunk)
  hash_chunk-running none s chunk = rw (blake3-IsHash.update-after s chunk)
  hash_chunk-running (some sha256) s chunk =
      rw (blake3-IsHash.update-after s chunk, sha_256-IsHash.update-after s chunk)
  hash_chunk-running (some sha512) s chunk =
      rw (blake3-IsHash.update-after s chunk, sha_512-IsHash.update-after s chunk)

  abbrev finished : Running B S T → Bytes × Option Bytes
  finished h = (blake3.finalize h.blake, server_digest blake3 sha_256 sha_512 h.small h.large)

  finalize-running :
      (a : Option DigestAlgorithm) (s : Bytes)
      → finished (running a s) ≡ hashes_of ours small large a s
  finalize-running none s = rw (blake3-IsHash.finalize-after s)
  finalize-running (some sha256) s =
      rw (blake3-IsHash.finalize-after s, sha_256-IsHash.finalize-after s)
  finalize-running (some sha512) s =
      rw (blake3-IsHash.finalize-after s, sha_512-IsHash.finalize-after s)

  hash_reads-Hashed :
      (a : Option DigestAlgorithm) (reads : List (Result Bytes IoError)) (s : Bytes)
      → Hashed ours small large a s
          (contents reads)
          (hash_reads blake3 sha_256 sha_512 (running a s) reads)
  unfolding hash_reads contents
  hash_reads-Hashed a [] s = rw append-nil (ap ok (finalize-running a s))
  hash_reads-Hashed a (err e ∷ reads) s = (_, refl)
  hash_reads-Hashed a (ok [] ∷ reads) s = rw append-nil (ap ok (finalize-running a s))
  hash_reads-Hashed a (ok (b ∷ bs) ∷ reads) s =
      rw (hash_chunk-running a s (b ∷ bs))
        (longer _ (contents reads) (hash_reads-Hashed a reads (s ++ (b ∷ bs))))
    where
      longer :
          (answer : Checked (Bytes × Option Bytes)) (o : Option Bytes)
          → Hashed ours small large a (s ++ (b ∷ bs)) o answer
          → Hashed ours small large a s (prepend (b ∷ bs) o) answer
      longer answer none h = h
      longer answer (some rest) h = h ∙ rw (append_assoc s (b ∷ bs) rest)

  -- Behind a successful opening the loop answers the hashes of the file that the reads show, and an
  -- error where a read fails.
  pub hash_reads-contents :
      (a : Option DigestAlgorithm) (reads : List (Result Bytes IoError))
      → Hashed ours small large a []
          (contents reads)
          (hash_reads blake3 sha_256 sha_512 (start_hashing blake3 sha_256 sha_512 a) reads)
  hash_reads-contents a reads = rw (start_hashing-running a) (hash_reads-Hashed a reads [])
