-- ===== src/Tests/Completion.antt =====
-- A verified file of four bytes in memory, and one whose bytes are not the server's. A hash is the
-- bytes that were fed, and two paths are the part file's (false) and the final one (true).
use downpour.Prelude.{
  ℕ, ◌≡◌, ◌++◌, refl, arith, Bool, true, false, Option, none, some, List, [], ◌∷◌, length, Result,
  ok, err,
}
use downpour.Intervals.{IntervalMap, complete, state_eq}
use downpour.Intervals.Partition.{IsCanonical}
use downpour.Journal.{Bytes, FramedRecord, sealed}
use downpour.PartFile.{IoError}
use downpour.Remote.{ContentDigest, sha256}
use downpour.Text.{Text}
use downpour.Writer.Batch.{DurableJournal}
use downpour.Completion.{
  Hasher, FileSystem, digest_mismatch, verified, coverage, check_coverage, difference,
  constant_time_eq, decode_digest, hash_reads, hash_file, verify, seal_and_rename,
  verify_and_rename,
}
use downpour.Completion.Digests.{IsHash}
use downpour.Completion.Named.{Branch, verify_and_rename_branches}

abbrev pub absorbing : Hasher Bytes
absorbing = record { new = []; update = ◌++◌; finalize = λ s. s }

abbrev pub itself : Bytes → Bytes
itself s = s

abbrev pub absorbing-IsHash : IsHash absorbing itself
absorbing-IsHash = record {
  after = itself;
  after_nothing = refl;
  update-after = λ s chunk. refl;
  finalize-after = λ s. refl;
}

record Disk : Type 0 where
  part : Option Bytes
  final : Option Bytes

abbrev at : Disk → Bool → Option Bytes
at d true = d.final
at d false = d.part

abbrev measure : Option Bytes → Result ℕ IoError
measure none = err none
measure (some s) = ok (length s)

abbrev read_all : Option Bytes → Result (List (Result Bytes IoError)) IoError
read_all none = err none
read_all (some s) = ok (ok s ∷ ok [] ∷ [])

abbrev disk_calls : FileSystem Disk Bool
disk_calls = record {
  metadata = λ d path. measure (at d path);
  open_reads = λ d path. read_all (at d path);
  rename = λ d old new. (ok tt, record { part = none; final = at d old });
}

abbrev records : DurableJournal (List FramedRecord)
records = record {
  total_length = λ j. 4;
  append = λ j r. (ok tt, r ∷ j);
  sync_data = λ j. (ok tt, j);
}

-- The payload is base64 in name only: of four bytes, padded to the algorithm's length.
abbrev padded : Bytes → Bytes
padded s =
    s
    ++ (0 ∷ 0 ∷ 0 ∷ 0 ∷ 0 ∷ 0 ∷ 0 ∷ 0 ∷ 0 ∷ 0 ∷ 0 ∷ 0 ∷ 0 ∷ 0 ∷ 0 ∷ 0 ∷ 0 ∷ 0 ∷ 0 ∷ 0 ∷ 0 ∷ 0 ∷ 0
        ∷ 0 ∷ 0 ∷ 0 ∷ 0 ∷ 0 ∷ [])

abbrev pub decode : Text → Option Bytes
decode s = some (padded s)

abbrev padding : Hasher Bytes
padding = record { new = []; update = ◌++◌; finalize = padded }

abbrev padding-IsHash : IsHash padding padded
padding-IsHash = record {
  after = itself;
  after_nothing = refl;
  update-after = λ s chunk. refl;
  finalize-after = λ s. refl;
}

abbrev four : Bytes
four = 1 ∷ 2 ∷ 3 ∷ 4 ∷ []

abbrev full_map : IntervalMap
full_map = record {
  total_length = 4;
  intervals = record { start = 0; end = 4; state = complete } ∷ [];
}

full_map-IsCanonical : IsCanonical full_map
full_map-IsCanonical = record { covers = omega arith; merged = (tt, tt) }

abbrev disk : Disk
disk = record { part = some four; final = none }

abbrev offered : Bytes → Option ContentDigest
offered s = some (record { algorithm = sha256; encoded = s })

names_verified_file :
    verify_and_rename absorbing padding absorbing disk_calls records decode disk [] false true 4
      full_map
      (offered four)
      7
    ≡ (
      ok (record { final_path = true; final_blake3 = four; digest_checked = verified sha256 }),
      record { part = none; final = some four },
      record { sequence = 7; record_ = sealed four } ∷ [],
    )
unfolding verify_and_rename verify seal_and_rename check_coverage coverage state_eq hash_file
    hash_reads decode_digest constant_time_eq difference
names_verified_file = refl

keeps_other_file :
    verify_and_rename absorbing padding absorbing disk_calls records decode disk [] false true 4
      full_map
      (offered (9 ∷ 2 ∷ 3 ∷ 4 ∷ []))
      7
    ≡ (err (digest_mismatch sha256), disk, [])
unfolding verify_and_rename verify check_coverage coverage state_eq hash_file hash_reads
    decode_digest constant_time_eq difference
keeps_other_file = refl

verify_and_rename_branches_example :
    Branch absorbing padding absorbing itself padded itself absorbing-IsHash padding-IsHash
      absorbing-IsHash disk_calls records decode disk [] false true 4 full_map
      (offered four)
      7
      (verify_and_rename absorbing padding absorbing disk_calls records decode disk [] false true 4
        full_map
        (offered four)
        7)
verify_and_rename_branches_example =
    verify_and_rename_branches absorbing padding absorbing itself padded itself absorbing-IsHash
      padding-IsHash absorbing-IsHash disk_calls records decode disk [] false true 4 full_map
      (offered four) 7 full_map-IsCanonical (omega arith)
