-- ===== src/PartFile.antt =====
-- crates/downpour-storage/src/part_file.rs: the file that a download's bytes are written into. The
-- operating system's file is an argument: a record of the calls that the source makes, each with the
-- file that it leaves. Paths are left out of the errors, and opening a path is an argument's result.
-- Linux is the platform that is modelled.
pub mod Extent
use Prim.Native.String.{String}
use downpour.Prelude.{
  ℕ, ◌+◌, ◌*◌, Bool, true, false, not, ◌||◌, Option, none, some, ltb, leb, ◌==◌, if◌then◌else◌,
  max_u64, length, Result, ok, err,
}
use downpour.Journal.{Bytes}

-- An io::Error, of which the code reads `raw_os_error`.
abbrev pub IoError : Type 0
IoError = Option ℕ

-- Paths are left out.
pub data PartFileError : Type 0 where
  missing : PartFileError
  cannot_shrink : ℕ → ℕ → PartFileError
  invalid_target : PartFileError
  unsupported_length : ℕ → PartFileError
  already_exists : PartFileError
  out_of_bounds : ℕ → ℕ → ℕ → PartFileError
  buffer_too_large : PartFileError
  part_file_io : String → IoError → PartFileError

pub data PreallocationMethod : Type 0 where
  not_needed : PreallocationMethod
  fallocate_keep_size : PreallocationMethod
  posix_fallocate : PreallocationMethod
  file_allocation_info : PreallocationMethod
  set_length : PreallocationMethod

-- Whether the method reserves space.
abbrev pub reserves : PreallocationMethod → Bool
reserves set_length = false
reserves method = true

pub record PartFile (F : Type 0) : Type 0 where
  pub file : F
  pub total_length : ℕ
  pub preallocation_method : PreallocationMethod

pub record RecoveredPartFile (F : Type 0) : Type 0 where
  pub part : PartFile F
  pub observed_length : ℕ
  pub reextended : Bool
  pub space_reserved : Bool

-- The calls of the operating system, and its codes for a call that it does not support.
pub record System (F : Type 0) : Type 0 where
  pub try_fallocate : F → ℕ → Result (Unit {0}) IoError × F
  pub try_posix_fallocate : F → ℕ → Result (Unit {0}) IoError × F
  pub set_len : F → ℕ → Result (Unit {0}) IoError × F
  pub measured_len : F → Result ℕ IoError
  pub blocks : F → Result ℕ IoError
  pub write_at : F → ℕ → Bytes → Result (Unit {0}) IoError × F
  pub fdatasync : F → Result (Unit {0}) IoError × F
  pub eopnotsupp : ℕ
  pub enosys : ℕ
  pub einval : ℕ

-- `io::ErrorKind` of a failure to open, as far as the code looks at it.
pub data OpenError : Type 0 where
  not_found : IoError → OpenError
  exists_already : IoError → OpenError
  other_error : IoError → OpenError

-- A file operation's result, and the file that it leaves.
abbrev pub OnFile : Type 0 → Type 0 → Type 0
OnFile F A = Result A IoError × F

abbrev pub Filed : Type 0 → Type 0
Filed A = Result A PartFileError

-- i64::MAX
abbrev pub max_i64 : ℕ
max_i64 = 9223372036854775807

abbrev pub io_result : {A : Type 0} → String → Result A IoError → Filed A
io_result operation (err source) = err (part_file_io operation source)
io_result operation (ok a) = ok a

module _ {F : Type 0} (system : System F) where
  abbrev is_unsupported : IoError → Bool
  is_unsupported none = false
  is_unsupported (some code) =
      code == system.eopnotsupp || code == system.enosys || code == system.einval

  -- `operations.set_len()?` and then the method.
  abbrev pub sized : F → ℕ → PreallocationMethod → OnFile F PreallocationMethod
  sized file total method =
      let (result, sized_file) = system.set_len file total in
      (elim result [ err e ↦ err e | ok _ ↦ ok method ], sized_file)

  -- Behind the second allocation call.
  abbrev pub after_posix : F → ℕ → Result (Unit {0}) IoError → OnFile F PreallocationMethod
  after_posix file total (ok _) = sized file total posix_fallocate
  after_posix file total (err e) =
      if is_unsupported e then sized file total set_length else (err e, file)

  -- Behind the first.
  abbrev pub after_fallocate : F → ℕ → Result (Unit {0}) IoError → OnFile F PreallocationMethod
  after_fallocate file total (ok _) = sized file total fallocate_keep_size
  after_fallocate file total (err e) =
      if is_unsupported e
      then (let (result, next) = system.try_posix_fallocate file total in
          after_posix next total result)
      else (err e, file)

  unfoldable pub prepare_with : F → ℕ → OnFile F PreallocationMethod
  prepare_with file total =
      let (result, next) = system.try_fallocate file total in after_fallocate next total result

  unfoldable pub prepare : F → ℕ → OnFile F PreallocationMethod
  prepare file total = if total == 0 then sized file 0 not_needed else prepare_with file total

  abbrev saturating_mul : ℕ → ℕ → ℕ
  saturating_mul a b = if ltb max_u64 (a * b) then max_u64 else a * b

  abbrev pub allocated_size : F → Filed ℕ
  allocated_size file =
      io_result "query part-file allocation"
        (elim (system.blocks file) [ err e ↦ err e | ok n ↦ ok (saturating_mul n 512) ])

  -- `create` behind the check of the target's name: what opening answered, the file that it made.
  abbrev created : ℕ → OnFile F PreallocationMethod → Filed (PartFile F) × F
  created total (err source, file) = (err (part_file_io "prepare part-file extent" source), file)
  created total (ok method, file) =
      (ok (record { file = file; total_length = total; preallocation_method = method }), file)

  -- The target has a file name or not, and opening the path answered so.
  unfoldable pub create : Bool → Result F OpenError → ℕ → Filed (PartFile F)
  create named opened total =
      if ltb max_i64 total
      then err (unsupported_length total)
      else if not named
      then err invalid_target
      else elim opened [
        | err (exists_already source) ↦ err already_exists
        | err (not_found source) ↦ err (part_file_io "create part file exclusively" source)
        | err (other_error source) ↦ err (part_file_io "create part file exclusively" source)
        | ok file ↦ (created total (prepare file total)).0
      ]

  unfoldable pub create_growable : Bool → Result F OpenError → Filed (PartFile F)
  create_growable named opened = if not named then err invalid_target else elim opened [
    | err (exists_already source) ↦ err already_exists
    | err (not_found source) ↦ err (part_file_io "create growable part file exclusively" source)
    | err (other_error source) ↦ err (part_file_io "create growable part file exclusively" source)
    | ok file ↦ ok (record { file = file; total_length = 0; preallocation_method = set_length })
  ]

  -- `open_existing` with a prepared extent, or with one that was long enough.
  abbrev pub extent_restored :
      ℕ → ℕ → OnFile F PreallocationMethod → Filed (RecoveredPartFile F) × F
  extent_restored total observed (err source, file) =
      (err (part_file_io "restore part-file extent" source), file)
  extent_restored total observed (ok method, file) = (
    ok (record {
      part = record { file = file; total_length = total; preallocation_method = method };
      observed_length = observed;
      reextended = true;
      space_reserved = reserves method;
    }),
    file,
  )

  abbrev pub extent_kept : F → ℕ → ℕ → Filed ℕ → Filed (RecoveredPartFile F) × F
  extent_kept file total observed (err e) = (err e, file)
  extent_kept file total observed (ok allocated) = (
    ok (record {
      part = record { file = file; total_length = total; preallocation_method = set_length };
      observed_length = observed;
      reextended = false;
      space_reserved = leb total allocated;
    }),
    file,
  )

  abbrev pub open_measured : F → ℕ → Result ℕ IoError → Filed (RecoveredPartFile F) × F
  open_measured file total (err source) =
      (err (part_file_io "measure recovered part-file extent" source), file)
  open_measured file total (ok observed) =
      if ltb observed total
      then extent_restored total observed (prepare file total)
      else extent_kept file total observed (allocated_size file)

  -- `open_existing` behind the opening: the result, and the file that is left.
  unfoldable pub reopen : F → ℕ → Filed (RecoveredPartFile F) × F
  reopen file total = open_measured file total (system.measured_len file)

  unfoldable pub open_existing : Result F OpenError → ℕ → Filed (RecoveredPartFile F)
  open_existing opened total =
      if ltb max_i64 total then err (unsupported_length total) else elim opened [
        | err (not_found source) ↦ err missing
        | err (exists_already source) ↦ err (part_file_io "reopen part file for recovery" source)
        | err (other_error source) ↦ err (part_file_io "reopen part file for recovery" source)
        | ok file ↦ (reopen file total).0
      ]

  abbrev extended : PartFile F → ℕ → OnFile F (Unit {0}) → Filed (Unit {0}) × PartFile F
  extended part new_length (err source, file) =
      (err (part_file_io "extend growable part-file extent" source), record part { file = file })
  extended part new_length (ok _, file) =
      (ok tt, record part { file = file; total_length = new_length })

  unfoldable pub extend_to : PartFile F → ℕ → Filed (Unit {0}) × PartFile F
  extend_to part new_length =
      if ltb new_length part.total_length
      then (err (cannot_shrink part.total_length new_length), part)
      else if new_length == part.total_length
      then (ok tt, part)
      else extended part new_length (system.set_len part.file new_length)

  abbrev pub in_bounds : ℕ → ℕ → ℕ → Bool
  in_bounds offset len total =
      if ltb max_u64 (offset + len) then false else leb (offset + len) total

  unfoldable pub write_all_at : PartFile F → ℕ → Bytes → Filed (Unit {0}) × PartFile F
  write_all_at part offset bytes =
      if not (in_bounds offset (length bytes) part.total_length)
      then (err (out_of_bounds offset (length bytes) part.total_length), part)
      else let (result, file) = system.write_at part.file offset bytes in
        (io_result "write part-file bytes positionally" result, record part { file = file })

  unfoldable pub sync_data : PartFile F → Filed (Unit {0}) × PartFile F
  sync_data part =
      let (result, file) = system.fdatasync part.file in
      (io_result "synchronise part-file data" result, record part { file = file })
