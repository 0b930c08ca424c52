-- ===== src/PartFile/Extent.antt =====
-- What `open_existing` does to the file's extent.
use mathlib.Core.Path.{subst}
use downpour.Prelude.{
  ok-injective, ℕ, ◌≤◌, ◌<◌, Bool, true, false, ◌≡◌, refl, sym, arith, inl, inr, Bool-cases,
  if◌then◌else◌, ltb, ◌==◌, max, Result, Result-cases, ok, err,
}
use downpour.PartFile.{
  IoError, PartFileError, Filed, OnFile, PreallocationMethod, fallocate_keep_size, posix_fallocate,
  set_length, RecoveredPartFile, System, sized, after_posix, after_fallocate, prepare_with, prepare,
  extent_restored, extent_kept, open_measured, allocated_size, reopen, is_unsupported,
}

module _ {F : Type 0} (system : System F) where
  -- What the documentation of the system's calls says of a file's length. `posix_fallocate` may fail
  -- half-way.
  pub record SizeLaws : Type 0 where
    pub size : F → ℕ
    pub measured : (f : F) (n : ℕ) → system.measured_len f ≡ ok n → size f ≡ n
    pub fallocate_keeps : (f : F) (n : ℕ) → size (system.try_fallocate f n).1 ≡ size f
    pub posix_grows :
        (f : F) (n : ℕ)
        → (size f ≤ size (system.try_posix_fallocate f n).1)
          × (size (system.try_posix_fallocate f n).1 ≤ max (size f) n)
    pub set_len_sets :
        (f : F) (n : ℕ) → (system.set_len f n).0 ≡ ok tt → size (system.set_len f n).1 ≡ n
    pub set_len_failed :
        (f : F) (n : ℕ) (e : IoError)
        → (system.set_len f n).0 ≡ err e
        → size (system.set_len f n).1 ≡ size f

  module _ (laws : SizeLaws) where
    -- From `least` bytes the file never falls, and after a success it has `total`.
    record Grown (least total : ℕ) (out : OnFile F PreallocationMethod) : Type 0 where
      kept : least ≤ laws.size out.1
      reached : (method : PreallocationMethod) → out.0 ≡ ok method → laws.size out.1 ≡ total

    sized-Grown :
        (f : F) (least total : ℕ) (method : PreallocationMethod)
        → least ≤ laws.size f
        → least ≤ total
        → Grown least total (sized system f total method)
    sized-Grown f least total method low enough = elim (Result-cases (system.set_len f total).0) [
      | inl done ↦
          let same = laws.set_len_sets f total done in
          record { kept = omega (arith, same, enough); reached = λ m h. same }
      | inr (e, failed) ↦
          let same = laws.set_len_failed f total e failed in
          record { kept = omega (arith, same, low); reached = λ m h. cc (rw failed at h) }
    ]

    failed-Grown :
        (f : F) (least total : ℕ) (e : IoError) → least ≤ laws.size f → Grown least total (err e, f)
    failed-Grown f least total e low = record { kept = low; reached = λ m h. cc }

    after_posix-Grown :
        (f : F) (least total : ℕ) (result : Result (Unit {0}) IoError)
        → least ≤ laws.size f
        → least ≤ total
        → Grown least total (after_posix system f total result)
    after_posix-Grown f least total (ok _) low enough =
        sized-Grown f least total posix_fallocate low enough
    after_posix-Grown f least total (err e) low enough = unsupported (is_unsupported system e)
      where
        unsupported :
            (b : Bool)
            → Grown least total (if b then sized system f total set_length else (err e, f))
        unsupported true = sized-Grown f least total set_length low enough
        unsupported false = failed-Grown f least total e low

    after_fallocate-Grown :
        (f : F) (least total : ℕ) (result : Result (Unit {0}) IoError)
        → least ≤ laws.size f
        → least ≤ total
        → Grown least total (after_fallocate system f total result)
    after_fallocate-Grown f least total (ok _) low enough =
        sized-Grown f least total fallocate_keep_size low enough
    after_fallocate-Grown f least total (err e) low enough = unsupported (is_unsupported system e)
      where
        next : F
        next = (system.try_posix_fallocate f total).1

        unsupported :
            (b : Bool)
            → Grown least total (
                if b
                then after_posix system next total (system.try_posix_fallocate f total).0
                else (err e, f))
        unsupported true =
            after_posix-Grown next least total (system.try_posix_fallocate f total).0
              (omega (arith, low, (laws.posix_grows f total).0)) enough
        unsupported false = failed-Grown f least total e low

    prepare-Grown :
        (f : F) (total : ℕ)
        → laws.size f < total
        → Grown (laws.size f) total (prepare system f total)
    unfolding prepare prepare_with
    prepare-Grown f total short = rw (some_bytes total short) (
        after_fallocate-Grown (system.try_fallocate f total).1 (laws.size f) total
          (system.try_fallocate f total).0 (omega (arith, laws.fallocate_keeps f total))
          (omega (arith, short)))
      where
        some_bytes : (n : ℕ) → laws.size f < n → (n == 0) ≡ false
        some_bytes n h = ground arith

    -- What a success tells of the file that is left.
    abbrev pub Tells : F → ℕ → F → RecoveredPartFile F → Type 0
    Tells f total after r =
        (r.observed_length ≡ laws.size f)
        × (r.part.total_length ≡ total)
        × (r.part.file ≡ after)
        × (total ≤ laws.size after)
        × (r.reextended ≡ ltb (laws.size f) total)

    -- Nothing of the file is cut off.
    pub record Reopened (f : F) (total : ℕ) (out : Filed (RecoveredPartFile F) × F) : Type 0 where
      pub never_shrinks : laws.size f ≤ laws.size out.1
      pub success : (r : RecoveredPartFile F) → out.0 ≡ ok r → Tells f total out.1 r

    succeeded :
        (f : F) (total : ℕ) (r : RecoveredPartFile F) (after : F)
        → laws.size f ≤ laws.size after
        → Tells f total after r
        → Reopened f total (ok r, after)
    succeeded f total r after kept tells = record {
      never_shrinks = kept;
      success = λ s h. subst (Tells f total after) (ok-injective r s h) tells;
    }

    failed :
        (f : F) (total : ℕ) (e : PartFileError) (after : F)
        → laws.size f ≤ laws.size after
        → Reopened f total (err e, after)
    failed f total e after kept = record { never_shrinks = kept; success = λ r h. cc }

    restored :
        (f : F) (total : ℕ) (out : OnFile F PreallocationMethod)
        → laws.size f < total
        → Grown (laws.size f) total out
        → Reopened f total (extent_restored system total (laws.size f) out)
    restored f total (err e, after) short g = failed f total _ after g.kept
    restored f total (ok method, after) short g = succeeded f total _ after g.kept (
      refl,
      refl,
      refl,
      omega (arith, g.reached method refl),
      sym (short_test (laws.size f) total short),
    )
      where
        short_test : (a b : ℕ) → a < b → ltb a b ≡ true
        short_test a b h = ground arith

    kept :
        (f : F) (total : ℕ) (allocated : Filed ℕ)
        → total ≤ laws.size f
        → Reopened f total (extent_kept system f total (laws.size f) allocated)
    kept f total (err e) long = failed f total e f (omega arith)
    kept f total (ok n) long =
        succeeded f total _ f (omega arith)
          (refl, refl, refl, long, sym (long_test (laws.size f) total long))
      where
        long_test : (a b : ℕ) → b ≤ a → ltb a b ≡ false
        long_test a b h = ground arith

    measured-Reopened :
        (f : F) (total : ℕ) → Reopened f total (open_measured system f total (ok (laws.size f)))
    measured-Reopened f total = elim (Bool-cases (ltb (laws.size f) total)) [
      | inl short ↦ rw short (
          restored f total (prepare system f total) (ground arith)
            (prepare-Grown f total (ground arith)))
      | inr long ↦ rw long (kept f total (allocated_size system f) (ground arith))
    ]

    -- Reopening a part file never shortens it, whatever the system's calls answer; when it succeeds it
    -- reports the length that was found, the file has the representation's length at least, and it
    -- was extended exactly if it was shorter.
    pub reopen-never_shrinks : (f : F) (total : ℕ) → Reopened f total (reopen system f total)
    unfolding reopen
    reopen-never_shrinks f total = length_known (system.measured_len f) refl
      where
        length_known :
            (result : Result ℕ IoError)
            → system.measured_len f ≡ result
            → Reopened f total (open_measured system f total result)
        length_known (err e) same = failed f total _ f (omega arith)
        length_known (ok n) same = rw (sym (laws.measured f n same)) (measured-Reopened f total)
