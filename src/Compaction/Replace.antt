-- ===== src/Compaction/Replace.antt =====
-- crates/downpour-storage/src/journal/compaction.rs: replacing the journal. The operating system's
-- directory is an argument: a record of the calls on the journal's path and on the sibling with the
-- ending `.new`, each with the directory that it leaves. The hook is a function of the boundary.
use Prim.Native.String.{String}
use downpour.Prelude.{[], ◌++◌, ◌≡◌, ◌⊎◌, refl, ap, ◌∙◌, inl, inr, Result, ok, err}
use downpour.Journal.{Bytes}

pub data ReplacementBoundary : Type 0 where
  new_file_created : ReplacementBoundary
  new_file_synced : ReplacementBoundary
  renamed : ReplacementBoundary
  directory_synced : ReplacementBoundary

-- An io::Result with the directory that is left.
abbrev pub InDirectory : Type 0 → Type 0
InDirectory X = Result (Unit {0}) String × X

pub record Directory (X : Type 0) : Type 0 where
  pub open_new : X → InDirectory X
  pub write_new : X → Bytes → InDirectory X
  pub sync_new : X → InDirectory X
  pub rename_new : X → InDirectory X
  pub sync_parent : X → InDirectory X

-- `?`
abbrev pub and_then : {X : Type 0} → InDirectory X → (X → InDirectory X) → InDirectory X
and_then (err e, x) k = (err e, x)
and_then (ok _, x) k = k x

module _ {X : Type 0} (directory : Directory X) where
  -- The steps, the last one first.
  module _ (hook : ReplacementBoundary → Result (Unit {0}) String) where
    abbrev pub sync_directory : X → InDirectory X
    sync_directory x = and_then (directory.sync_parent x) λ done. (hook directory_synced, done)

    abbrev pub rename_over : X → InDirectory X
    rename_over x =
        and_then (directory.rename_new x) λ moved. and_then (hook renamed, moved) sync_directory

    abbrev pub sync_file : X → InDirectory X
    sync_file x =
        and_then (directory.sync_new x)
          λ synced. and_then (hook new_file_synced, synced) rename_over

    abbrev pub write_file : Bytes → X → InDirectory X
    write_file replacement x = and_then (directory.write_new x replacement) sync_file

    unfoldable pub replace_atomically_with_hook : X → Bytes → InDirectory X
    replace_atomically_with_hook x replacement =
        and_then (directory.open_new x)
          λ created. and_then (hook new_file_created, created) (write_file replacement)

  abbrev pub replace_atomically : X → Bytes → InDirectory X
  replace_atomically x replacement = replace_atomically_with_hook (λ boundary. ok tt) x replacement

  -- The documented behaviour of the calls on Unix, for what is read now and for what is read after a
  -- crash: only the rename touches the journal's path, and does so at once. A crash finds at the path
  -- what was there before the rename or the renamed file, which has its bytes for sure only where they
  -- were synced; the sync of the parent directory makes the rename itself durable.
  pub record DirectoryLaws : Type 1 where
    pub journal : X → Bytes
    pub sibling : X → Bytes
    -- A crash at this moment may leave these bytes at the journal's path.
    pub MayLeave : X → Bytes → Type 0
    -- All bytes of the sibling, or of the file at the journal's path, are on the disk.
    pub SiblingStored : X → Type 0
    pub JournalStored : X → Type 0
    pub open_keeps : (x : X) → journal (directory.open_new x).1 ≡ journal x
    pub open_empties :
        (x : X) → (directory.open_new x).0 ≡ ok tt → sibling (directory.open_new x).1 ≡ []
    pub open_leaves : (x : X) (s : Bytes) → MayLeave (directory.open_new x).1 s → MayLeave x s
    pub write_keeps : (x : X) (s : Bytes) → journal (directory.write_new x s).1 ≡ journal x
    pub write_appends :
        (x : X) (s : Bytes)
        → (directory.write_new x s).0 ≡ ok tt
        → sibling (directory.write_new x s).1 ≡ sibling x ++ s
    pub write_leaves : (x : X) (s t : Bytes) → MayLeave (directory.write_new x s).1 t → MayLeave x t
    pub sync_keeps : (x : X) → journal (directory.sync_new x).1 ≡ journal x
    pub sync_keeps_sibling : (x : X) → sibling (directory.sync_new x).1 ≡ sibling x
    pub sync_stores :
        (x : X) → (directory.sync_new x).0 ≡ ok tt → SiblingStored (directory.sync_new x).1
    pub sync_leaves : (x : X) (s : Bytes) → MayLeave (directory.sync_new x).1 s → MayLeave x s
    pub rename_moves :
        (x : X)
        → (directory.rename_new x).0 ≡ ok tt
        → journal (directory.rename_new x).1 ≡ sibling x
    pub rename_failed :
        (x : X)
        → (journal (directory.rename_new x).1 ≡ journal x)
          ⊎ (journal (directory.rename_new x).1 ≡ sibling x)
    pub rename_leaves :
        (x : X) (s : Bytes)
        → SiblingStored x
        → MayLeave (directory.rename_new x).1 s
        → MayLeave x s ⊎ (s ≡ sibling x)
    pub rename_stores :
        (x : X)
        → SiblingStored x
        → (directory.rename_new x).0 ≡ ok tt
        → JournalStored (directory.rename_new x).1
    pub parent_keeps : (x : X) → journal (directory.sync_parent x).1 ≡ journal x
    pub parent_leaves : (x : X) (s : Bytes) → MayLeave (directory.sync_parent x).1 s → MayLeave x s
    pub parent_commits :
        (x : X) (s : Bytes)
        → JournalStored x
        → (directory.sync_parent x).0 ≡ ok tt
        → MayLeave (directory.sync_parent x).1 s
        → s ≡ journal x

  module _ (laws : DirectoryLaws) (old replacement : Bytes) where
    -- Nothing has happened to the journal, also not in the eyes of a crash.
    pub record IsOld (x : X) : Type 0 where
      pub reads : laws.journal x ≡ old
      pub survives : (s : Bytes) → laws.MayLeave x s → s ≡ old

    -- The journal reads as the old one or as the replacement, and so it does after a crash.
    pub record IsEither (x : X) : Type 0 where
      pub reads : (laws.journal x ≡ old) ⊎ (laws.journal x ≡ replacement)
      pub survives : (s : Bytes) → laws.MayLeave x s → (s ≡ old) ⊎ (s ≡ replacement)

    -- After a success the journal is the replacement, and so it is after a crash.
    pub record IsReplaced (out : InDirectory X) : Type 0 where
      pub never_mixed : IsEither out.1
      pub success : out.0 ≡ ok tt → laws.journal out.1 ≡ replacement
      pub durable : out.0 ≡ ok tt → (s : Bytes) → laws.MayLeave out.1 s → s ≡ replacement

    IsOld-IsEither : (x : X) → IsOld x → IsEither x
    IsOld-IsEither x o = record { reads = inl o.reads; survives = λ s h. inl (o.survives s h) }

    and_then-IsReplaced :
        (first : InDirectory X) (k : X → InDirectory X)
        → IsEither first.1
        → (first.0 ≡ ok tt → IsReplaced (k first.1))
        → IsReplaced (and_then first k)
    and_then-IsReplaced (err e, x) k kept next = record {
      never_mixed = kept;
      success = λ h. cc;
      durable = λ h. cc;
    }
    and_then-IsReplaced (ok tt, x) k kept next = next refl

    module _ (hook : ReplacementBoundary → Result (Unit {0}) String) where
      sync_directory-IsReplaced :
          (x : X)
          → laws.journal x ≡ replacement
          → laws.JournalStored x
          → IsEither x
          → IsReplaced (sync_directory hook x)
      sync_directory-IsReplaced x new stored either =
          let after = laws.parent_keeps x ∙ new in
          let kept : IsEither (directory.sync_parent x).1 = record {
            reads = inr after;
            survives = λ s h. either.survives s (laws.parent_leaves x s h);
          } in
          and_then-IsReplaced (directory.sync_parent x) (λ done. (hook directory_synced, done)) kept
            λ synced. record {
              never_mixed = kept;
              success = λ h. after;
              durable = λ h s left. laws.parent_commits x s stored synced left ∙ new;
            }

      rename_over-IsReplaced :
          (x : X)
          → IsOld x
          → laws.sibling x ≡ replacement
          → laws.SiblingStored x
          → IsReplaced (rename_over hook x)
      rename_over-IsReplaced x before new stored =
          let moved = (directory.rename_new x).1 in
          let either : IsEither moved = record {
            reads = elim (laws.rename_failed x) [
              | inl same ↦ inl (same ∙ before.reads)
              | inr there ↦ inr (there ∙ new)
            ];
            survives = λ s h. elim (laws.rename_leaves x s stored h) [
              | inl same ↦ inl (before.survives s same)
              | inr there ↦ inr (there ∙ new)
            ];
          } in
          and_then-IsReplaced (directory.rename_new x)
            (λ y. and_then (hook renamed, y) (sync_directory hook)) either
            λ done.
              and_then-IsReplaced (hook renamed, moved) (sync_directory hook) either
                λ hooked.
                  sync_directory-IsReplaced moved (laws.rename_moves x done ∙ new)
                    (laws.rename_stores x stored done) either

      sync_file-IsReplaced :
          (x : X) → IsOld x → laws.sibling x ≡ replacement → IsReplaced (sync_file hook x)
      sync_file-IsReplaced x before new =
          let c = (directory.sync_new x).1 in
          let at_c : IsOld c = record {
            reads = laws.sync_keeps x ∙ before.reads;
            survives = λ s h. before.survives s (laws.sync_leaves x s h);
          } in
          and_then-IsReplaced (directory.sync_new x)
            (λ y. and_then (hook new_file_synced, y) (rename_over hook)) (IsOld-IsEither c at_c)
            λ synced.
              and_then-IsReplaced (hook new_file_synced, c) (rename_over hook)
                (IsOld-IsEither c at_c)
                λ closed.
                  rename_over-IsReplaced c at_c (laws.sync_keeps_sibling x ∙ new)
                    (laws.sync_stores x synced)

      write_file-IsReplaced :
          (x : X) → IsOld x → laws.sibling x ≡ [] → IsReplaced (write_file hook replacement x)
      write_file-IsReplaced x before empty =
          let b = (directory.write_new x replacement).1 in
          let at_b : IsOld b = record {
            reads = laws.write_keeps x replacement ∙ before.reads;
            survives = λ s h. before.survives s (laws.write_leaves x replacement s h);
          } in
          and_then-IsReplaced (directory.write_new x replacement) (sync_file hook)
            (IsOld-IsEither b at_b)
            λ written.
              sync_file-IsReplaced b at_b
                (laws.write_appends x replacement written ∙ ap (λ s. s ++ replacement) empty)

      -- Replacing a journal that survives a crash, with a hook that may stop it at every boundary and
      -- whatever the calls answer, leaves at the journal's path either the old journal or the whole
      -- replacement, and so does a crash at that moment. After a success both leave the replacement.
      pub replace_atomically_with_hook-IsReplaced :
          (x : X) → IsOld x → IsReplaced (replace_atomically_with_hook hook x replacement)
      unfolding replace_atomically_with_hook
      replace_atomically_with_hook-IsReplaced x before =
          let a = (directory.open_new x).1 in
          let at_a : IsOld a = record {
            reads = laws.open_keeps x ∙ before.reads;
            survives = λ s h. before.survives s (laws.open_leaves x s h);
          } in
          and_then-IsReplaced (directory.open_new x)
            (λ y. and_then (hook new_file_created, y) (write_file hook replacement))
            (IsOld-IsEither a at_a)
            λ opened.
              and_then-IsReplaced (hook new_file_created, a) (write_file hook replacement)
                (IsOld-IsEither a at_a)
                λ hooked. write_file-IsReplaced a at_a (laws.open_empties x opened)
