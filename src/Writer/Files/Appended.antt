-- ===== src/Writer/Files/Appended.antt =====
-- The laws of the journal file, as the operating system's files give them.
use Prim.Native.String.{String}
use mathlib.Core.Path.{subst}
use mathlib.Core.List.{append_assoc, append-nil}
use downpour.Prelude.{ℕ, [], ◌++◌, ◌≡◌, refl, sym, ap, ◌∙◌, Result, ok, err}
use downpour.Journal.{Bytes, FramedRecord}
use downpour.Journal.Format.{FormatError, encode_record}
use downpour.PartFile.{IoError}
use downpour.Writer.Laws.{JournalLaws}
use downpour.Writer.Files.{AppendSystem, JournalFile, io_written, append_encoded, journal_file}

io_written-ok :
    (operation : String) (result : Result (Unit {0}) IoError)
    → io_written operation result ≡ ok tt
    → result ≡ ok tt
io_written-ok operation (ok tt) h = refl
io_written-ok operation (err e) h = cc

-- `b` is `a` and more bytes.
abbrev pub Extends : Bytes → Bytes → Type 0
Extends a b = (more : Bytes) × (b ≡ a ++ more)

-- The frame stands somewhere in the bytes.
abbrev pub StandsIn : Bytes → Bytes → Type 0
StandsIn frame s = (before : Bytes) × (behind : Bytes) × (s ≡ before ++ (frame ++ behind))

StandsIn-Extends : (frame a b : Bytes) → StandsIn frame a → Extends a b → StandsIn frame b
StandsIn-Extends frame a b (before, behind, e) (more, f) = (
  before,
  behind ++ more,
  cc (f, e, append_assoc before (frame ++ behind) more, append_assoc frame behind more),
)

module _ {G : Type 0} (appends : AppendSystem G) where
  -- The documented behaviour of a file opened for appending: a failed write appends a part, and what
  -- survives a crash is a part of the contents, which a sync makes whole.
  pub record AppendLaws : Type 0 where
    pub contents : G → Bytes
    pub surviving : G → Bytes
    pub write_extends :
        (g : G) (s : Bytes) → Extends (contents g) (contents (appends.write_all g s).1)
    pub write_appends :
        (g : G) (s : Bytes)
        → (appends.write_all g s).0 ≡ ok tt
        → contents (appends.write_all g s).1 ≡ contents g ++ s
    pub write_survives :
        (g : G) (s : Bytes) → Extends (surviving g) (surviving (appends.write_all g s).1)
    pub sync_survives : (g : G) → Extends (surviving g) (surviving (appends.fdatasync g).1)
    pub sync_saves :
        (g : G) → (appends.fdatasync g).0 ≡ ok tt → surviving (appends.fdatasync g).1 ≡ contents g

  module _ (crc : Bytes → ℕ) (laws : AppendLaws) where
    -- The record's frame stands in these bytes.
    abbrev pub IsIn : FramedRecord → Bytes → Type 0
    IsIn r s = (frame : Bytes) × (encode_record crc r ≡ ok frame) × StandsIn frame s

    IsIn-Extends : (r : FramedRecord) (a b : Bytes) → IsIn r a → Extends a b → IsIn r b
    IsIn-Extends r a b (frame, e, h) k = (frame, e, StandsIn-Extends frame a b h k)

    appended-IsIn :
        (j : JournalFile G) (r : FramedRecord) (encoded : Result Bytes FormatError)
        → encode_record crc r ≡ encoded
        → (append_encoded crc appends j encoded).0 ≡ ok tt
        → IsIn r (laws.contents (append_encoded crc appends j encoded).1.file)
    appended-IsIn j r (err e) same h = cc
    appended-IsIn j r (ok frame) same h =
        let done =
          io_written-ok "append recovery-journal record" (appends.write_all j.file frame).0 h in
        (
          frame,
          same,
          (
            laws.contents j.file,
            [],
            laws.write_appends j.file frame done
                ∙ ap (λ t. laws.contents j.file ++ t) (sym (append-nil frame)),
          ),
        )

    append_keeps :
        (P : G → Type 0) (j : JournalFile G) (encoded : Result Bytes FormatError)
        → P j.file
        → ((s : Bytes) → P (appends.write_all j.file s).1)
        → P (append_encoded crc appends j encoded).1.file
    append_keeps P j (err e) old now = old
    append_keeps P j (ok frame) old now = now frame

    pub journal_file-JournalLaws : JournalLaws (journal_file crc appends)
    unfolding journal_file
    journal_file-JournalLaws = record {
      Appended = λ j r. IsIn r (laws.contents j.file);
      Logged = λ j r. IsIn r (laws.surviving j.file);
      append_adds = λ j r h. appended-IsIn j r (encode_record crc r) refl h;
      append_keeps_appended = λ j r other h.
          append_keeps (λ g. IsIn other (laws.contents g)) j (encode_record crc r) h
            (λ s. IsIn-Extends other _ _ h (laws.write_extends j.file s));
      append_keeps_logged = λ j r other h.
          append_keeps (λ g. IsIn other (laws.surviving g)) j (encode_record crc r) h
            (λ s. IsIn-Extends other _ _ h (laws.write_survives j.file s));
      sync_logs = λ j r done h.
          subst (IsIn r)
            (sym (
              laws.sync_saves j.file (
                io_written-ok "synchronise recovery-journal records" (appends.fdatasync j.file).0
                  done)))
            h;
      sync_keeps_logged = λ j r h. IsIn-Extends r _ _ h (laws.sync_survives j.file);
    }

    -- What survives of a journal file is what survives of its file.
    pub logged_frame :
        (j : JournalFile G) (r : FramedRecord)
        → journal_file-JournalLaws.Logged j r
        → IsIn r (laws.surviving j.file)
    unfolding journal_file-JournalLaws
    logged_frame j r h = h
