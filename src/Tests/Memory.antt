-- ===== src/Tests/Memory.antt =====
-- Files in memory, on which every call of the system succeeds but the first way to reserve space.
use mathlib.Core.List.{append-nil, append_assoc}
use downpour.Prelude.{
  ok-injective, ℕ, suc, ◌+◌, ◌≤◌, ◌<◌, max, true, false, [], ◌∷◌, ◌++◌, some, ◌≡◌, ◌⊎◌, refl, sym,
  ◌∙◌, arith, inl, inr, ◌==◌, if◌then◌else◌, length, ok, err,
}
use downpour.Journal.{Bytes}
use downpour.PartFile.{System}
use downpour.PartFile.Extent.{SizeLaws}
use downpour.Writer.Laws.{Apart}
use downpour.Writer.Files.{AppendSystem}
use downpour.Writer.Files.Positional.{FileLaws}
use downpour.Writer.Files.Appended.{AppendLaws}

-- What the file reads, and what it reads after a crash.
pub record MemoryFile : Type 0 where
  pub size : ℕ
  pub current : ℕ → ℕ
  pub synced : ℕ → ℕ

abbrev pub overwrite : (ℕ → ℕ) → ℕ → Bytes → ℕ → ℕ
overwrite f at [] x = f x
overwrite f at (b ∷ bs) x = let rest = overwrite f (suc at) bs x in if x == at then b else rest

abbrev pub memory : System MemoryFile
memory = record {
  try_fallocate = λ f n. (err (some 95), f);
  try_posix_fallocate = λ f n. (ok tt, record f { size = max f.size n });
  set_len = λ f n. (ok tt, record f { size = n });
  measured_len = λ f. ok f.size;
  blocks = λ f. ok 8;
  write_at = λ f offset bytes. (ok tt, record f { current = overwrite f.current offset bytes });
  fdatasync = λ f. (ok tt, record f { synced = f.current });
  eopnotsupp = 95;
  enosys = 38;
  einval = 22;
}

abbrev Reads : (ℕ → ℕ) → ℕ → Bytes → Type 0
Reads f at [] = Unit {0}
Reads f at (b ∷ bs) = (f at ≡ b) × Reads f (suc at) bs

overwrite-outside :
    (f : ℕ → ℕ) (at : ℕ) (bs : Bytes) (x : ℕ)
    → (x < at) ⊎ (at + length bs ≤ x)
    → overwrite f at bs x ≡ f x
overwrite-outside f at [] x h = refl
overwrite-outside f at (b ∷ bs) x h =
    rw (elsewhere h) (overwrite-outside f (suc at) bs x (further h))
  where
    elsewhere : (x < at) ⊎ (at + suc (length bs) ≤ x) → (x == at) ≡ false
    elsewhere (inl k) = ground arith
    elsewhere (inr k) = ground arith

    further : (x < at) ⊎ (at + suc (length bs) ≤ x) → (x < suc at) ⊎ (suc at + length bs ≤ x)
    further (inl k) = inl (omega arith)
    further (inr k) = inr (omega arith)

Reads-agree :
    (f g : ℕ → ℕ) (at : ℕ) (bs : Bytes)
    → ((x : ℕ) → at ≤ x → x < at + length bs → g x ≡ f x)
    → Reads f at bs
    → Reads g at bs
Reads-agree f g at [] same h = tt
Reads-agree f g at (b ∷ bs) same h = (
  same at (omega arith) (omega arith) ∙ h.0,
  Reads-agree f g (suc at) bs (λ x lo hi. same x (omega (arith, lo)) (omega (arith, hi))) h.1,
)

Reads-overwrite : (f : ℕ → ℕ) (at : ℕ) (bs : Bytes) → Reads (overwrite f at bs) at bs
Reads-overwrite f at [] = tt
Reads-overwrite f at (b ∷ bs) = (
  rw (same at) refl,
  Reads-agree (overwrite f (suc at) bs) (overwrite f at (b ∷ bs)) (suc at) bs
      (λ x lo hi. rw (behind at x lo) refl) (Reads-overwrite f (suc at) bs),
)
  where
    same : (n : ℕ) → (n == n) ≡ true
    same n = ground arith

    behind : (n x : ℕ) → suc n ≤ x → (x == n) ≡ false
    behind n x h = ground arith

Reads-beside :
    (f : ℕ → ℕ) (offset : ℕ) (bytes : Bytes) (at : ℕ) (others : Bytes)
    → Apart offset (length bytes) at (length others)
    → Reads f at others
    → Reads (overwrite f offset bytes) at others
Reads-beside f offset bytes at others apart =
    Reads-agree f (overwrite f offset bytes) at others
      (λ x lo hi. overwrite-outside f offset bytes x (side x lo hi apart))
  where
    side :
        (x : ℕ)
        → at ≤ x
        → x < at + length others
        → Apart offset (length bytes) at (length others)
        → (x < offset) ⊎ (offset + length bytes ≤ x)
    side x lo hi (inl before) = inr (omega arith)
    side x lo hi (inr behind) = inl (omega arith)

pub memory-FileLaws : FileLaws memory
memory-FileLaws = record {
  Holds = λ f at bytes. Reads f.current at bytes;
  Durable = λ f at bytes. Reads f.current at bytes × Reads f.synced at bytes;
  write_holds = λ f offset bytes done. Reads-overwrite f.current offset bytes;
  write_keeps_held =
      λ f offset bytes at others apart h. Reads-beside f.current offset bytes at others apart h;
  write_keeps_durable = λ f offset bytes at others apart h.
      (Reads-beside f.current offset bytes at others apart h.0, h.1);
  sync_makes_durable = λ f at bytes done h. (h, h);
  sync_keeps_held = λ f at bytes h. h;
  sync_keeps_durable = λ f at bytes h. (h.0, h.0);
}

pub memory-SizeLaws : SizeLaws memory
memory-SizeLaws = record {
  size = λ f. f.size;
  measured = λ f n h. ok-injective f.size n h;
  fallocate_keeps = λ f n. refl;
  posix_grows = λ f n. (ground arith, omega arith);
  set_len_sets = λ f n h. refl;
  set_len_failed = λ f n e h. cc;
}

-- What a crash leaves, and what stands behind it.
pub record MemoryLog : Type 0 where
  pub saved : Bytes
  pub unsaved : Bytes

abbrev synced_log : MemoryLog → MemoryLog
synced_log g = record { saved = g.saved ++ g.unsaved; unsaved = [] }

abbrev pub log : AppendSystem MemoryLog
log = record {
  write_all = λ g s. (ok tt, record g { unsaved = g.unsaved ++ s });
  fsync = λ g. (ok tt, synced_log g);
  fdatasync = λ g. (ok tt, synced_log g);
}

pub log-AppendLaws : AppendLaws log
log-AppendLaws = record {
  contents = λ g. g.saved ++ g.unsaved;
  surviving = λ g. g.saved;
  write_extends = λ g s. (s, sym (append_assoc g.saved g.unsaved s));
  write_appends = λ g s done. sym (append_assoc g.saved g.unsaved s);
  write_survives = λ g s. ([], sym (append-nil g.saved));
  sync_survives = λ g. (g.unsaved, refl);
  sync_saves = λ g done. refl;
}
