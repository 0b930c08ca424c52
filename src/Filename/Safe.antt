-- ===== src/Filename/Safe.antt =====
-- What every sanitised name is.
use downpour.Prelude.{
  ℕ, ◌+◌, ◌-◌, ◌≤◌, ◌≡◌, ◌∙◌, refl, ap, arith, false, Option, none, some, List, [], ◌∷◌, ◌++◌,
  append-nil, All, Bool-cases, inl, inr, ltb,
}
use downpour.Text.{Text, is_nil, trim_start_matches, trim_end_matches, eq_ignore_ascii_case}
use downpour.Text.Split.{Lacks}
use downpour.Filename.{
  is_bad, is_space, is_dot_or_space, byte_len, reserved_stems, stem, any_stem, is_reserved_stem,
  neutralise, neutralise_all, last_component, trimmed_base, keep_groups, extension_to_keep, shorten,
  truncate_keeping_extension, fit_budget, finish_name, clean, sanitise, option_or, default_name,
  max_name_bytes, max_truncated_bytes, truncate_at_char_boundary,
}
use downpour.Filename.Shape.{
  FirstFails, LastFails, LastFails-cons, LastFails-append, LastFails-append_inv,
  trim_end_matches-LastFails, trim_start_matches-FirstFails, trim_end_matches-prefix, Lacks-append,
  Lacks-append_inv, FirstFails-append_inv, FirstFails-append, Lacks-trim_start, byte_len-append,
  truncate_at_char_boundary-prefix, byte_len-truncate, keep_groups-IsSplit,
}

-- No control character, no separator and no other character that Windows forbids; no space in front
-- and no dot or space behind.
pub record IsPlain (s : Text) : Type 0 where
  pub no_bad : Lacks is_bad s
  pub first : FirstFails is_space s
  pub last : LastFails is_dot_or_space s

-- The part in front of the first dot is no device name of Windows, whatever the case of its letters.
abbrev pub NotReserved : Text → Type 0
NotReserved s = All (λ reserved. eq_ignore_ascii_case (stem s) reserved ≡ false) reserved_stems

neutralise-bad : (c : ℕ) → is_bad (neutralise c) ≡ false
neutralise-bad c = elim (Bool-cases (is_bad c)) [ inl e ↦ rw e refl | inr e ↦ rw e e ]

neutralise_all-Lacks : (s : Text) → Lacks is_bad (neutralise_all s)
unfolding neutralise_all
neutralise_all-Lacks [] = tt
neutralise_all-Lacks (c ∷ s) = (neutralise-bad c, neutralise_all-Lacks s)

-- A prefix of a plain name that ends well is plain.
prefix-IsPlain :
    (s rest name : Text) → s ++ rest ≡ name → LastFails is_dot_or_space s → IsPlain name → IsPlain s
prefix-IsPlain s rest name same last p = record {
  no_bad = (Lacks-append_inv is_bad s rest (rw same p.no_bad)).0;
  first = FirstFails-append_inv is_space s rest (rw same p.first);
  last = last;
}

trimmed_base-IsPlain : (raw : Text) → IsPlain (trimmed_base raw)
unfolding trimmed_base
trimmed_base-IsPlain raw =
    let started = trim_start_matches is_space (neutralise_all (last_component raw)) in
    let (rest, same) = trim_end_matches-prefix is_dot_or_space started in
    let clean_start : Lacks is_bad started =
      Lacks-trim_start is_bad is_space _ (neutralise_all-Lacks (last_component raw)) in
    record {
      no_bad = (Lacks-append_inv is_bad _ rest (rw same clean_start)).0;
      first =
          FirstFails-append_inv is_space _ rest (
            rw same (trim_start_matches-FirstFails is_space (neutralise_all (last_component raw))));
      last = trim_end_matches-LastFails is_dot_or_space started;
    }

shorten-IsPlain :
    (head extension : Text)
    → IsPlain (head ++ extension)
    → FirstFails is_space extension
    → IsPlain (shorten head extension)
unfolding shorten
shorten-IsPlain head extension p dotted =
    let budget = max_truncated_bytes - byte_len extension in
    let cut = truncate_at_char_boundary head budget in
    let (rest, same) = trim_end_matches-prefix is_dot_or_space cut in
    let (rest', same') = truncate_at_char_boundary-prefix head budget in
    let (bad_head, bad_ext) = Lacks-append_inv is_bad head extension p.no_bad in
    let bad_cut : Lacks is_bad cut = (Lacks-append_inv is_bad cut rest' (rw same' bad_head)).0 in
    let first_cut : FirstFails is_space cut =
      FirstFails-append_inv is_space cut rest'
        (rw same' (FirstFails-append_inv is_space head extension p.first)) in
    record {
      no_bad =
          Lacks-append is_bad _ extension (Lacks-append_inv is_bad _ rest (rw same bad_cut)).0
            bad_ext;
      first =
          FirstFails-append is_space _ extension
            (FirstFails-append_inv is_space _ rest (rw same first_cut)) dotted;
      last =
          ends (trim_end_matches is_dot_or_space cut) extension
            (trim_end_matches-LastFails is_dot_or_space cut)
            (LastFails-append_inv is_dot_or_space head extension p.last);
    }
  where
    ends :
        (s t : Text)
        → LastFails is_dot_or_space s
        → LastFails is_dot_or_space t
        → LastFails is_dot_or_space (s ++ t)
    ends s [] h k = rw append-nil h
    ends s (c ∷ t) h k = LastFails-append is_dot_or_space s (c ∷ t) refl k

byte_len-trim_end : (s : Text) → byte_len (trim_end_matches is_dot_or_space s) ≤ byte_len s
byte_len-trim_end s =
    let (rest, same) = trim_end_matches-prefix is_dot_or_space s in
    omega (arith, byte_len-append (trim_end_matches is_dot_or_space s) rest, ap byte_len same)

byte_len-shorten :
    (head extension : Text)
    → byte_len extension ≤ max_truncated_bytes
    → byte_len (shorten head extension) ≤ max_truncated_bytes
unfolding shorten
byte_len-shorten head extension h =
    let budget = max_truncated_bytes - byte_len extension in
    let cut = truncate_at_char_boundary head budget in
    omega (
      arith,
      byte_len-append (trim_end_matches is_dot_or_space cut) extension,
      byte_len-trim_end cut,
      byte_len-truncate head budget,
    )

-- The name in front of the check for device names.
fit_budget-IsPlain :
    (s : Text) → IsPlain s → IsPlain (fit_budget s) × (byte_len (fit_budget s) ≤ max_name_bytes)
unfolding fit_budget truncate_keeping_extension extension_to_keep byte_len
fit_budget-IsPlain s p = elim (Bool-cases (ltb max_name_bytes (byte_len s))) [
  | inl long ↦
      let k = keep_groups-IsSplit 2 s [] tt in
      let whole : (keep_groups 2 s []).0 ++ (keep_groups 2 s []).1 ≡ s = k.whole ∙ append-nil s in
      rw long (
        shorten-IsPlain (keep_groups 2 s []).0 (keep_groups 2 s []).1 (rw whole p) k.dotted,
        omega (
          arith,
          byte_len-shorten (keep_groups 2 s []).0 (keep_groups 2 s []).1 (omega (arith, k.short)),
        ),
      )
  | inr short ↦ rw short (p, ground arith)
]

-- The name is not empty, it is plain, so neither "." nor "..", it is no device name, and it has at most
-- 256 bytes.
pub record IsSafe (s : Text) : Type 0 where
  pub not_empty : is_nil s ≡ false
  pub plain : IsPlain s
  pub free : NotReserved s
  pub bounded : byte_len s ≤ max_name_bytes + 1

any_stem-All :
    (l : List Text) (s : Text)
    → any_stem l s ≡ false
    → All (λ reserved. eq_ignore_ascii_case s reserved ≡ false) l
unfolding any_stem
any_stem-All [] s h = tt
any_stem-All (r ∷ l) s h = elim (Bool-cases (eq_ignore_ascii_case s r)) [
  | inl e ↦ cc (rw e at h)
  | inr e ↦ (e, any_stem-All l s (rw e at h))
]

-- No device name starts with an underscore.
underscore-free : (s : Text) → is_reserved_stem (b'_' ∷ s) ≡ false
unfolding is_reserved_stem any_stem stem eq_ignore_ascii_case
underscore-free s = refl

prefixed-IsSafe :
    (s : Text) → is_nil s ≡ false → IsPlain s → byte_len s ≤ max_name_bytes → IsSafe (b'_' ∷ s)
unfolding byte_len is_reserved_stem
prefixed-IsSafe s n p k = record {
  not_empty = refl;
  plain = record {
    no_bad = (refl, p.no_bad);
    first = refl;
    last = LastFails-cons _ b'_' s n p.last;
  };
  free = any_stem-All reserved_stems (stem (b'_' ∷ s)) (underscore-free s);
  bounded = omega arith;
}

-- A name that is answered is safe.
abbrev pub Safely : Option Text → Type 0
Safely none = Unit
Safely (some name) = IsSafe name

finish_name-Safely : (s : Text) → IsPlain s → byte_len s ≤ max_name_bytes → Safely (finish_name s)
unfolding finish_name is_reserved_stem
finish_name-Safely s p k = elim (Bool-cases (is_nil s)) [
  | inl e ↦ rw e tt
  | inr full ↦ elim (Bool-cases (any_stem reserved_stems (stem s))) [
    | inl device ↦ rw (full, device) (prefixed-IsSafe s full p k)
    | inr other ↦
        rw (full, other)
          (record {
            not_empty = full;
            plain = p;
            free = any_stem-All reserved_stems (stem s) other;
            bounded = omega arith;
          })
  ]
]

pub clean-Safely : (raw : Text) → Safely (clean raw)
unfolding clean
clean-Safely raw =
    let (plain, short) = fit_budget-IsPlain (trimmed_base raw) (trimmed_base-IsPlain raw) in
    finish_name-Safely (fit_budget (trimmed_base raw)) plain short

pub default_name-IsSafe : IsSafe default_name
unfolding byte_len is_reserved_stem any_stem stem eq_ignore_ascii_case neutralise_all
default_name-IsSafe = record {
  not_empty = refl;
  plain = record { no_bad = neutralise_all-Lacks default_name; first = refl; last = refl };
  free = any_stem-All reserved_stems (stem default_name) refl;
  bounded = omega arith;
}

pub or_default-IsSafe : (o : Option Text) → Safely o → IsSafe (option_or o default_name)
or_default-IsSafe none h = default_name-IsSafe
or_default-IsSafe (some name) h = h

-- Whatever the text, its sanitised name is not empty, has no control character, no separator and no
-- other character that Windows forbids, no space in front and no dot or space behind, so it is neither
-- "." nor "..", its part in front of the first dot is no device name of Windows in any case, and it
-- has at most 256 bytes.
pub sanitise-IsSafe : (raw : Text) → IsSafe (sanitise raw)
unfolding sanitise
sanitise-IsSafe raw = or_default-IsSafe (clean raw) (clean-Safely raw)
