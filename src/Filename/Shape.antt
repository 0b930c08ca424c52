-- ===== src/Filename/Shape.antt =====
-- The first and the last character of a name, its bad characters and its bytes, through trimming,
-- truncation and the choice of the extension.
use downpour.Prelude.{
  ℕ, zero, suc, ◌+◌, ◌-◌, ◌*◌, ◌≤◌, ◌≡◌, ◌∙◌, refl, sym, ap, arith, Bool, false, ◌&&◌, Option, none,
  some, [], ◌∷◌, ◌++◌, append_assoc, Bool-cases, inl, inr, leb, ◌==◌, if◌then◌else◌,
}
use downpour.Text.{Text, is_nil, trim_start_matches, trim_end_matches}
use downpour.Text.Split.{Lacks}
use downpour.Filename.{
  width, byte_len, is_space, truncate_at_char_boundary, rfind_dot, keep_groups, ends_extension,
}

-- The first character, if there is one, fails the test.
abbrev pub FirstFails : (ℕ → Bool) → Text → Type 0
FirstFails test [] = Unit
FirstFails test (c ∷ s) = test c ≡ false

-- The last character, if there is one, fails the test.
abbrev pub LastFails : (ℕ → Bool) → Text → Type 0
LastFails test [] = Unit
LastFails test (c ∷ []) = test c ≡ false
LastFails test (c ∷ d ∷ s) = LastFails test (d ∷ s)

module _ (test : ℕ → Bool) where
  pub LastFails-cons :
      (c : ℕ) (s : Text) → is_nil s ≡ false → LastFails test s → LastFails test (c ∷ s)
  LastFails-cons c [] n h = cc
  LastFails-cons c (d ∷ s) n h = h

  pub LastFails-append :
      (s t : Text) → is_nil t ≡ false → LastFails test t → LastFails test (s ++ t)
  LastFails-append [] t n h = h
  LastFails-append (c ∷ []) t n h = LastFails-cons c t n h
  LastFails-append (c ∷ d ∷ s) t n h = LastFails-append (d ∷ s) t n h

  pub LastFails-append_inv : (s t : Text) → LastFails test (s ++ t) → LastFails test t
  LastFails-append_inv [] t h = h
  LastFails-append_inv (c ∷ []) [] h = tt
  LastFails-append_inv (c ∷ []) (d ∷ t) h = h
  LastFails-append_inv (c ∷ d ∷ s) t h = LastFails-append_inv (d ∷ s) t h

  -- Trimming behind leaves a last character that fails the test, and stops there.
  pub trim_end_matches-LastFails : (s : Text) → LastFails test (trim_end_matches test s)
  unfolding trim_end_matches
  trim_end_matches-LastFails [] = tt
  trim_end_matches-LastFails (c ∷ s) = kept (trim_end_matches test s) (trim_end_matches-LastFails s)
    where
      kept :
          (rest : Text)
          → LastFails test rest
          → LastFails test (if is_nil rest && test c then [] else c ∷ rest)
      kept [] h = elim (Bool-cases (test c)) [ inl e ↦ rw e tt | inr e ↦ rw e e ]
      kept (d ∷ rest) h = h

  pub trim_end_matches-eq_self : (s : Text) → LastFails test s → trim_end_matches test s ≡ s
  unfolding trim_end_matches
  trim_end_matches-eq_self [] h = refl
  trim_end_matches-eq_self (c ∷ []) h = rw h
  trim_end_matches-eq_self (c ∷ d ∷ s) h = rw (trim_end_matches-eq_self (d ∷ s) h)

  pub trim_start_matches-FirstFails : (s : Text) → FirstFails test (trim_start_matches test s)
  unfolding trim_start_matches
  trim_start_matches-FirstFails [] = tt
  trim_start_matches-FirstFails (c ∷ s) = elim (Bool-cases (test c)) [
    | inl e ↦ rw e (trim_start_matches-FirstFails s)
    | inr e ↦ rw e e
  ]

  pub trim_start_matches-eq_self : (s : Text) → FirstFails test s → trim_start_matches test s ≡ s
  unfolding trim_start_matches
  trim_start_matches-eq_self [] h = refl
  trim_start_matches-eq_self (c ∷ s) h = rw h

  -- What trimming behind leaves is a prefix.
  pub trim_end_matches-prefix : (s : Text) → (rest : Text) × (trim_end_matches test s ++ rest ≡ s)
  unfolding trim_end_matches
  trim_end_matches-prefix [] = ([], refl)
  trim_end_matches-prefix (c ∷ s) = elim (Bool-cases (is_nil (trim_end_matches test s) && test c)) [
    | inl e ↦ (c ∷ s, rw e refl)
    | inr e ↦ let (rest, same) = trim_end_matches-prefix s in (rest, rw e (ap (◌∷◌ c) same))
  ]

  pub Lacks-append : (s t : Text) → Lacks test s → Lacks test t → Lacks test (s ++ t)
  Lacks-append [] t h k = k
  Lacks-append (c ∷ s) t h k = (h.0, Lacks-append s t h.1 k)

  pub Lacks-append_inv : (s t : Text) → Lacks test (s ++ t) → Lacks test s × Lacks test t
  Lacks-append_inv [] t h = (tt, h)
  Lacks-append_inv (c ∷ s) t h = let (a, b) = Lacks-append_inv s t h.1 in ((h.0, a), b)

  pub FirstFails-append_inv : (s t : Text) → FirstFails test (s ++ t) → FirstFails test s
  FirstFails-append_inv [] t h = tt
  FirstFails-append_inv (c ∷ s) t h = h

  pub FirstFails-append :
      (s t : Text) → FirstFails test s → FirstFails test t → FirstFails test (s ++ t)
  FirstFails-append [] t h k = k
  FirstFails-append (c ∷ s) t h k = h

pub Lacks-trim_start :
    (test other : ℕ → Bool) (s : Text) → Lacks test s → Lacks test (trim_start_matches other s)
unfolding trim_start_matches
Lacks-trim_start test other [] h = tt
Lacks-trim_start test other (c ∷ s) h = elim (Bool-cases (other c)) [
  | inl e ↦ rw e (Lacks-trim_start test other s h.1)
  | inr e ↦ rw e h
]

pub byte_len-append : (s t : Text) → byte_len (s ++ t) ≡ byte_len s + byte_len t
unfolding byte_len
byte_len-append [] t = omega arith
byte_len-append (c ∷ s) t = omega (arith, byte_len-append s t)

-- Truncation leaves a prefix within the budget.
pub truncate_at_char_boundary-prefix :
    (s : Text) (n : ℕ) → (rest : Text) × (truncate_at_char_boundary s n ++ rest ≡ s)
unfolding truncate_at_char_boundary
truncate_at_char_boundary-prefix [] n = ([], refl)
truncate_at_char_boundary-prefix (c ∷ s) n = elim (Bool-cases (leb (width c) n)) [
  | inl e ↦
      let (rest, same) = truncate_at_char_boundary-prefix s (n - width c) in
      (rest, rw e (ap (◌∷◌ c) same))
  | inr e ↦ (c ∷ s, rw e refl)
]

pub byte_len-truncate : (s : Text) (n : ℕ) → byte_len (truncate_at_char_boundary s n) ≤ n
unfolding truncate_at_char_boundary byte_len
byte_len-truncate [] n = omega arith
byte_len-truncate (c ∷ s) n = elim (Bool-cases (leb (width c) n)) [
  | inl e ↦ rw e (ground (arith, byte_len-truncate s (n - width c)))
  | inr e ↦ rw e (omega arith)
]

pub rfind_dot-append :
    (s before group : Text) → rfind_dot s ≡ some (before, group) → before ++ (b'.' ∷ group) ≡ s
unfolding rfind_dot
rfind_dot-append [] before group h = cc
rfind_dot-append (c ∷ s) before group h = found (rfind_dot s) (rfind_dot-append s) h
  where
    found :
        (o : Option (Text × Text))
        → ((b g : Text) → o ≡ some (b, g) → b ++ (b'.' ∷ g) ≡ s)
        → ◌≡◌ {A = Option (Text × Text)}
            (elim o [
              | some (b, g) ↦ some (c ∷ b, g)
              | none ↦ if c == b'.' then some ([], s) else none
            ])
            (some (before, group))
        → before ++ (b'.' ∷ group) ≡ c ∷ s
    found (some (b, g)) ih e = cc (ih b g refl)
    found none ih e = ground arith

-- What the loop over the groups answers: a split of the name whose second part is short and starts
-- with no space.
pub record IsSplit (n : ℕ) (head extension : Text) (out : Text × Text) : Type 0 where
  pub whole : out.0 ++ out.1 ≡ head ++ extension
  pub short : byte_len out.1 ≤ byte_len extension + 9 * n
  pub dotted : FirstFails is_space out.1

-- A group that is kept has at most eight bytes.
kept_group :
    (before group extension : Text)
    → ends_extension before group ≡ false
    → byte_len (b'.' ∷ (group ++ extension)) ≤ byte_len extension + 9
unfolding byte_len
kept_group before group extension h = ground (arith, byte_len-append group extension)

unsplit :
    (n : ℕ) (head extension : Text)
    → FirstFails is_space extension
    → IsSplit n head extension (head, extension)
unsplit n head extension h = record { whole = refl; short = omega arith; dotted = h }

-- One more round keeps a group.
longer-IsSplit :
    (n : ℕ) (head extension before group : Text)
    → rfind_dot head ≡ some (before, group)
    → ends_extension before group ≡ false
    → (out : Text × Text) → IsSplit n before (b'.' ∷ (group ++ extension)) out
    → IsSplit (suc n) head extension out
longer-IsSplit n head extension before group e more out k =
    let size = kept_group before group extension more in
    record {
      whole =
          k.whole
          ∙ sym (append_assoc before (b'.' ∷ group) extension)
          ∙ ap (λ t. t ++ extension) (rfind_dot-append head before group e);
      short = omega (arith, k.short, size);
      dotted = k.dotted;
    }

pub keep_groups-IsSplit :
    (n : ℕ) (head extension : Text)
    → FirstFails is_space extension
    → IsSplit n head extension (keep_groups n head extension)
unfolding keep_groups
keep_groups-IsSplit zero head extension h = unsplit 0 head extension h
keep_groups-IsSplit (suc n) head extension h =
    round (λ b g. keep_groups-IsSplit n b (b'.' ∷ (g ++ extension)) refl) (rfind_dot head) refl
  where
    round :
        ((b g : Text)
          → IsSplit n b (b'.' ∷ (g ++ extension)) (keep_groups n b (b'.' ∷ (g ++ extension))))
        → (o : Option (Text × Text)) → rfind_dot head ≡ o
        → IsSplit (suc n) head extension (elim o [
          | none ↦ (head, extension)
          | some (before, group) ↦
              let longer = keep_groups n before (b'.' ∷ (group ++ extension)) in
              if ends_extension before group then (head, extension) else longer
        ])
    round ih none e = unsplit (suc n) head extension h
    round ih (some (before, group)) e = elim (Bool-cases (ends_extension before group)) [
      | inl stop ↦ rw stop (unsplit (suc n) head extension h)
      | inr more ↦ rw more (longer-IsSplit n head extension before group e more _ (ih before group))
    ]
