-- ===== src/Text/Decimal.antt =====
-- Printing and reading of a u64.
use mathlib.Core.List.{concat-ne-nil}
use native.Mathlib.Nat.{pow-suc}
use downpour.Prelude.{
  false, ℕ, zero, suc, ◌+◌, ◌/◌, ◌%◌, ◌^◌, ◌≤◌, ◌<◌, true, some, List, [], ◌∷◌, ◌++◌, append_assoc,
  append-nil, ◌≡◌, ◌≢◌, refl, sym, ap, ◌∙◌, inl, inr, arith, ltb, Bool-cases, max_u64, All,
}
use downpour.Text.{is_nil, all, is_ascii_digit, Text, scan_u64, show_places, show_u64}

abbrev pub IsDigit : ℕ → Type 0
IsDigit c = (b'0' ≤ c) × (c ≤ b'9')

pub All-append {ℓ κ} :
    {A : Type ℓ} (P : A → Type κ) (l r : List A) → All P l → All P r → All P (l ++ r)
All-append P [] r h k = k
All-append P (x ∷ l) r h k = (h.0, All-append P l r h.1 k)

tenth-lt-pow : (p n : ℕ) → n < 10 ^ suc p → n / 10 < 10 ^ p
tenth-lt-pow p n h = omega (arith, pow-suc 10 p)

pub show_places-digits : (p n : ℕ) → n < 10 ^ p → All IsDigit (show_places p n)
unfolding show_places
show_places-digits zero n h = tt
show_places-digits (suc p) n h = elim (Bool-cases (ltb n 10)) [
  | inl small ↦ rw small (ground arith)
  | inr big ↦ rw big (
      All-append IsDigit (show_places p (n / 10)) _
        (show_places-digits p (n / 10) (tenth-lt-pow p n h)) (omega arith, tt))
]

pub show_places-ne-nil : (p n : ℕ) → show_places (suc p) n ≢ []
unfolding show_places
show_places-ne-nil p n h = elim (Bool-cases (ltb n 10)) [
  | inl small ↦ cc (rw small at h)
  | inr big ↦ concat-ne-nil _ (show_places p (n / 10)) (rw big at h)
]

-- Reading the last digit of `n` after the digits in front of it gives `n`.
scan_last :
    (n : ℕ) (rest : Text)
    → n ≤ max_u64
    → scan_u64 (n / 10) ((b'0' + n % 10) ∷ rest) ≡ scan_u64 n rest
unfolding scan_u64
scan_last n rest h = ground arith

-- Reading goes on after the digits of a printed number.
scan_u64-show_places :
    (p n : ℕ) (rest : Text)
    → n < 10 ^ suc p
    → n ≤ max_u64
    → scan_u64 0 (show_places (suc p) n ++ rest) ≡ scan_u64 n rest
unfolding show_places
scan_u64-show_places zero n rest h fits =
    let small : ltb n 10 ≡ true = ground arith in rw small (unfold scan_u64 in ground arith)
scan_u64-show_places (suc p) n rest h fits = elim (Bool-cases (ltb n 10)) [
  | inl small ↦ rw small (unfold scan_u64 in ground arith)
  | inr big ↦ rw big (
      ap (scan_u64 0) (append_assoc (show_places (suc p) (n / 10)) ((b'0' + n % 10) ∷ []) rest)
      ∙ scan_u64-show_places p (n / 10) ((b'0' + n % 10) ∷ rest) (tenth-lt-pow (suc p) n h)
          (omega arith)
      ∙ scan_last n rest fits)
]

-- A u64 fits in twenty digits.
twenty_places : (n : ℕ) → n ≤ max_u64 → n < 10 ^ 20
twenty_places n h = omega arith

-- Every u64 is read back from its print.
pub scan_u64-show_u64 : (n : ℕ) → n ≤ max_u64 → scan_u64 0 (show_u64 n) ≡ some n
unfolding show_u64
scan_u64-show_u64 n h =
    ap (scan_u64 0) (sym (append-nil (show_places 20 n)))
    ∙ scan_u64-show_places 19 n [] (twenty_places n h) h
    ∙ unfold scan_u64 in refl

-- The digits of a printed u64, of which there is one at least.
pub show_u64-digits : (n : ℕ) → n ≤ max_u64 → All IsDigit (show_u64 n)
unfolding show_u64
show_u64-digits n h = show_places-digits 20 n (twenty_places n h)

pub show_u64-cons : (n : ℕ) → (c : ℕ) × (s : Text) × (show_u64 n ≡ c ∷ s)
show_u64-cons n = shape (show_u64 n) (unfold show_u64 in show_places-ne-nil 19 n)
  where
    shape : (t : Text) → t ≢ [] → (c : ℕ) × (s : Text) × (t ≡ c ∷ s)
    shape [] h = absurd (h refl)
    shape (c ∷ s) h = (c, s, refl)

pub show_u64-is_nil : (n : ℕ) → is_nil (show_u64 n) ≡ false
show_u64-is_nil n = let (c, s, e) = show_u64-cons n in ap is_nil e

pub all_digits : (s : Text) → All IsDigit s → all is_ascii_digit s ≡ true
unfolding all
all_digits [] h = refl
all_digits (c ∷ s) h = ground (arith, all_digits s h.1)
