-- ===== src/Text/Split.antt =====
-- `split_once` and the trims on texts of a known shape.
use downpour.Prelude.{ℕ, ◌≡◌, refl, arith, Bool, false, some, [], ◌∷◌, ◌++◌, ◌==◌, All}
use downpour.Text.{Text, is_nil, any, split_once, trim_start_matches, trim_end_matches}

-- No character passes the test.
abbrev pub Lacks : (ℕ → Bool) → Text → Type 0
Lacks test = All (λ c. test c ≡ false)

-- The first separator stands behind a text that lacks it.
pub split_once-append :
    (sep : ℕ) (s t : Text) → Lacks (λ c. c == sep) s → split_once sep (s ++ (sep ∷ t)) ≡ some (s, t)
unfolding split_once
split_once-append sep [] t h = ground arith
split_once-append sep (c ∷ s) t h = rw (h.0, split_once-append sep s t h.1)

pub any-Lacks : (test : ℕ → Bool) (s : Text) → Lacks test s → any test s ≡ false
unfolding any
any-Lacks test [] h = refl
any-Lacks test (c ∷ s) h = rw h.0 (any-Lacks test s h.1)

-- Trimming in front stops at a character that fails the test.
pub trim_start_matches-cons :
    (test : ℕ → Bool) (c : ℕ) (s : Text) → test c ≡ false → trim_start_matches test (c ∷ s) ≡ c ∷ s
unfolding trim_start_matches
trim_start_matches-cons test c s h = rw h

trim_end_matches-Lacks : (test : ℕ → Bool) (s : Text) → Lacks test s → trim_end_matches test s ≡ s
unfolding trim_end_matches
trim_end_matches-Lacks test [] h = refl
trim_end_matches-Lacks test (c ∷ s) h = ground (arith, trim_end_matches-Lacks test s h.1)

append-is_nil : (s t : Text) → is_nil t ≡ false → is_nil (s ++ t) ≡ false
append-is_nil [] t h = h
append-is_nil (c ∷ s) t h = refl

-- Trimming behind stops at a part that fails the test throughout.
pub trim_end_matches-append :
    (test : ℕ → Bool) (s t : Text)
    → is_nil t ≡ false
    → Lacks test t
    → trim_end_matches test (s ++ t) ≡ s ++ t
unfolding trim_end_matches
trim_end_matches-append test [] t k h = trim_end_matches-Lacks test t h
trim_end_matches-append test (d ∷ s) t k h =
    rw (trim_end_matches-append test s t k h, append-is_nil s t k)

pub trim_start_matches-Lacks :
    (test : ℕ → Bool) (s : Text) → Lacks test s → trim_start_matches test s ≡ s
unfolding trim_start_matches
trim_start_matches-Lacks test [] h = refl
trim_start_matches-Lacks test (c ∷ s) h = rw h.0

-- A property of every character gives one that it implies.
pub All-weaken {ℓ κ} :
    (P : ℕ → Type ℓ) (Q : ℕ → Type κ) (s : Text) → ((c : ℕ) → P c → Q c) → All P s → All Q s
All-weaken P Q [] f h = tt
All-weaken P Q (c ∷ s) f h = (f c h.0, All-weaken P Q s f h.1)
