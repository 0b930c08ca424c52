-- ===== src/Filename/Stable.antt =====
-- Sanitising the result of `sanitise` again.
use downpour.Prelude.{ℕ, ◌≤◌, ◌≡◌, refl, arith, false, none, some, List, [], ◌∷◌, All, ltb}
use downpour.Text.{Text, eq_ignore_ascii_case}
use downpour.Text.Split.{Lacks}
use downpour.Filename.{
  is_bad, is_space, is_separator, is_dot_or_space, byte_len, reserved_stems, stem, any_stem,
  is_reserved_stem, neutralise_all, last_component, after_separator, trimmed_base, fit_budget,
  finish_name, clean, sanitise, max_name_bytes,
}
use downpour.Filename.Shape.{trim_end_matches-eq_self, trim_start_matches-eq_self}
use downpour.Filename.Safe.{IsPlain, IsSafe, sanitise-IsSafe}

-- A name without a separator is its own last component.
bad_separator : (c : ℕ) → is_bad c ≡ false → is_separator c ≡ false
bad_separator c h = ground arith

after_separator-none : (s : Text) → Lacks is_bad s → after_separator s ≡ none
unfolding after_separator
after_separator-none [] h = refl
after_separator-none (c ∷ s) h = rw (after_separator-none s h.1, bad_separator c h.0) refl

neutralise_all-eq_self : (s : Text) → Lacks is_bad s → neutralise_all s ≡ s
unfolding neutralise_all
neutralise_all-eq_self [] h = refl
neutralise_all-eq_self (c ∷ s) h = rw (h.0, neutralise_all-eq_self s h.1) refl

trimmed_base-eq_self : (s : Text) → IsPlain s → trimmed_base s ≡ s
unfolding trimmed_base last_component
trimmed_base-eq_self s p =
    rw
      (
        after_separator-none s p.no_bad,
        neutralise_all-eq_self s p.no_bad,
        trim_start_matches-eq_self is_space s p.first,
        trim_end_matches-eq_self is_dot_or_space s p.last,
      )
      refl

All-any_stem :
    (l : List Text) (s : Text)
    → All (λ reserved. eq_ignore_ascii_case s reserved ≡ false) l
    → any_stem l s ≡ false
unfolding any_stem
All-any_stem [] s h = refl
All-any_stem (r ∷ l) s h = rw h.0 (All-any_stem l s h.1)

clean-eq_self : (s : Text) → IsSafe s → byte_len s ≤ max_name_bytes → clean s ≡ some s
unfolding clean fit_budget finish_name is_reserved_stem
clean-eq_self s h k =
    let short : ltb max_name_bytes (byte_len s) ≡ false = ground arith in
    rw
      (
        trimmed_base-eq_self s h.plain,
        short,
        h.not_empty,
        All-any_stem reserved_stems (stem s) h.free,
      )
      refl

-- Sanitising a sanitised name of at most 255 bytes changes nothing.
pub sanitise-sanitise :
    (raw : Text) → byte_len (sanitise raw) ≤ max_name_bytes → sanitise (sanitise raw) ≡ sanitise raw
sanitise-sanitise raw k = twice (sanitise raw) (sanitise-IsSafe raw) k
  where
    twice : (s : Text) → IsSafe s → byte_len s ≤ max_name_bytes → sanitise s ≡ s
    twice s h k = unfold sanitise in rw (clean-eq_self s h k) refl
