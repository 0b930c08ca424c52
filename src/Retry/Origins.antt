-- ===== src/Retry/Origins.antt =====
-- The counters of the origins do not disturb each other.
use downpour.Prelude.{
  ℕ, ◌+◌, ◌≤◌, ◌<◌, true, none, some, List, [], ◌∷◌, ◌≡◌, refl, sym, ap, ◌∙◌, arith, inl, inr,
  Bool-cases, ◌==◌, if◌then◌else◌, length,
}
use downpour.Text.{Text, text_eq}
use downpour.Retry.{RetryState, attempts, or_zero, record_failure, reset, min}

pub data Event : Type 0 where
  failed : Text → Event
  succeeded : Text → Event

abbrev pub note : RetryState → Event → RetryState
note state (failed origin) = (record_failure state origin).1
note state (succeeded origin) = reset state origin

abbrev pub note_all : RetryState → List Event → RetryState
note_all state [] = state
note_all state (e ∷ es) = note_all (note state e) es

-- The failures of one origin since its last success, from `n` on.
abbrev pub tally : Text → ℕ → List Event → ℕ
tally origin n [] = n
tally origin n (failed other ∷ es) = tally origin (if text_eq origin other then n + 1 else n) es
tally origin n (succeeded other ∷ es) = tally origin (if text_eq origin other then 0 else n) es

text_eq_sound : (s t : Text) → text_eq s t ≡ true → s ≡ t
unfolding text_eq
text_eq_sound [] [] h = refl
text_eq_sound [] (b ∷ t) h = cc
text_eq_sound (a ∷ s) [] h = cc
text_eq_sound (a ∷ s) (b ∷ t) h = elim (Bool-cases (a == b)) [
  | inl same ↦ let head : a ≡ b = ground arith in let tail = text_eq_sound s t (rw same at h) in cc
  | inr other ↦ cc (rw other at h)
]

counted : (m n : ℕ) → m ≡ n → n < 4294967295 → min (m + 1) 4294967295 ≡ n + 1
counted m n e h = ground arith

note-attempts :
    (state : RetryState) (e : Event) (origin : Text)
    → attempts state origin < 4294967295
    → attempts (note state e) origin ≡ tally origin (attempts state origin) (e ∷ [])
unfolding record_failure reset
note-attempts state (failed other) origin h = elim (Bool-cases (text_eq origin other)) [
  | inl same ↦
      let e = text_eq_sound origin other same in
      ap
        (λ b.
          or_zero (if b then some (min (attempts state other + 1) 4294967295) else state origin))
        same
      ∙ counted (attempts state other) (attempts state origin) (ap (attempts state) (sym e)) h
      ∙ ap (λ b. if b then attempts state origin + 1 else attempts state origin) (sym same)
  | inr differs ↦
      ap
        (λ b.
          or_zero (if b then some (min (attempts state other + 1) 4294967295) else state origin))
        differs
      ∙ ap (λ b. if b then attempts state origin + 1 else attempts state origin) (sym differs)
]
note-attempts state (succeeded other) origin h = elim (Bool-cases (text_eq origin other)) [
  | inl same ↦
      ap (λ b. or_zero (if b then none else state origin)) same
      ∙ ap (λ b. if b then 0 else attempts state origin) (sym same)
  | inr differs ↦
      ap (λ b. or_zero (if b then none else state origin)) differs
      ∙ ap (λ b. if b then 0 else attempts state origin) (sym differs)
]

tally_le : (origin : Text) (n : ℕ) (e : Event) → tally origin n (e ∷ []) ≤ n + 1
tally_le origin n (failed other) = ground arith
tally_le origin n (succeeded other) = ground arith

tally-cons :
    (origin : Text) (n : ℕ) (e : Event) (es : List Event)
    → tally origin n (e ∷ es) ≡ tally origin (tally origin n (e ∷ [])) es
tally-cons origin n (failed other) es = refl
tally-cons origin n (succeeded other) es = refl

-- After any sequence of failures and successes of any origins, an origin's counter is the number of
-- its own failures since its last success, added to the counter at the start where it had none. The
-- counter at the start and the events together are fewer than 2 ^ 32.
pub note_all-attempts :
    (state : RetryState) (es : List Event) (origin : Text)
    → attempts state origin + length es ≤ 4294967295
    → attempts (note_all state es) origin ≡ tally origin (attempts state origin) es
note_all-attempts state [] origin h = refl
note_all-attempts state (e ∷ es) origin h =
    let step = note-attempts state e origin (omega arith) in
    let grows = tally_le origin (attempts state origin) e in
    note_all-attempts (note state e) es origin (omega arith)
    ∙ ap (λ n. tally origin n es) step
    ∙ sym (tally-cons origin (attempts state origin) e es)
