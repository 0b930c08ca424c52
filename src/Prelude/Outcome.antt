-- ===== src/Prelude/Outcome.antt =====
-- Rust's `Result<A, E>`, with the `?` operator as bind.
use mathlib.Core.Logic.{◌⊎◌, inl, inr}
use mathlib.Core.Path.{◌≡◌, refl}

pub data Result {ℓ κ} (A : Type ℓ) (E : Type κ) : Type (ℓ ⊔ κ) where
  ok : A → Result A E
  err : E → Result A E

module _ {ε α β} {E : Type ε} {A : Type α} {B : Type β} where
  infixl 5 ◌>>=◌
  abbrev pub ◌>>=◌ : Result A E → (A → Result B E) → Result B E
  err e >>= k = err e
  ok a >>= k = k a

  -- What `?` let through.
  pub ok-bind :
      (first : Result A E) (k : A → Result B E) (b : B)
      → first >>= k ≡ ok b
      → (a : A) × (k a ≡ ok b) × (first ≡ ok a)
  ok-bind (err e) k b h = cc
  ok-bind (ok a) k b h = (a, h, refl)

-- `ensure!(test, e)`: an early return unless the test holds.
module _ {ε β} {E : Type ε} {B : Type β} where
  infixl 5 ◌>>◌
  abbrev pub ◌>>◌ : Result (Unit {0}) E → Result B E → Result B E
  err e >> rest = err e
  ok _ >> rest = rest

-- To split on a computed result and keep the equation.
pub Result-cases {ε} :
    {E : Type ε} (r : Result (Unit {0}) E) → (r ≡ ok tt) ⊎ ((e : E) × (r ≡ err e))
Result-cases (ok tt) = inl refl
Result-cases (err e) = inr (e, refl)

-- Both steps in front of a result that `>>` let through.
pub ok-then {ε β} :
    {E : Type ε} {B : Type β} (first : Result (Unit {0}) E) (rest : Result B E) (b : B)
    → first >> rest ≡ ok b
    → (first ≡ ok tt) × (rest ≡ ok b)
ok-then (ok tt) rest b h = (refl, h)
ok-then (err e) rest b h = cc

pub ok-injective {ε β} :
    {E : Type ε} {B : Type β} (a b : B) → ◌≡◌ {A = Result B E} (ok a) (ok b) → a ≡ b
ok-injective a b h = cc
