-- ===== src/Prelude/Lists.antt =====
-- Lists measured and indexed by native numbers, under the library's names.
use Prim.Native.Nat.{ℕ, zero, suc, ◌+◌}
use mathlib.Core.List.{List, [], ◌∷◌, ◌++◌}
use mathlib.Core.Logic.{◌⊎◌, inl, inr}
use mathlib.Core.Option.{Option, none, some}
use mathlib.Core.Path.{◌≡◌, refl, ap}
use native.Mathlib.Omega.{arith}

module _ {ℓ} {A : Type ℓ} where
  abbrev pub length : List A → ℕ
  length [] = 0
  length (x ∷ xs) = suc (length xs)

  -- `v.get(i)`
  abbrev pub get_elem? : List A → ℕ → Option A
  get_elem? [] i = none
  get_elem? (x ∷ xs) zero = some x
  get_elem? (x ∷ xs) (suc i) = get_elem? xs i

  -- `v[i] = x`; a write out of bounds changes nothing.
  abbrev pub set : List A → ℕ → A → List A
  set [] i v = []
  set (x ∷ xs) zero v = v ∷ xs
  set (x ∷ xs) (suc i) v = x ∷ set xs i v

  -- `Vec::insert(i, x)`
  abbrev pub insert_at : List A → ℕ → A → List A
  insert_at xs zero v = v ∷ xs
  insert_at [] (suc i) v = v ∷ []
  insert_at (x ∷ xs) (suc i) v = x ∷ insert_at xs i v

  abbrev pub take : ℕ → List A → List A
  take zero xs = []
  take (suc n) [] = []
  take (suc n) (x ∷ xs) = x ∷ take n xs

  abbrev pub drop : ℕ → List A → List A
  drop zero xs = xs
  drop (suc n) [] = []
  drop (suc n) (x ∷ xs) = drop n xs

  pub take-length : (xs ys : List A) → take (length xs) (xs ++ ys) ≡ xs
  take-length [] ys = refl
  take-length (x ∷ xs) ys = ap (◌∷◌ x) (take-length xs ys)

  pub drop-length : (xs ys : List A) → drop (length xs) (xs ++ ys) ≡ ys
  drop-length [] ys = refl
  drop-length (x ∷ xs) ys = drop-length xs ys

  pub length-append : (xs ys : List A) → length (xs ++ ys) ≡ length xs + length ys
  length-append [] ys = omega arith
  length-append (x ∷ xs) ys = omega (arith, length-append xs ys)

module _ {ℓ κ} {A : Type ℓ} (P : A → Type κ) where
  abbrev pub All : List A → Type κ
  All [] = Unit
  All (x ∷ xs) = P x × All xs

module _ {ℓ} {A : Type ℓ} where
  -- Overwriting an element and inserting one behind it, seen from the split of the list there.
  pub insert_at-set :
      (pre : List A) (old x y : A) (post : List A)
      → insert_at (set (pre ++ old ∷ post) (length pre) x) (suc (length pre)) y
        ≡ pre ++ x ∷ y ∷ post
  insert_at-set [] old x y post = refl
  insert_at-set (p ∷ pre) old x y post = ap (◌∷◌ p) (insert_at-set pre old x y post)

-- `x` is an element of the list.
pub data In {ℓ} {A : Type ℓ} (x : A) : List A → Type ℓ where
  here : {y : A} {l : List A} → x ≡ y → In x (y ∷ l)
  there : {y : A} {l : List A} → In x l → In x (y ∷ l)

module _ {ℓ} {A : Type ℓ} where
  pub not-In-nil : {x : A} → ¬ In x []
  not-In-nil h = elim h [ ]

  pub In-cons : {x y : A} {l : List A} → In x (y ∷ l) → (x ≡ y) ⊎ In x l
  In-cons (here e) = inl e
  In-cons (there h) = inr h

  pub In-skip : {x y z : A} {l : List A} → In x (y ∷ l) → In x (y ∷ z ∷ l)
  In-skip (here e) = here e
  In-skip (there h) = there (there h)

  pub In-swap : {x : A} (y z : A) {l : List A} → In x (y ∷ z ∷ l) → In x (z ∷ y ∷ l)
  In-swap y z (here e) = there (here e)
  In-swap y z (there (here e)) = here e
  In-swap y z (there (there h)) = there (there h)
