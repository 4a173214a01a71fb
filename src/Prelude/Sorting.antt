-- ===== src/Prelude/Sorting.antt =====
-- `sorted(xs, key=…)`: a stable sort, by the test whether one element's key is below another's.
use Prim.Native.Nat.{ℕ, ◌+◌}
use mathlib.Core.Path.{◌≡◌, refl}
use mathlib.Core.Logic.{inl, inr}
use mathlib.Core.Bool.{Bool, true, false, not, ◌&&◌, ◌||◌}
use mathlib.Core.List.{List, [], ◌∷◌}
use native.Mathlib.Omega.{arith}
use user_mode_nixos.Prelude.Tests.{if◌then◌else◌, Bool-cases}
use user_mode_nixos.Prelude.Lists.{any, all}

-- The sum of a number that each element has.
abbrev pub sum_of {ℓ} : {A : Type ℓ} → (A → ℕ) → List A → ℕ
sum_of f [] = 0
sum_of f (x ∷ xs) = f x + sum_of f xs

module _ {ℓ} {A : Type ℓ} (below : A → A → Bool) where
  -- In front of the first that is not below it.
  abbrev pub place : A → List A → List A
  place x [] = x ∷ []
  place x (y ∷ ys) = if below y x then y ∷ place x ys else x ∷ y ∷ ys

  abbrev pub sorted : List A → List A
  sorted [] = []
  sorted (x ∷ xs) = place x (sorted xs)

  -- No element is below one that stands before it.
  abbrev pub in_order : List A → Bool
  in_order [] = true
  in_order (x ∷ xs) = all (λ y. not (below y x)) xs && in_order xs

  any-place : (p : A → Bool) (x : A) (xs : List A) → any p (place x xs) ≡ (p x || any p xs)
  any-place p x [] = refl
  any-place p x (y ∷ ys) = ground (arith, any-place p x ys)

  pub any-sorted : (p : A → Bool) (xs : List A) → any p (sorted xs) ≡ any p xs
  any-sorted p [] = refl
  any-sorted p (x ∷ xs) = ground (arith, any-place p x (sorted xs), any-sorted p xs)

  all-place : (p : A → Bool) (x : A) (xs : List A) → all p (place x xs) ≡ (p x && all p xs)
  all-place p x [] = refl
  all-place p x (y ∷ ys) = ground (arith, all-place p x ys)

  pub all-sorted : (p : A → Bool) (xs : List A) → all p (sorted xs) ≡ all p xs
  all-sorted p [] = refl
  all-sorted p (x ∷ xs) = ground (arith, all-place p x (sorted xs), all-sorted p xs)

  sum_of-place : (f : A → ℕ) (x : A) (xs : List A) → sum_of f (place x xs) ≡ f x + sum_of f xs
  sum_of-place f x [] = refl
  sum_of-place f x (y ∷ ys) = ground (arith, sum_of-place f x ys)

  pub sum_of-sorted : (f : A → ℕ) (xs : List A) → sum_of f (sorted xs) ≡ sum_of f xs
  sum_of-sorted f [] = refl
  sum_of-sorted f (x ∷ xs) = ground (arith, sum_of-place f x (sorted xs), sum_of-sorted f xs)

  module _ (asym : (x y : A) → below x y ≡ true → below y x ≡ false)
      (trans : (x y z : A) → below y x ≡ false → below z y ≡ false → below z x ≡ false) where
    all_after :
        (x y : A) (ys : List A)
        → below y x ≡ false
        → all (λ z. not (below z y)) ys ≡ true
        → all (λ z. not (below z x)) ys ≡ true
    all_after x y [] h k = refl
    all_after x y (z ∷ ys) h k = ground (
      arith,
      trans x y z,
      all_after x y ys h (let r : all (λ z. not (below z y)) ys ≡ true = ground arith in r),
    )

    place-order : (x : A) (xs : List A) → in_order xs ≡ true → in_order (place x xs) ≡ true
    place-order x [] h = refl
    place-order x (y ∷ ys) h = elim (Bool-cases (below y x)) [
      | inl b ↦ rw b (
          ground (
            arith,
            asym y x b,
            all-place (λ z. not (below z y)) x ys,
            place-order x ys (ground arith),
          ))
      | inr b ↦ rw b (ground (arith, all_after x y ys b (ground arith)))
    ]

    pub sorted-order : (xs : List A) → in_order (sorted xs) ≡ true
    sorted-order [] = refl
    sorted-order (x ∷ xs) = place-order x (sorted xs) (sorted-order xs)
