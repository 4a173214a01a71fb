-- ===== src/Prelude/Names.antt =====
-- Python's sets of names, as lists: `in`, `|`, `-`, and the test `a & b`.
use Prim.Native.String.{String}
use mathlib.Core.Path.{◌≡◌, refl}
use mathlib.Core.Logic.{inl, inr, ◌≢◌}
use mathlib.Core.Bool.{Bool, true, false, not, ◌&&◌, ◌||◌}
use mathlib.Core.List.{List, [], ◌∷◌, ◌++◌, Memᴰ}
use native.Mathlib.Omega.{arith}
use text.Mathlib.Text.{◌==◌}
use text.Mathlib.TextEquality.{eq_iff}
use user_mode_nixos.Prelude.Tests.{if◌then◌else◌, Bool-cases}
use user_mode_nixos.Prelude.Lists.{filter, any, any-eq-true, any_of}

-- `x in xs`
abbrev pub elem : String → List String → Bool
elem x [] = false
elem x (y ∷ ys) = x == y || elem x ys

-- `xs | ys`: what is new is appended, once.
abbrev pub union : List String → List String → List String
union xs [] = xs
union xs (y ∷ ys) = if elem y xs then union xs ys else union (xs ++ y ∷ []) ys

-- `xs - {x}`
abbrev pub discard : String → List String → List String
discard x = filter (λ y. not (x == y))

-- `bool(xs & ys)`
abbrev pub overlap : List String → List String → Bool
overlap xs ys = any (λ x. elem x ys) xs

pub ne→eq-false : (a b : String) → a ≢ b → (a == b) ≡ false
ne→eq-false a b h = elim (Bool-cases (a == b)) [ inl e ↦ absurd (h ((eq_iff a b).0 e)) | inr e ↦ e ]

pub elem-append : (x : String) (xs ys : List String) → elem x (xs ++ ys) ≡ (elem x xs || elem x ys)
elem-append x [] ys = refl
elem-append x (y ∷ xs) ys = ground (arith, elem-append x xs ys)

pub elem-union :
    (x : String) (xs ys : List String) → elem x (union xs ys) ≡ (elem x xs || elem x ys)
elem-union x xs [] = ground arith
elem-union x xs (y ∷ ys) = elim (Bool-cases (elem y xs)) [
  | inl h ↦ rw h (ground (arith, elem-union x xs ys, eq_iff x y))
  | inr h ↦ rw h (ground (arith, elem-union x (xs ++ y ∷ []) ys, elem-append x xs (y ∷ [])))
]

pub elem-discard :
    (x y : String) (xs : List String) → elem x (discard y xs) ≡ (elem x xs && not (y == x))
elem-discard x y [] = refl
elem-discard x y (z ∷ xs) = ground (arith, elem-discard x y xs, eq_iff y z, eq_iff y x, eq_iff x z)

pub elem→Memᴰ : (x : String) (xs : List String) → elem x xs ≡ true → Memᴰ x xs
elem→Memᴰ x [] h = cc
elem→Memᴰ x (y ∷ xs) h = elim (Bool-cases (x == y)) [
  | inl e ↦ Memᴰ.head ((eq_iff x y).0 e)
  | inr e ↦ Memᴰ.tail (elem→Memᴰ x xs (ground arith))
]

pub Memᴰ→elem : (x : String) (xs : List String) → Memᴰ x xs → elem x xs ≡ true
Memᴰ→elem x [] m = elim m [ ]
Memᴰ→elem x (y ∷ xs) (Memᴰ.head e) = ground (arith, eq_iff x y)
Memᴰ→elem x (y ∷ xs) (Memᴰ.tail m) = ground (arith, Memᴰ→elem x xs m)

-- A common name.
pub overlap-eq-true :
    (xs ys : List String)
    → overlap xs ys ≡ true
    → (x : String) × (elem x xs ≡ true) × (elem x ys ≡ true)
overlap-eq-true xs ys h =
    let (x, m, e) = any-eq-true (λ x. elem x ys) xs h in (x, Memᴰ→elem x xs m, e)

pub overlap_of :
    (x : String) (xs ys : List String) → elem x xs ≡ true → elem x ys ≡ true → overlap xs ys ≡ true
overlap_of x xs ys h k = any_of (λ x. elem x ys) xs (elem→Memᴰ x xs h) k
