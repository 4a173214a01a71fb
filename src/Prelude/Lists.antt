-- ===== src/Prelude/Lists.antt =====
-- Lists counted by native numbers, with the library's untruncated membership, and the Boolean
-- filters that comprehensions are.
use Prim.Native.Nat.{ℕ, zero, suc, ◌-◌, ◌+◌, ◌≤◌, ◌<◌}
use mathlib.Core.Path.{◌≡◌, refl, ap, ◌∙◌}
use mathlib.Core.Logic.{inl, inr}
use mathlib.Core.Bool.{Bool, true, false, ◌&&◌, ◌||◌}
use mathlib.Core.List.{List, [], ◌∷◌, ◌++◌, Memᴰ}
use mathlib.Core.List.Memᴰ
use native.Mathlib.Omega.{arith}
use user_mode_nixos.Prelude.Tests.{if◌then◌else◌, Bool-cases}

-- A byte is a number.
abbrev pub Bytes : Type 0
Bytes = List ℕ

module _ {ℓ} {A : Type ℓ} where
  abbrev pub length : List A → ℕ
  length [] = 0
  length (x ∷ xs) = suc (length xs)

  -- `xs[:n]` and `xs[n:]`
  abbrev pub take : ℕ → List A → List A
  take zero xs = []
  take (suc n) [] = []
  take (suc n) (x ∷ xs) = x ∷ take n xs

  abbrev pub drop : ℕ → List A → List A
  drop zero xs = xs
  drop (suc n) [] = []
  drop (suc n) (_ ∷ xs) = drop n xs

  -- `[x for x in xs if p(x)]`
  abbrev pub filter : (A → Bool) → List A → List A
  filter p [] = []
  filter p (x ∷ xs) = if p x then x ∷ filter p xs else filter p xs

  -- `any(p(x) for x in xs)`
  abbrev pub any : (A → Bool) → List A → Bool
  any p [] = false
  any p (x ∷ xs) = p x || any p xs

  -- `all(p(x) for x in xs)`
  abbrev pub all : (A → Bool) → List A → Bool
  all p [] = true
  all p (x ∷ xs) = p x && all p xs

  pub length-append : (xs ys : List A) → length (xs ++ ys) ≡ length xs + length ys
  length-append [] ys = omega arith
  length-append (x ∷ xs) ys = omega (arith, length-append xs ys)

  pub length-take : (n : ℕ) (xs : List A) → n ≤ length xs → length (take n xs) ≡ n
  length-take zero xs h = refl
  length-take (suc n) [] h = omega arith
  length-take (suc n) (x ∷ xs) h = ap suc (length-take n xs (omega arith))

  pub take-all : (n : ℕ) (xs : List A) → length xs ≤ n → take n xs ≡ xs
  take-all zero [] h = refl
  take-all zero (x ∷ xs) h = absurd (let no : ⊥ = omega arith in no)
  take-all (suc n) [] h = refl
  take-all (suc n) (x ∷ xs) h = ap (λ r. x ∷ r) (take-all n xs (omega arith))

  pub length-drop : (n : ℕ) (xs : List A) → length (drop n xs) ≡ length xs - n
  length-drop zero xs = omega arith
  length-drop (suc n) [] = omega arith
  length-drop (suc n) (x ∷ xs) = length-drop n xs ∙ omega arith

  pub take-drop : (n : ℕ) (xs : List A) → take n xs ++ drop n xs ≡ xs
  take-drop zero xs = refl
  take-drop (suc n) [] = refl
  take-drop (suc n) (x ∷ xs) = ap (λ r. x ∷ r) (take-drop n xs)

  pub take-append_length : (xs ys : List A) (n : ℕ) → n ≡ length xs → take n (xs ++ ys) ≡ xs
  take-append_length [] ys n h = ap (λ k. take k ys) h
  take-append_length (x ∷ xs) ys zero h = absurd (let no : ⊥ = omega arith in no)
  take-append_length (x ∷ xs) ys (suc n) h =
      ap (λ r. x ∷ r) (take-append_length xs ys n (omega arith))

  pub drop-append_length : (xs ys : List A) (n : ℕ) → n ≡ length xs → drop n (xs ++ ys) ≡ ys
  drop-append_length [] ys n h = ap (λ k. drop k ys) h
  drop-append_length (x ∷ xs) ys zero h = absurd (let no : ⊥ = omega arith in no)
  drop-append_length (x ∷ xs) ys (suc n) h = drop-append_length xs ys n (omega arith)

  pub length-filter-le : (p : A → Bool) (xs : List A) → length (filter p xs) ≤ length xs
  length-filter-le p [] = omega arith
  length-filter-le p (x ∷ xs) = ground (arith, length-filter-le p xs)

  pub mem-filter :
      {a : A} (p : A → Bool) (xs : List A) → Memᴰ a (filter p xs) → Memᴰ a xs × (p a ≡ true)
  mem-filter p [] m = absurd (Memᴰ.not-nil m)
  mem-filter {a} p (x ∷ xs) m = elim (Bool-cases (p x)) [
    | inl h ↦ elim (Memᴰ.cases_cons (let k : Memᴰ a (x ∷ filter p xs) = rw h at m in k)) [
      | inl e ↦ (Memᴰ.head e, rw e h)
      | inr k ↦ let r = mem-filter p xs k in (Memᴰ.tail r.0, r.1)
    ]
    | inr h ↦
        let r = mem-filter p xs (let k : Memᴰ a (filter p xs) = rw h at m in k) in
        (Memᴰ.tail r.0, r.1)
  ]

  pub mem-filter_of :
      {a : A} (p : A → Bool) (xs : List A) → Memᴰ a xs → p a ≡ true → Memᴰ a (filter p xs)
  mem-filter_of p [] m h = elim m [ ]
  mem-filter_of p (x ∷ xs) (Memᴰ.head e) h = rw (← e, h) (Memᴰ.head refl)
  mem-filter_of p (x ∷ xs) (Memᴰ.tail m) h = elim (Bool-cases (p x)) [
    | inl k ↦ rw k (Memᴰ.tail (mem-filter_of p xs m h))
    | inr k ↦ rw k (mem-filter_of p xs m h)
  ]

  pub all-eq-true : (p : A → Bool) (xs : List A) {a : A} → all p xs ≡ true → Memᴰ a xs → p a ≡ true
  all-eq-true p [] h m = elim m [ ]
  all-eq-true p (x ∷ xs) h (Memᴰ.head e) = rw e (ground arith)
  all-eq-true p (x ∷ xs) h (Memᴰ.tail m) = all-eq-true p xs (ground arith) m

  pub all_of : (p : A → Bool) (xs : List A) → ((a : A) → Memᴰ a xs → p a ≡ true) → all p xs ≡ true
  all_of p [] h = refl
  all_of p (x ∷ xs) h = ground (arith, h x (Memᴰ.head refl), all_of p xs (λ a m. h a (Memᴰ.tail m)))

  pub any-append : (p : A → Bool) (xs ys : List A) → any p (xs ++ ys) ≡ (any p xs || any p ys)
  any-append p [] ys = refl
  any-append p (x ∷ xs) ys = ground (arith, any-append p xs ys)

  -- A failing `all` has a counterexample.
  pub all-eq-false :
      (p : A → Bool) (xs : List A) → all p xs ≡ false → (a : A) × Memᴰ a xs × (p a ≡ false)
  all-eq-false p [] h = cc
  all-eq-false p (x ∷ xs) h = elim (Bool-cases (p x)) [
    | inl k ↦ let (a, m, e) = all-eq-false p xs (ground arith) in (a, Memᴰ.tail m, e)
    | inr k ↦ (x, Memᴰ.head refl, k)
  ]

  pub any-eq-true :
      (p : A → Bool) (xs : List A) → any p xs ≡ true → (a : A) × Memᴰ a xs × (p a ≡ true)
  any-eq-true p [] h = cc
  any-eq-true p (x ∷ xs) h = elim (Bool-cases (p x)) [
    | inl k ↦ (x, Memᴰ.head refl, k)
    | inr k ↦ let (a, m, e) = any-eq-true p xs (ground arith) in (a, Memᴰ.tail m, e)
  ]

  pub any_of : (p : A → Bool) (xs : List A) {a : A} → Memᴰ a xs → p a ≡ true → any p xs ≡ true
  any_of p [] m h = elim m [ ]
  any_of p (x ∷ xs) (Memᴰ.head e) h = let k : p x ≡ true = rw e at h in ground arith
  any_of p (x ∷ xs) (Memᴰ.tail m) h = ground (arith, any_of p xs m h)

  -- Two filters of one list, the first inside the second: counted.
  pub length-filter_mono :
      (p q : A → Bool) (xs : List A)
      → ((a : A) → p a ≡ true → q a ≡ true)
      → length (filter p xs) ≤ length (filter q xs)
  length-filter_mono p q [] h = omega arith
  length-filter_mono p q (x ∷ xs) h = ground (arith, h x, length-filter_mono p q xs h)

  -- The inner filter is strictly smaller where it drops an element.
  pub length-filter-lt :
      (p q : A → Bool) (xs : List A) {a : A}
      → ((b : A) → p b ≡ true → q b ≡ true)
      → Memᴰ a xs
      → p a ≡ false
      → q a ≡ true
      → length (filter p xs) < length (filter q xs)
  length-filter-lt p q [] h m f t = elim m [ ]
  length-filter-lt p q (x ∷ xs) h (Memᴰ.head e) f t =
      let f' : p x ≡ false = rw e at f in
      let t' : q x ≡ true = rw e at t in ground (arith, length-filter_mono p q xs h)
  length-filter-lt p q (x ∷ xs) h (Memᴰ.tail m) f t =
      ground (arith, h x, length-filter-lt p q xs h m f t)
