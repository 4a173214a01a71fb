-- ===== src/Prelude/Decimals.antt =====
-- Texts as lists of code points, and the decimal notation of numbers in them.
use Prim.Native.Nat.{ℕ, zero, suc, ◌+◌, ◌-◌, ◌*◌, ◌/◌, ◌%◌, ◌≤◌, ◌<◌}
use mathlib.Core.Path.{◌≡◌, refl, ap, ◌∙◌}
use mathlib.Core.Logic.{inl, inr}
use mathlib.Core.Bool.{◌&&◌}
use mathlib.Core.Option.{Option, none, some}
use mathlib.Core.List.{List, [], ◌∷◌, ◌++◌}
use native.Mathlib.Omega.{arith}
use user_mode_nixos.Prelude.Tests.{if◌then◌else◌, ltb, leb, Bool-cases}

-- A text.
abbrev pub Chars : Type 0
Chars = List ℕ

digits_loop : ℕ → ℕ → Chars
digits_loop zero n = []
digits_loop (suc fuel) n =
    let front = digits_loop fuel (n / 10) in
    if ltb n 10 then (48 + n) ∷ [] else front ++ ((48 + n % 10) ∷ [])

-- `str(n)`: a number has no more digits than its value and one.
unfoldable pub decimal : ℕ → Chars
unfolding digits_loop
decimal n = digits_loop (suc n) n

number_loop : ℕ → Chars → Option ℕ
number_loop n [] = some n
number_loop n (c ∷ cs) =
    let rest = number_loop (10 * n + (c - 48)) cs in if leb 48 c && leb c 57 then rest else none

-- `int(text)` of digits. Where the text is not of digits alone it is none here; of those texts,
-- `int` reads the ones with a sign, with underscores or with spaces around them.
unfoldable pub number : Chars → Option ℕ
unfolding number_loop
number [] = none
number (c ∷ cs) = number_loop 0 (c ∷ cs)

number_loop-append :
    (acc n d : ℕ) (cs : Chars)
    → d < 10
    → number_loop acc cs ≡ some n
    → number_loop acc (cs ++ ((48 + d) ∷ [])) ≡ some (10 * n + d)
unfolding number_loop
number_loop-append acc n d [] h e = ground (arith, e)
number_loop-append acc n d (c ∷ cs) h e = elim (Bool-cases (leb 48 c && leb c 57)) [
  | inl k ↦ rw k (
      number_loop-append (10 * acc + (c - 48)) n d cs h
        (let r : number_loop (10 * acc + (c - 48)) cs ≡ some n = rw k at e in r))
  | inr k ↦ let no : none ≡ some n = rw k at e in cc
]

number-digits : (fuel n : ℕ) → n < fuel → number_loop 0 (digits_loop fuel n) ≡ some n
unfolding digits_loop number_loop
number-digits zero n h = absurd (let no : ⊥ = omega arith in no)
number-digits (suc fuel) n h = elim (Bool-cases (ltb n 10)) [
  | inl k ↦ rw k (ground arith)
  | inr k ↦
      let big : 10 ≤ n = ground arith in
      let whole : 10 * (n / 10) + n % 10 ≡ n = omega arith in
      rw k (
        number_loop-append 0 (n / 10) (n % 10) (digits_loop fuel (n / 10)) (omega arith)
          (number-digits fuel (n / 10) (omega arith))
        ∙ ap some whole)
]

number-append : (cs : Chars) (c : ℕ) → number (cs ++ (c ∷ [])) ≡ number_loop 0 (cs ++ (c ∷ []))
unfolding number
number-append [] c = refl
number-append (d ∷ cs) c = refl

digits-nonempty :
    (fuel n : ℕ) → n < fuel → number (digits_loop fuel n) ≡ number_loop 0 (digits_loop fuel n)
unfolding number digits_loop
digits-nonempty zero n h = absurd (let no : ⊥ = omega arith in no)
digits-nonempty (suc fuel) n h = elim (Bool-cases (ltb n 10)) [
  | inl k ↦ rw k refl
  | inr k ↦ rw k (number-append (digits_loop fuel (n / 10)) (48 + n % 10))
]

-- A number is read back from its decimal notation.
pub number-decimal : (n : ℕ) → number (decimal n) ≡ some n
unfolding decimal
number-decimal n = digits-nonempty (suc n) n (omega arith) ∙ number-digits (suc n) n (omega arith)

-- `text[:-1]` and `text[-1:]`
abbrev pub split_last : Chars → Option (Chars × ℕ)
split_last [] = none
split_last (c ∷ cs) = elim (split_last cs) [
  | none ↦ some ([], c)
  | some (front, last) ↦ some (c ∷ front, last)
]

pub split_last-append : (cs : Chars) (c : ℕ) → split_last (cs ++ (c ∷ [])) ≡ some (cs, c)
split_last-append [] c = refl
split_last-append (d ∷ cs) c = ground (arith, split_last-append cs c)
