-- ===== src/Prelude/Texts.antt =====
-- Texts: `"".join`, `", ".join`, and the decimal notation of numbers and of durations.
-- A duration is a whole number of milliseconds.
use Prim.Native.Nat.{ℕ, zero, suc, ◌+◌, ◌*◌, ◌/◌, ◌%◌, ◌≤◌, ◌<◌}
use Prim.Native.String.{String, ◌++◌ as ◌<>◌}
use mathlib.Core.Path.{◌≡◌, refl, ap}
use mathlib.Core.List.{List, [], ◌∷◌}
use mathlib.Core.Logic.{inl, inr}
use native.Mathlib.Nat.{div-add-mod, mod-lt, lt_of_mul-lt-mul_left}
use native.Mathlib.Omega.{arith}
use user_mode_nixos.Prelude.Tests.{if◌then◌else◌, ltb, nat_eq, Bool-cases}

-- `"".join(parts)`
unfoldable pub concat : List String → String
concat [] = ""
concat (s ∷ rest) = s <> concat rest

-- `separator.join(parts)`
unfoldable pub join : String → List String → String
join separator [] = ""
join separator (s ∷ []) = s
join separator (s ∷ t ∷ rest) = s <> (separator <> join separator (t ∷ rest))

digit : ℕ → String
digit n =
    if nat_eq n 0
    then "0"
    else if nat_eq n 1
    then "1"
    else if nat_eq n 2
    then "2"
    else if nat_eq n 3
    then "3"
    else if nat_eq n 4
    then "4"
    else if nat_eq n 5
    then "5"
    else if nat_eq n 6
    then "6"
    else if nat_eq n 7
    then "7"
    else if nat_eq n 8
    then "8"
    else "9"

-- A number has no more decimal digits than its value and one.
show_loop : ℕ → ℕ → String
unfolding digit
show_loop zero n = ""
show_loop (suc fuel) n =
    let front = show_loop fuel (n / 10) in if ltb n 10 then digit n else front <> digit (n % 10)

-- `str(n)`
unfoldable pub show : ℕ → String
unfolding show_loop
show n = show_loop (suc n) n

-- Halves go to the even neighbour, as Python rounds.
unfoldable pub round_to : ℕ → ℕ → ℕ
round_to unit n =
    let q = n / unit in
    let r = 2 * (n % unit) in if ltb r unit then q else if ltb unit r then q + 1 else q + q % 2

-- `f"{seconds:.1f}"`
unfoldable pub tenths : ℕ → String
unfolding round_to show
tenths ms = let t = round_to 100 ms in show (t / 10) <> ("." <> show (t % 10))

pad3 : ℕ → String
unfolding show
pad3 n = if ltb n 10 then "00" <> show n else if ltb n 100 then "0" <> show n else show n

-- `f"{seconds:.3f}"`
unfoldable pub thousandths : ℕ → String
unfolding pad3 show
thousandths ms = show (ms / 1000) <> ("." <> pad3 (ms % 1000))

pad2 : ℕ → String
unfolding show
pad2 n = if ltb n 10 then "0" <> show n else show n

-- `f"{seconds:.2f}"`
unfoldable pub hundredths : ℕ → String
unfolding round_to pad2 show
hundredths ms = let t = round_to 10 ms in show (t / 100) <> ("." <> pad2 (t % 100))

duration_texts :
    concat (tenths 1250 ∷ " " ∷ tenths 1350 ∷ " " ∷ hundredths 45 ∷ " " ∷ thousandths 12007 ∷ [])
    ≡ "1.2 1.4 0.04 12.007"
unfolding concat tenths hundredths thousandths
duration_texts = refl

-- A share of at most the whole rounds to at most 100.
pub round_to-le : (unit n : ℕ) → 0 < unit → n ≤ 100 * unit → round_to unit n ≤ 100
unfolding round_to
round_to-le unit n h k =
    let q = n / unit in
    let whole = div-add-mod n unit in
    let below = mod-lt n h in
    let few : q < 101 =
      lt_of_mul-lt-mul_left unit (let l : unit * q < unit * 101 = omega (arith, whole) in l) in
    elim (Bool-cases (ltb q 100)) [
      | inl p ↦ ground arith
      | inr p ↦
          let e : q ≡ 100 = ground arith in
          let none_left : n % unit ≡ 0 = omega (arith, whole, ap (λ t. unit * t) e) in
          ground (arith, e, none_left)
    ]
