-- ===== src/Eval/Exit/Shown.antt =====
-- What is shown is a part of the output, and begins with the reason where there is one.
use user_mode_nixos.Prelude.{
  ℕ, suc, ◌-◌, ◌≤◌, String, true, false, none, some, List, [], ◌∷◌, ◌++◌, length, take, drop,
  take-drop, length-drop, any, ◌≡◌, refl, ap, arith,
}
use user_mode_nixos.Eval.Exit.{is_failure, from_failure, last_lines, shown_or, why_it_exited}

from_failure-none : (lines : List String) → any is_failure lines ≡ false → from_failure lines ≡ none
unfolding from_failure
from_failure-none [] h = refl
from_failure-none (l ∷ lines) h =
    let here : is_failure l ≡ false = ground arith in
    rw here (from_failure-none lines (ground arith))

from_failure-append :
    (before : List String) (line : String) (after : List String)
    → any is_failure before ≡ false
    → is_failure line ≡ true
    → from_failure (before ++ (line ∷ after)) ≡ some (line ∷ take 3 after)
unfolding from_failure
from_failure-append [] line after h k = rw k refl
from_failure-append (b ∷ before) line after h k =
    let here : is_failure b ≡ false = ground arith in
    rw here (from_failure-append before line after (ground arith) k)

-- Of an output, the first line that says that the evaluation failed is shown with the three lines
-- behind it, wherever it stands; and where no line says so, what is shown is the end of the
-- output, as many lines as asked for, or all of them if there are not more.
pub why_it_exited_shows :
    (n : ℕ)
    → ((before : List String) (line : String) (after : List String)
        → any is_failure before ≡ false
        → is_failure line ≡ true
        → why_it_exited (suc n) (before ++ (line ∷ after)) ≡ line ∷ take 3 after)
      × ((lines : List String)
          → any is_failure lines ≡ false
          → ((front : List String) × (front ++ why_it_exited (suc n) lines ≡ lines))
            × (length (why_it_exited (suc n) lines) ≤ suc n)
            × (length lines ≤ suc n → why_it_exited (suc n) lines ≡ lines))
unfolding why_it_exited
why_it_exited_shows n = (
  λ before line after h k.
      ap (λ o. shown_or o (last_lines (suc n) (before ++ (line ∷ after))))
        (from_failure-append before line after h k),
  λ lines h.
      let cut = length lines - suc n in
      let silent = from_failure-none lines h in
      let e : why_it_exited (suc n) lines ≡ drop cut lines =
        ap (λ o. shown_or o (drop cut lines)) silent in
      rw e (
        (take cut lines, take-drop cut lines),
        omega (arith, length-drop cut lines),
        λ k. ap (λ c. drop c lines) (let z : cut ≡ 0 = omega arith in z),
      ),
)
