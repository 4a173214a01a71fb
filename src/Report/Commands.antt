-- ===== src/Report/Commands.antt =====
-- `_by_command`: the round trips by the program they ran.
use user_mode_nixos.Prelude.{
  Chars, ℕ, ◌+◌, ◌≤◌, Bool, true, ◌&&◌, List, [], ◌∷◌, if◌then◌else◌, length, filter, sorted,
  in_order, sorted-order, sum_of, sum_of-sorted, take-all, ◌≡◌, refl, ap, ◌∙◌, inl, inr, Bool-cases,
  arith,
}
use user_mode_nixos.Report.{Step, Row, command, same, count, is_rpc, grouped, costlier, by_command}

same-eq : (a b : Chars) → same a b ≡ true → a ≡ b
same-eq [] [] h = refl
same-eq [] (_ ∷ _) h = cc
same-eq (_ ∷ _) [] h = cc
same-eq (c ∷ a) (d ∷ b) h = let e = same-eq a b (ground arith) in ground arith

same_refl : (a : Chars) → same a a ≡ true
same_refl [] = refl
same_refl (c ∷ a) = ground (arith, same_refl a)

-- What the rows of one program hold.
abbrev pub calls_of : Chars → List Row → ℕ
calls_of key = sum_of (λ r. if same r.name key then r.calls else 0)

abbrev pub seconds_of : Chars → List Row → ℕ
seconds_of key = sum_of (λ r. if same r.name key then r.seconds else 0)

-- The round trips of one program.
abbrev pub ran : Chars → Step → Bool
ran key s = is_rpc s && same (command s.what) key

calls_of-count :
    (key new : Chars) (n : ℕ) (rows : List Row)
    → calls_of key (count new n rows) ≡ (if same new key then 1 else 0) + calls_of key rows
unfolding count
calls_of-count key new n [] = refl
calls_of-count key new n (r ∷ rows) = elim (Bool-cases (same r.name new)) [
  | inl e ↦ let same_name = same-eq r.name new e in rw e (ground arith)
  | inr e ↦ rw e (ground (arith, calls_of-count key new n rows))
]

seconds_of-count :
    (key new : Chars) (n : ℕ) (rows : List Row)
    → seconds_of key (count new n rows) ≡ (if same new key then n else 0) + seconds_of key rows
unfolding count
seconds_of-count key new n [] = refl
seconds_of-count key new n (r ∷ rows) = elim (Bool-cases (same r.name new)) [
  | inl e ↦ let same_name = same-eq r.name new e in rw e (ground arith)
  | inr e ↦ rw e (ground (arith, seconds_of-count key new n rows))
]

calls_of-grouped :
    (key : Chars) (rows : List Row) (steps : List Step)
    → calls_of key (grouped rows steps) ≡ calls_of key rows + length (filter (ran key) steps)
unfolding grouped
calls_of-grouped key rows [] = omega arith
calls_of-grouped key rows (s ∷ steps) = elim (Bool-cases (is_rpc s)) [
  | inl r ↦ rw r (
      ground (
        arith,
        calls_of-grouped key (count (command s.what) s.seconds rows) steps,
        calls_of-count key (command s.what) s.seconds rows,
      ))
  | inr r ↦ rw r (calls_of-grouped key rows steps)
]

seconds_of-grouped :
    (key : Chars) (rows : List Row) (steps : List Step)
    → seconds_of key (grouped rows steps)
      ≡ seconds_of key rows + sum_of (λ s. s.seconds) (filter (ran key) steps)
unfolding grouped
seconds_of-grouped key rows [] = omega arith
seconds_of-grouped key rows (s ∷ steps) = elim (Bool-cases (is_rpc s)) [
  | inl r ↦ rw r (
      ground (
        arith,
        seconds_of-grouped key (count (command s.what) s.seconds rows) steps,
        seconds_of-count key (command s.what) s.seconds rows,
      ))
  | inr r ↦ rw r (seconds_of-grouped key rows steps)
]

-- Where at most 30 programs ran, the rows of a program count its round trips and add up their
-- time; and the rows stand in order, the costliest first.
pub by_command_sums :
    (key : Chars) (steps : List Step)
    → length (sorted costlier (grouped [] steps)) ≤ 30
    → (calls_of key (by_command steps) ≡ length (filter (ran key) steps))
      × (seconds_of key (by_command steps) ≡ sum_of (λ s. s.seconds) (filter (ran key) steps))
      × (in_order costlier (by_command steps) ≡ true)
unfolding by_command
by_command_sums key steps h =
    let rows = grouped [] steps in
    let whole = take-all 30 (sorted costlier rows) h in
    (
      ap (calls_of key) whole
          ∙ (sum_of-sorted costlier (λ r. if same r.name key then r.calls else 0) rows
              ∙ calls_of-grouped key [] steps
              ∙ omega arith),
      ap (seconds_of key) whole
          ∙ (sum_of-sorted costlier (λ r. if same r.name key then r.seconds else 0) rows
              ∙ seconds_of-grouped key [] steps
              ∙ omega arith),
      ap (in_order costlier) whole
          ∙ sorted-order costlier (λ r q h. ground arith) (λ r q t h k. ground arith) rows,
    )
