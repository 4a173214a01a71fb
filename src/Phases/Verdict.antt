-- ===== src/Phases/Verdict.antt =====
-- `passed` and `summarise` of pkgs/uml/uml/phases.py: the verdict and the counts of a run.
use user_mode_nixos.Prelude.{
  ℕ, ◌+◌, ◌≡◌, refl, ◌∙◌, ◌↔◌, ◌⊎◌, true, not, List, [], ◌∷◌, map, Memᴰ, arith, nat_eq, length,
  filter, all-eq-true, all_of, Dict,
}
use user_mode_nixos.Phases.{PhaseState, good, same_state, every_state, values, passed, summary_rows}

good_cases :
    (s : PhaseState) → good s ≡ true → (s ≡ PhaseState.passed) ⊎ (s ≡ PhaseState.deselected)
good_cases s h = ground arith

good_of : (s : PhaseState) → (s ≡ PhaseState.passed) ⊎ (s ≡ PhaseState.deselected) → good s ≡ true
good_of s h = ground arith

-- A run passes exactly when each of its phases passed or was deselected.
pub passed_iff :
    (state : Dict PhaseState)
    → (passed state ≡ true) ↔ (
        (s : PhaseState)
        → Memᴰ s (values state)
        → (s ≡ PhaseState.passed) ⊎ (s ≡ PhaseState.deselected))
unfolding passed
passed_iff state = (
  λ h s m. good_cases s (all-eq-true good (values state) h m),
  λ h. all_of good (values state) (λ s m. good_of s (h s m)),
)

-- The sum of the first components.
pub total : List (ℕ × PhaseState) → ℕ
total [] = 0
total ((n, _) ∷ rows) = n + total rows

total_nonzero :
    (rows : List (ℕ × PhaseState)) → total (filter (λ row. not (nat_eq row.0 0)) rows) ≡ total rows
unfolding total
total_nonzero [] = refl
total_nonzero ((n, s) ∷ rows) = ground (arith, total_nonzero rows)

abbrev count : PhaseState → List PhaseState → ℕ
count key states = length (filter (same_state key) states)

abbrev counts : List PhaseState → List (ℕ × PhaseState)
counts states = map (λ key. (count key states, key)) every_state

total-counts : (states : List PhaseState) → total (counts states) ≡ length states
unfolding total
total-counts [] = refl
total-counts (PhaseState.pending ∷ states) = omega (arith, total-counts states)
total-counts (PhaseState.running ∷ states) = omega (arith, total-counts states)
total-counts (PhaseState.passed ∷ states) = omega (arith, total-counts states)
total-counts (PhaseState.failed ∷ states) = omega (arith, total-counts states)
total-counts (PhaseState.skipped ∷ states) = omega (arith, total-counts states)
total-counts (PhaseState.interrupted ∷ states) = omega (arith, total-counts states)
total-counts (PhaseState.deselected ∷ states) = omega (arith, total-counts states)

length-values : (state : Dict PhaseState) → length (values state) ≡ length state
length-values [] = refl
length-values (e ∷ state) = omega (arith, length-values state)

-- The counts in the summary line add up to the number of phases: none is left out.
pub summary_rows-total : (state : Dict PhaseState) → total (summary_rows state) ≡ length state
unfolding summary_rows
summary_rows-total state =
    total_nonzero (counts (values state)) ∙ (total-counts (values state) ∙ length-values state)
