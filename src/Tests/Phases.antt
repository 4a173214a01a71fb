-- ===== src/Tests/Phases.antt =====
-- The results about the phase functions at concrete inputs.
use user_mode_nixos.Prelude.{String, ◌≡◌, refl, ◌≢◌, ◌↔◌, ◌⊎◌, true, [], ◌∷◌, Memᴰ, elem, Dict}
use mathlib.Core.List.{Sublistᴰ}
use user_mode_nixos.Spec.{PhaseSpec}
use user_mode_nixos.Phases.{
  PhaseState, state_of, dependents, ready, claims, launchable, passed, summary_rows,
}
use user_mode_nixos.Phases.Dependents.{Taken, dependents_exact}
use user_mode_nixos.Phases.Ready.{Answered, ready_iff}
use user_mode_nixos.Phases.Launch.{
  IsExclusive, launchable-IsExclusive, launchable_maximal, launchable-sublist,
}
use user_mode_nixos.Phases.Verdict.{passed_iff, total, summary_rows-total}
use user_mode_nixos.Tests.Samples.{phases, cluster, other, check, guests}

dependents_exact_example :
    (elem "check" (dependents "cluster" phases) ≡ true)
    ↔ ((◌≢◌ {A = String} "check" "cluster") × Taken phases "cluster" "check")
dependents_exact_example = dependents_exact "cluster" phases "check"

abbrev states : Dict PhaseState
states =
    ("boot", PhaseState.passed)
    ∷ ("cluster", PhaseState.failed)
    ∷ ("other", PhaseState.pending)
    ∷ ("check", PhaseState.skipped)
    ∷ []

ready_iff_sample :
    Memᴰ other (ready phases states)
    ↔ (Memᴰ other phases × (state_of states "other" ≡ PhaseState.pending) × Answered states other)
ready_iff_sample = ready_iff phases states other

launchable-IsExclusive_example :
    IsExclusive guests (cluster ∷ launchable (check ∷ other ∷ []) (cluster ∷ []) guests)
launchable-IsExclusive_example =
    launchable-IsExclusive (check ∷ other ∷ []) (cluster ∷ []) guests (tt, tt)

launchable_maximal_example :
    Memᴰ check (launchable (check ∷ other ∷ []) (cluster ∷ []) guests)
    ⊎ ((x : String) × (elem x (claims check guests) ≡ true)
        × ((q : PhaseSpec) × (Memᴰ q (cluster ∷ [])
              ⊎ Memᴰ q (launchable (check ∷ other ∷ []) (cluster ∷ []) guests))
            × (elem x (claims q guests) ≡ true)))
launchable_maximal_example =
    launchable_maximal (check ∷ other ∷ []) (cluster ∷ []) guests check (Memᴰ.head refl)

launchable-sublist_sample :
    Sublistᴰ (launchable (check ∷ other ∷ []) (cluster ∷ []) guests) (check ∷ other ∷ [])
launchable-sublist_sample = launchable-sublist (check ∷ other ∷ []) (cluster ∷ []) guests

passed_iff_sample : (passed states ≡ true) ↔ (
    (s : PhaseState)
    → Memᴰ s (PhaseState.passed ∷ PhaseState.failed ∷ PhaseState.pending ∷ PhaseState.skipped ∷ [])
    → (s ≡ PhaseState.passed) ⊎ (s ≡ PhaseState.deselected))
passed_iff_sample = passed_iff states

summary_rows-total_sample : total (summary_rows states) ≡ 4
summary_rows-total_sample = summary_rows-total states
