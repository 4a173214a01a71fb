-- ===== src/Tests/Sessions.antt =====
-- The results about the end of a phase at concrete inputs.
use user_mode_nixos.Prelude.{
  String, ◌≡◌, refl, ◌≢◌, ◌⊎◌, true, false, none, some, [], ◌∷◌, ◌++◌, elem, lookup, if◌then◌else◌,
}
use user_mode_nixos.Phases.{PhaseState}
use user_mode_nixos.Phases.Dependents.{Taken}
use user_mode_nixos.Events.{Event}
use user_mode_nixos.Session.{Session, fresh, command}
use user_mode_nixos.Session.Run.{
  Outcome, Evidence, Ran, begin, view, outcome_of, conclude, nodes_of, run,
}
use user_mode_nixos.Session.Run.Skips.{Recorded, conclude-skips, run-Recorded, conclude_cut}
use user_mode_nixos.Session.Run.Guests.{conclude_releases, command_attributed}
use user_mode_nixos.Tests.Samples.{cluster, booted, no_evidence}

abbrev wrong : Outcome
wrong = Outcome.raised "AssertionError" "no pods" false

conclude-skips_example :
    (lookup "cluster" (conclude wrong no_evidence cluster (begin [] cluster booted)).state
      ≡ some PhaseState.failed)
    × ((m : String)
        → m ≢ "cluster"
        → ((lookup m (begin [] cluster booted).state ≡ some PhaseState.pending)
            × Taken (begin [] cluster booted).phases "cluster" m
            × (lookup m (conclude wrong no_evidence cluster (begin [] cluster booted)).state
                ≡ some PhaseState.skipped))
          ⊎ ((lookup m (begin [] cluster booted).state ≡ some PhaseState.pending
                → Taken (begin [] cluster booted).phases "cluster" m
                → ⊥)
              × (lookup m (conclude wrong no_evidence cluster (begin [] cluster booted)).state
                  ≡ lookup m (begin [] cluster booted).state)))
unfolding outcome_of view begin fresh
conclude-skips_example =
    conclude-skips wrong no_evidence cluster (begin [] cluster booted) refl refl

run-Recorded_example :
    Recorded cluster (run false [] Outcome.returned no_evidence cluster booted)
    × ((t : Session)
        → run true [] Outcome.returned no_evidence cluster booted ≡ Ran.stopped t
        → (t.state ≡ booted.state) × (t.running ≡ booted.running))
run-Recorded_example = run-Recorded [] Outcome.returned no_evidence cluster booted

abbrev cut_evidence : Evidence
cut_evidence = record no_evidence { cut = true }

conclude_cut_example :
    (lookup "cluster"
        (conclude Outcome.returned cut_evidence cluster (begin [] cluster booted)).state
      ≡ some PhaseState.running)
    × ((conclude Outcome.returned cut_evidence cluster (begin [] cluster booted)).running
        ≡ (begin [] cluster booted).running)
unfolding outcome_of view begin fresh
conclude_cut_example = conclude_cut [] Outcome.returned cut_evidence cluster booted (λ k. cc) refl

conclude_releases_example :
    lookup "cp" (conclude wrong no_evidence cluster (begin [] cluster booted)).running ≡ (
      if elem "cp" (nodes_of cluster (begin [] cluster booted))
      then none
      else lookup "cp" (begin [] cluster booted).running)
conclude_releases_example =
    conclude_releases wrong no_evidence cluster (begin [] cluster booted) "cp" refl

-- A first command, and a second one behind it.
abbrev one_command : Session
one_command = command "worker" "true" 5 (begin [] cluster booted)

command_attributed_example :
    (event : Event) × ((command "cp" "hostname" 9 one_command).events
      ≡ one_command.events ++ event ∷ [])
    × (event.machine ≡ some "cp")
    × (event.phase ≡ (
        if elem "cp" (nodes_of cluster booted) then some "cluster" else lookup "cp" booted.running))
unfolding command
command_attributed_example = command_attributed [] cluster booted one_command "cp" "hostname" 9 refl
