-- ===== src/Tests/Runs.antt =====
-- Short runs of the schedule, and the results at them.
use user_mode_nixos.Prelude.{
  String, ◌≡◌, refl, ◌⊎◌, true, false, some, [], ◌∷◌, Memᴰ, elem, lookup, insert, remove,
}
use user_mode_nixos.Phases.{PhaseState, unfinished, state_of, dependents, ready, launchable, claims}
use user_mode_nixos.Phases.Launch.{IsExclusive}
use user_mode_nixos.Phases.Ready.{Answered}
use user_mode_nixos.Session.{Session, fresh}
use user_mode_nixos.Session.Fresh.{fresh-ne-running}
use user_mode_nixos.Session.Run.{Outcome, begin, conclude, outcome_of, view}
use user_mode_nixos.Cli.Schedule.{
  Options, Schedule, Reason, names, reason, turn, finish, hand_begin, turn_step, begin_step,
  finish_step, hand_begin_step, Reach, here, next, entry,
}
use user_mode_nixos.Cli.Schedule.Invariant.{IsIdle}
use user_mode_nixos.Cli.Schedule.Safety.{
  schedule-IsExclusive, schedule_pause_quiet, turn_starts_due,
}
use user_mode_nixos.Cli.Schedule.Completion.{IsSorted, schedule_complete}
use user_mode_nixos.Tests.Samples.{phases, boot, cluster, other, guests, booted, plain, no_evidence}

booted-IsIdle : IsIdle booted
booted-IsIdle = fresh-ne-running phases

abbrev first_turn : Schedule
first_turn = turn plain (entry booted)

start : Reach plain (entry booted) first_turn
start = next here (turn_step (entry booted) refl)

program : Unit {0}
unfolding turn finish hand_begin begin conclude outcome_of view dependents ready state_of lookup
    insert remove fresh launchable claims
program = tt

first_turn-running : first_turn.running ≡ boot ∷ []
unfolding program
first_turn-running = refl

-- The first phase, begun.
abbrev begun : Schedule
begun = record first_turn { session = begin [] boot first_turn.session; begun = "boot" ∷ [] }

begun-Reach : Reach plain (entry booted) begun
unfolding program
begun-Reach = next start (begin_step first_turn [] boot (Memᴰ.head refl) refl)

-- It ends, and the two phases behind it start.
abbrev ended : Schedule
ended = finish Outcome.returned no_evidence boot begun

ended-Reach : Reach plain (entry booted) ended
unfolding program
ended-Reach =
    next begun-Reach
      (finish_step begun Outcome.returned no_evidence boot (Memᴰ.head refl) refl (λ k. cc) refl)

abbrev second_turn : Schedule
second_turn = turn plain ended

second_turn-Reach : Reach plain (entry booted) second_turn
unfolding program
second_turn-Reach = next ended-Reach (turn_step ended refl)

second_turn-running : second_turn.running ≡ cluster ∷ other ∷ []
unfolding program
second_turn-running = refl

schedule-IsExclusive_example : IsExclusive guests second_turn.running
schedule-IsExclusive_example = schedule-IsExclusive plain booted booted-IsIdle second_turn-Reach

turn_starts_due_example :
    Memᴰ cluster ended.running
    ⊎ ((reason plain ended ≡ Reason.go)
        × (elem "cluster" (names ended.running) ≡ false)
        × (state_of ended.session.state "cluster" ≡ PhaseState.pending)
        × Answered ended.session.state cluster)
unfolding program
turn_starts_due_example = turn_starts_due plain ended cluster (Memᴰ.head refl)

-- A run of one phase, to its end.
abbrev solo : Session
solo = record (fresh (boot ∷ [])) { vms = some guests }

abbrev solo_turn : Schedule
solo_turn = turn plain (entry solo)

abbrev solo_begun : Schedule
solo_begun = record solo_turn { session = begin [] boot solo_turn.session; begun = "boot" ∷ [] }

abbrev solo_ended : Schedule
solo_ended = finish (Outcome.raised "AssertionError" "no" false) no_evidence boot solo_begun

solo-Reach : Reach plain (entry solo) solo_ended
unfolding program
solo-Reach =
    next
      (next (next here (turn_step (entry solo) refl))
        (begin_step solo_turn [] boot (Memᴰ.head refl) refl))
      (finish_step solo_begun (Outcome.raised "AssertionError" "no" false) no_evidence boot
        (Memᴰ.head refl) refl (λ k. cc) refl)

solo-IsSorted : IsSorted [] (boot ∷ [])
solo-IsSorted = ((λ a k. cc), tt)

schedule_complete_example :
    unfinished (state_of (turn plain solo_ended).session.state "boot") ≡ false
unfolding program
schedule_complete_example =
    schedule_complete plain solo (fresh-ne-running (boot ∷ [])) solo-IsSorted solo-Reach refl refl
      refl boot (Memᴰ.head refl)

-- A drive with a breakpoint before its only phase.
abbrev held : Options
held = record plain { controlled = true; breaks = "boot" ∷ [] }

-- A client runs that phase by hand.
abbrev hand_run : Schedule
hand_run = hand_begin [] boot (turn held (entry solo))

hand_run-Reach : Reach held (entry solo) hand_run
unfolding program
hand_run-Reach =
    next (next here (turn_step (entry solo) refl))
      (hand_begin_step (turn held (entry solo)) [] boot refl (Memᴰ.head refl))

hand_run-state : lookup "boot" hand_run.session.state ≡ some PhaseState.running
unfolding program
hand_run-state = refl

schedule_pause_quiet_example :
    (hand_run.running ≡ [])
    × ((n : String)
        → lookup n hand_run.session.state ≡ some PhaseState.running
        → elem n hand_run.hands ≡ true)
unfolding program
schedule_pause_quiet_example =
    schedule_pause_quiet held solo (fresh-ne-running (boot ∷ [])) hand_run-Reach refl
