-- ===== src/Cli/Drive.antt =====
-- `terminal_level`, the selection in `run`, `_sequence` and the end of `_schedule`, of
-- pkgs/uml/uml/cli.py. Reading the arguments and the spec, and opening the sinks, is left out.
pub mod Verdicts
use user_mode_nixos.Prelude.{
  ℕ, String, Bool, true, false, not, Option, none, some, List, [], ◌∷◌, map, ◌==◌, if◌then◌else◌,
  leb, nat_eq, filter, elem, concat, join, Dict,
}
use user_mode_nixos.Spec.{PhaseSpec}
use user_mode_nixos.Phases.{PhaseState, is_pending, is_empty, passed, summarise, word}
use user_mode_nixos.Events.{Event, Kind, Level, Value}
use user_mode_nixos.Session.{Session, Reads, emit, about, drain}
use user_mode_nixos.Session.Cases.{replay}
use user_mode_nixos.Session.Run.{set_state, write_output, Written}

-- `terminal_level`, of `--quiet` and the number of `-v`.
unfoldable pub terminal_level : Bool → ℕ → Level
terminal_level true verbose = Level.error
terminal_level false verbose =
    if leb 2 verbose then Level.console else if nat_eq verbose 1 then Level.detail else Level.info

abbrev pub phase_names : List PhaseSpec → List String
phase_names = map (λ p. p.name)

-- The phases of `--only` that the spec has not; the set is sorted only for the message.
unfoldable pub missing : List String → List PhaseSpec → List String
missing asked phases = filter (λ n. not (elem n (phase_names phases))) asked

-- One round of the loop over the phases in `run`.
unfoldable pub deselect_one : List String → PhaseSpec → Session → Session
unfolding set_state emit concat
deselect_one only p s =
    let deselected =
      emit
        (about Kind.phase_finished Level.detail (concat (p.name ∷ " deselected" ∷ [])) p.name none
          (("state", Value.text (word PhaseState.deselected)) ∷ []))
        (set_state p.name PhaseState.deselected s) in
    if elem p.name only then s else deselected

unfoldable pub deselect : List String → List PhaseSpec → Session → Session
unfolding deselect_one
deselect only [] s = s
deselect only (p ∷ ps) s = deselect only ps (deselect_one only p s)

-- The selection of `run`: the session, or the names that raise `SessionError`.
pub data Selected : Type 0 where
  selected : Session → Selected
  no_such : List String → Selected

unfoldable pub select : List String → List String → Session → Selected
unfolding missing deselect
select only breaks s =
    let chosen = if is_empty only then s else deselect only s.phases s in
    if not (is_empty (missing only s.phases))
    then Selected.no_such (missing only s.phases)
    else if not (is_empty (missing breaks s.phases))
    then Selected.no_such (missing breaks s.phases)
    else Selected.selected chosen

-- The loop behind the task group of `_schedule`.
never_ran : Dict PhaseState → Session → Session
unfolding emit concat
never_ran [] s = s
never_ran ((name, state) ∷ rest) s =
    let told =
      emit
        (about Kind.error Level.error
          (concat (name ∷ " never ran: something in its `after` never finished" ∷ [])) name none [])
        s in
    never_ran rest (if is_pending state then told else s)

unfoldable pub report_never_ran : Session → Session
unfolding never_ran
report_never_ran s = never_ran s.state s

abbrev no_phase_event : Kind → Level → String → Event
no_phase_event kind level text = record {
  kind = kind;
  level = level;
  text = text;
  machine = none;
  phase = none;
  seconds = none;
  fields = [];
}

-- The `finally` of `_sequence`, up to the teardown.
unfoldable pub finish_sequence : Reads → Session → Written × Session
unfolding drain write_output
finish_sequence reads s = write_output (drain reads s)

-- What `_sequence` says where `boot` raises `MachineError`.
unfoldable pub say_no_guests : String → List (String × List String) → Session → Session
unfolding emit replay concat
say_no_guests error histories s =
    replay 20 none histories
      (emit (no_phase_event Kind.error Level.error (concat ("no guests: " ∷ error ∷ []))) s)

-- `_sequence` where `boot` raises `MachineError`.
unfoldable pub boot_failed :
    String → List (String × List String) → Reads → Session → Written × Session
unfolding finish_sequence say_no_guests
boot_failed error histories reads s = finish_sequence reads (say_no_guests error histories s)

-- The end of `run`: the lines of the timings, the summary, and the exit status.
note_lines : List String → Session → Session
unfolding emit
note_lines [] s = s
note_lines (l ∷ ls) s = note_lines ls (emit (no_phase_event Kind.note Level.info l) s)

unfoldable pub end_run : List String → Session → ℕ × Session
unfolding note_lines emit summarise
end_run lines s =
    let told =
      emit (no_phase_event Kind.note Level.info (summarise s.state)) (note_lines lines s) in
    (if passed s.state then 0 else 1, told)
