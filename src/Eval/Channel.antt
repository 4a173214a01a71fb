-- ===== src/Eval/Channel.antt =====
-- `channel_event` of pkgs/uml-eval/uml_eval/server.py: what of a run's events is pushed. `str.strip`
-- is a parameter.
use Prim.Native.String.{◌++◌ as ◌<>◌}
use user_mode_nixos.Prelude.{
  ℕ, String, ◌==◌, Bool, Option, none, some, [], ◌∷◌, ◌&&◌, if◌then◌else◌, Dict, map, join,
  round_to, show,
}

-- The fields of an event, and of its `data`, that are read; a missing text field with a default is
-- that default. The duration is in milliseconds.
pub record Event : Type 0 where
  pub kind : String
  pub phase : String
  pub seconds : ℕ
  pub reason : Option String
  pub state : String
  pub error : String
  pub passed : Bool
  pub states : Dict String

-- What is pushed: the content and the meta keys.
abbrev pub Pushed : Type 0
Pushed = String × Dict String

abbrev named : String × String → String
named (name, state) = name <> (" " <> state)

unfoldable pub paused_event : String → Option String → Option Pushed
paused_event run none = none
paused_event run (some reason) = some (
  "paused " <> (reason <> "; the guests are up until the run is resumed or stopped"),
  ("run", run) ∷ ("event", "paused") ∷ ("reason", reason) ∷ [],
)

unfoldable pub started_event : String → Event → Pushed
started_event run e = (
  "phase " <> (e.phase <> " started"),
  ("run", run) ∷ ("event", "progress") ∷ ("phase", e.phase) ∷ ("state", "started") ∷ [],
)

unfoldable pub passed_event : String → Event → Pushed
unfolding round_to show
passed_event run e = (
  "phase " <> (e.phase <> (" passed in " <> (show (round_to 1000 e.seconds) <> "s"))),
  ("run", run) ∷ ("event", "progress") ∷ ("phase", e.phase) ∷ ("state", "passed") ∷ [],
)

unfoldable pub failed_event : (String → String) → String → Event → Pushed
failed_event strip run e = (
  strip ("phase " <> (e.phase <> (" failed: " <> e.error))),
  ("run", run) ∷ ("event", "failed") ∷ ("phase", e.phase) ∷ [],
)

unfoldable pub finished_event : String → Event → Pushed
unfolding join
finished_event run e = (
  "run " <> ((if e.passed then "passed" else "failed") <> (": " <> join ", " (map named e.states))),
  ("run", run) ∷ ("event", "finished") ∷ ("passed", if e.passed then "true" else "false") ∷ [],
)

-- The tests of `channel_event` behind the one for a pause.
unfoldable pub other_event : (String → String) → Event → String → Option Pushed
unfolding started_event passed_event failed_event finished_event
other_event strip e run =
    if e.kind == "phase_started"
    then some (started_event run e)
    else if (e.kind == "phase_finished") && (e.state == "passed")
    then some (passed_event run e)
    else if (e.kind == "phase_finished") && (e.state == "failed")
    then some (failed_event strip run e)
    else if e.kind == "run_finished"
    then some (finished_event run e)
    else none

-- `channel_event`
unfoldable pub channel_event : (String → String) → Event → String → Option Pushed
unfolding paused_event other_event
channel_event strip e run =
    if e.kind == "note"
    then elim (paused_event run e.reason) [ some p ↦ some p | none ↦ other_event strip e run ]
    else other_event strip e run
