-- ===== src/Harness.antt =====
-- pkgs/uml-runner/uml_runner/harness.py: a test's machines, from their boot to their end, and how the
-- test's process ends. How each guest boots and goes down, and what the test does, are arguments.
pub mod Ends
use user_mode_nixos.Prelude.{
  ℕ, zero, suc, String, ◌==◌, Bool, true, false, Option, none, some, List, [], ◌∷◌, if◌then◌else◌,
  Dict, lookup, map,
}
use user_mode_nixos.Machine.Lifecycle.{Process, Machine, Launch, Started, new_machine, start}
use user_mode_nixos.Machine.Shutdown.{Stage, shutdown}

-- How a guest boots, and what its end depends on: the arguments of `start` and `shutdown`.
pub record Guest : Type 0 where
  pub name : String
  pub rundir : String
  pub launch : Option Launch
  pub pid : ℕ
  pub up : Bool
  pub fault : Option Stage
  pub alive : Bool
  pub after_power_off : Process → Process
  pub ends_on_term : Bool
  pub ends_on_kill : Bool

-- `asyncio.gather` of the starts: every one ends, in a state and with or without an error.
unfoldable pub boot : List Guest → List (Guest × (Machine × Started))
boot [] = []
boot (g ∷ gs) = (g, start g.rundir g.launch g.pid g.up new_machine) ∷ boot gs

abbrev pub is_error : Started → Bool
is_error Started.started = false
is_error Started.already = false
is_error Started.backend_error = true
is_error Started.not_up = true

-- `for error in results: … raise error`
unfoldable pub first_error : List (Guest × (Machine × Started)) → Option String
first_error [] = none
first_error ((g, (m, s)) ∷ results) =
    let later = first_error results in if is_error s then some g.name else later

-- `asyncio.gather` of the shutdowns; what they raise is dropped.
unfoldable pub shut : List (Guest × (Machine × Started)) → List Machine
shut [] = []
shut ((g, (m, s)) ∷ results) =
    (shutdown g.fault g.alive g.after_power_off g.ends_on_term g.ends_on_kill m).0 ∷ shut results

-- How a test ends: it returns, raises an error of a machine or of a forward, is cancelled by a
-- signal, raises `SystemExit` with a code, or raises something else.
pub data Tested : Type 0 where
  returned machine_failed cancelled raised : Tested
  exits : ℕ → Tested

-- How a test's process ends: with an exit code, or with the error that it raises.
pub data Exit : Type 0 where
  exit : ℕ → Exit
  unwound : Exit

-- What `run_test` leaves: the machines, whether the test ran, what the report was told, and the end.
pub record Outcome : Type 0 where
  pub machines : List Machine
  pub ran : Bool
  pub recorded : List Bool
  pub end : Exit

-- The `try` of `run_test`.
abbrev pub exit_of : Tested → List Bool × Exit
exit_of Tested.returned = (true ∷ [], Exit.exit 0)
exit_of Tested.machine_failed = (false ∷ [], Exit.exit 1)
exit_of Tested.cancelled = (false ∷ [], Exit.exit 130)
exit_of Tested.raised = (false ∷ [], Exit.unwound)
exit_of (Tested.exits n) = (false ∷ [], Exit.exit n)

-- What is left where a guest did not boot, and where all did and the test ran.
abbrev pub finish : Option String → List Machine → Tested → Outcome
finish (some _) machines tested = record {
  machines = machines;
  ran = false;
  recorded = (exit_of Tested.machine_failed).0;
  end = (exit_of Tested.machine_failed).1;
}
finish none machines tested = record {
  machines = machines;
  ran = true;
  recorded = (exit_of tested).0;
  end = (exit_of tested).1;
}

-- `machines` around the test, and `run_test`, where no signal comes while the guests boot or go down.
unfoldable pub run_test : List Guest → Tested → Outcome
unfolding boot first_error shut
run_test guests tested =
    let booted = boot guests in finish (first_error booted) (shut booted) tested

-- `Machines.__getattr__`; none where it raises.
unfoldable pub machine_of : String → Dict Machine → Option Machine
unfolding lookup
machine_of name vms = lookup name vms
