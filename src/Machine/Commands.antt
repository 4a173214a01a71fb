-- ===== src/Machine/Commands.antt =====
-- `Machine._ask`, `execute`, `succeed`, `fail` and `wait_for_unit`: calls of the guest's agent. What
-- the agent answers, and how long it takes, in milliseconds, are arguments.
pub mod Answered
pub mod Waits
use user_mode_nixos.Prelude.{
  Chars, ℕ, zero, suc, ◌+◌, String, ◌==◌, Bool, true, false, Option, none, some, List, [], ◌∷◌,
  ◌++◌, if◌then◌else◌, ltb, nat_eq,
}
use user_mode_nixos.Report.{Report, step, waiting}

-- How a call of the agent ends: with a value, at its deadline, with the connection, or raising.
pub data Reply {ℓ} (A : Type ℓ) : Type ℓ where
  replied : A → Reply A
  timed_out end_of_file : Reply A
  raised : String → Reply A

-- `MachineError`, by what it says.
pub data MachineError : Type 0 where
  not_connected : MachineError
  stopped_answering : Chars → MachineError
  went_away : Chars → MachineError
  command_failed : Chars → MachineError
  unexpectedly_succeeded : Chars → MachineError
  unit_failed : String → MachineError
  unit_timed_out : String → MachineError

pub data Result {ℓ} (A : Type ℓ) : Type ℓ where
  ok : A → Result A
  machine_error : MachineError → Result A
  other_error : String → Result A

-- The recorder, and what `on_command` was told.
pub record Log : Type 0 where
  pub recorder : Report
  pub told : List (Chars × ℕ)

-- `try` and `except` of `_ask`.
unfoldable pub result_of {ℓ} : {A : Type ℓ} → Chars → Reply A → Result A
result_of what (Reply.replied a) = Result.ok a
result_of what Reply.timed_out = Result.machine_error (MachineError.stopped_answering what)
result_of what Reply.end_of_file = Result.machine_error (MachineError.went_away what)
result_of what (Reply.raised e) = Result.other_error e

-- `_ask`, ending so long after the report was started.
unfoldable pub ask {ℓ} : {A : Type ℓ} → String → Chars → ℕ → ℕ → Reply A → Log → Log × Result A
unfolding result_of
ask name what now took reply log = (
  record {
    recorder = step now name "rpc" what took log.recorder;
    told = log.told ++ ((what, took) ∷ []);
  },
  result_of what reply,
)

-- An exit code; a process that a signal ended has a negative one.
pub data Code : Type 0 where
  exit_code : ℕ → Code
  signal_code : ℕ → Code

abbrev pub is_zero : Code → Bool
is_zero (Code.exit_code n) = nat_eq n 0
is_zero (Code.signal_code n) = false

-- `timeout or self.command_timeout`
unfoldable pub timeout_or : ℕ → Option ℕ → ℕ
timeout_or command_timeout none = command_timeout
timeout_or command_timeout (some zero) = command_timeout
timeout_or command_timeout (some (suc n)) = suc n

-- `label or command`
unfoldable pub label_or : Chars → Option Chars → Chars
label_or command none = command
label_or command (some []) = command
label_or command (some (c ∷ cs)) = c ∷ cs

-- The guest's agent: what `exposed_run` answers to a command with a timeout, within a deadline.
abbrev pub Agent : Type 0
Agent = Chars → ℕ → ℕ → Reply (Code × String)

-- `Machine.execute`, over an agent that is connected or not. The environment that a command is given
-- is left out.
unfoldable pub execute :
    Option Agent
    → String
    → ℕ
    → Chars
    → Option ℕ
    → Option Chars
    → ℕ
    → ℕ
    → Log
    → Log × Result (Code × String)
unfolding ask timeout_or label_or
execute none name command_timeout command timeout label now took log =
    (log, Result.machine_error MachineError.not_connected)
execute (some agent) name command_timeout command timeout label now took log =
    let limit = timeout_or command_timeout timeout in
    ask name (label_or command label) now took (agent command limit (limit + 10000)) log

-- The tests of `succeed` and `fail`.
abbrev pub want_zero : Chars → Result (Code × String) → Result String
want_zero command (Result.ok (rc, out)) =
    if is_zero rc then Result.ok out else Result.machine_error (MachineError.command_failed command)
want_zero command (Result.machine_error e) = Result.machine_error e
want_zero command (Result.other_error e) = Result.other_error e

abbrev pub want_nonzero : Chars → Result (Code × String) → Result String
want_nonzero command (Result.ok (rc, out)) =
    if is_zero rc
    then Result.machine_error (MachineError.unexpectedly_succeeded command)
    else Result.ok out
want_nonzero command (Result.machine_error e) = Result.machine_error e
want_nonzero command (Result.other_error e) = Result.other_error e

-- `Machine.succeed` and `Machine.fail`
unfoldable pub succeed :
    Option Agent → String → ℕ → Chars → Option ℕ → ℕ → ℕ → Log → Log × Result String
unfolding execute
succeed agent name command_timeout command timeout now took log =
    let r = execute agent name command_timeout command timeout none now took log in
    (r.0, want_zero command r.1)

unfoldable pub fail :
    Option Agent → String → ℕ → Chars → Option ℕ → ℕ → ℕ → Log → Log × Result String
unfolding execute
fail agent name command_timeout command timeout now took log =
    let r = execute agent name command_timeout command timeout none now took log in
    (r.0, want_nonzero command r.1)

-- One round of `_wait_for_unit`: what `unit_state` answers, and how long that took.
pub record Poll : Type 0 where
  pub state : Reply String
  pub took : ℕ

-- How `_wait_for_unit` ends, or that it has not ended after the rounds given to it.
pub data UnitWait : Type 0 where
  active : UnitWait
  failed_unit : UnitWait
  timed_out_unit : String → UnitWait
  agent_failed : UnitWait
  out_of_rounds : UnitWait

-- `_wait_for_unit`: it asks, looks at the state and at the clock, and sleeps half a second.
unfoldable pub wait_for_unit : ℕ → (ℕ → Poll) → ℕ → ℕ → UnitWait
wait_for_unit zero polls now deadline = UnitWait.out_of_rounds
wait_for_unit (suc rounds) polls now deadline =
    let asked = now + (polls 0).took in
    let later = wait_for_unit rounds (λ k. polls (suc k)) (asked + 500) deadline in
    elim (polls 0).state [
      | Reply.replied s ↦
          if s == "active"
          then UnitWait.active
          else if s == "failed"
          then UnitWait.failed_unit
          else if ltb deadline asked
          then UnitWait.timed_out_unit s
          else later
      | _ ↦ UnitWait.agent_failed
    ]
