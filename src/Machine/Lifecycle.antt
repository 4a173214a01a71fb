-- ===== src/Machine/Lifecycle.antt =====
-- `Machine.start` and `crash`: what a guest holds on the host, and what is done to it. Whether the
-- backend launches, the guest comes up, and a process is seen alive are arguments.
pub mod Released
pub mod Halted
use user_mode_nixos.Prelude.{
  ℕ, zero, suc, String, Bool, true, false, not, ◌&&◌, Option, none, some, List, [], ◌∷◌, ◌++◌,
  if◌then◌else◌, map,
}

-- The spawned process: not there, running, or ended with its return code, negative for a signal.
pub data Process : Type 0 where
  absent : Process
  live : ℕ → Process
  dead : ℕ → Process
  killed_by : ℕ → Process

-- The connection to the agent.
pub data Connection : Type 0 where
  no_connection open_connection closed_connection : Connection

-- A helper process, such as virtiofsd or passt, and whether it runs.
pub record Helper : Type 0 where
  pub pid : ℕ
  pub running : Bool

pub data Signal : Type 0 where
  sigterm sigkill : Signal

pub data Action : Type 0 where
  power_off close_connection : Action
  signal_group : Signal → ℕ → Action
  signal_process : Signal → ℕ → Action
  kill_helper : ℕ → Action
  cancel_monitor close_memory : Action
  remove_tree : String → Action
  log : String → Action

-- What a `Machine` holds on the host: `_process`, `_conn`, `_agent_sock`, `_guest_sock`,
-- `_helpers`, `_spare_fds`, `_monitor`, `_memory`, `_cleanup` and `_rundir`.
pub record Machine : Type 0 where
  pub process : Process
  pub connection : Connection
  pub agent_sock : Bool
  pub guest_sock : Bool
  pub helpers : List Helper
  pub spare_fds : List ℕ
  pub monitor : Bool
  pub memory : Bool
  pub cleanup : List String
  pub rundir : Option String

-- `__init__`
abbrev pub new_machine : Machine
new_machine = record {
  process = Process.absent;
  connection = Connection.no_connection;
  agent_sock = false;
  guest_sock = false;
  helpers = [];
  spare_fds = [];
  monitor = false;
  memory = false;
  cleanup = [];
  rundir = none;
}

-- What the backend's `launch` returns, as far as the machine keeps it.
pub record Launch : Type 0 where
  pub helpers : List Helper
  pub cleanup : List String
  pub memory : Bool
  pub spare_fds : List ℕ

-- How `start` ends.
pub data Started : Type 0 where
  started already : Started
  backend_error not_up : Started

-- The machine once the backend has launched and the process is spawned.
abbrev spawned : String → ℕ → Launch → Machine → Machine
spawned rundir pid launch m = record {
  process = Process.live pid;
  connection = m.connection;
  agent_sock = true;
  guest_sock = true;
  helpers = launch.helpers;
  spare_fds = [];
  monitor = true;
  memory = launch.memory;
  cleanup = launch.cleanup;
  rundir = some rundir;
}

-- `Machine.start`, given the run directory made, the backend's launch or none for its error, the
-- pid, and whether the agent's line comes within the boot timeout.
unfoldable pub start : String → Option Launch → ℕ → Bool → Machine → Machine × Started
start rundir launched pid up m = elim m.process [
  | Process.absent ↦ elim launched [
    | none ↦ (
      record {
        process = Process.absent;
        connection = m.connection;
        agent_sock = true;
        guest_sock = true;
        helpers = m.helpers;
        spare_fds = m.spare_fds;
        monitor = m.monitor;
        memory = m.memory;
        cleanup = m.cleanup;
        rundir = some rundir;
      },
      Started.backend_error,
    )
    | some launch ↦
        if up
        then (
          record {
            process = Process.live pid;
            connection = Connection.open_connection;
            agent_sock = false;
            guest_sock = false;
            helpers = launch.helpers;
            spare_fds = [];
            monitor = true;
            memory = launch.memory;
            cleanup = launch.cleanup;
            rundir = some rundir;
          },
          Started.started,
        )
        else (spawned rundir pid launch m, Started.not_up)
  ]
  | _ ↦ (m, Started.already)
]

-- How `crash` ends.
pub data Crashed : Type 0 where
  crashed not_started survived : Crashed

-- The polls of `crash`: the guest is looked at so often.
unfoldable pub poll_dead : ℕ → (ℕ → Bool) → Crashed
poll_dead zero alive = Crashed.survived
poll_dead (suc n) alive =
    let later = poll_dead n (λ k. alive (suc k)) in if alive 0 then later else Crashed.crashed

abbrev signalled : Option ℕ → List Action
signalled none = []
signalled (some pid) = Action.signal_process Signal.sigkill pid ∷ []

-- `Machine.crash`, given the guest's own pid, and whether the guest is alive at each poll.
unfoldable pub crash : Option ℕ → (ℕ → Bool) → Machine → Machine × (List Action × Crashed)
unfolding poll_dead
crash guest alive m = elim m.process [
  | Process.absent ↦ (m, ([], Crashed.not_started))
  | Process.live pid ↦ (
    record {
      process = Process.killed_by 9;
      connection = m.connection;
      agent_sock = m.agent_sock;
      guest_sock = m.guest_sock;
      helpers = m.helpers;
      spare_fds = m.spare_fds;
      monitor = m.monitor;
      memory = m.memory;
      cleanup = m.cleanup;
      rundir = m.rundir;
    },
    (Action.signal_group Signal.sigkill pid ∷ signalled guest, poll_dead 50 alive),
  )
  | _ ↦ (m, (signalled guest, poll_dead 50 alive))
]
