-- ===== src/Machine/Shutdown.antt =====
-- `Machine.shutdown` and `_reap` of pkgs/uml-runner/uml_runner/machine.py: what is done to a guest and
-- what it holds on the host, to the end or up to an error.
use user_mode_nixos.Prelude.{
  Bool, true, false, ◌&&◌, Option, none, some, List, [], ◌∷◌, ◌++◌, if◌then◌else◌, String, map,
}
use user_mode_nixos.Machine.Lifecycle.{Process, Connection, Helper, Signal, Action, Machine}

-- `_reap`, given whether the process ends within the grace of each signal.
unfoldable pub reap : Bool → Bool → Process → Process × List Action
reap ends_on_term ends_on_kill Process.absent = (Process.absent, [])
reap ends_on_term ends_on_kill (Process.dead n) = (Process.dead n, [])
reap ends_on_term ends_on_kill (Process.killed_by n) = (Process.killed_by n, [])
reap ends_on_term ends_on_kill (Process.live pid) =
    if ends_on_term
    then (Process.killed_by 15, Action.signal_group Signal.sigterm pid ∷ [])
    else if ends_on_kill
    then (
      Process.killed_by 9,
      Action.signal_group Signal.sigterm pid ∷ Action.signal_group Signal.sigkill pid ∷ [],
    )
    else (
      Process.live pid,
      Action.signal_group Signal.sigterm pid
          ∷ Action.signal_group Signal.sigkill pid
          ∷ Action.log "process would not die"
          ∷ [],
    )

-- `helper.poll() is None`
unfoldable pub kill_helpers : List Helper → List Action
kill_helpers [] = []
kill_helpers (h ∷ hs) =
    let rest = kill_helpers hs in if h.running then Action.kill_helper h.pid ∷ rest else rest

abbrev pub is_open : Connection → Bool
is_open Connection.open_connection = true
is_open _ = false

-- The agent is asked to power off, and the connection closed, only where the guest is alive.
abbrev pub say_goodbye : Bool → Connection → Connection × List Action
say_goodbye alive c =
    if is_open c && alive
    then (Connection.no_connection, Action.power_off ∷ Action.close_connection ∷ [])
    else (c, [])

abbrev pub one_if : Bool → Action → List Action
one_if b a = if b then a ∷ [] else []

abbrev pub removed : Option String → List Action
removed none = []
removed (some d) = Action.remove_tree d ∷ []

-- Where an error that is not caught leaves `shutdown`: in the call of the agent, in the wait for the
-- process that got SIGTERM, in the wait for the cancelled monitor, or in closing the memory control.
pub data Stage : Type 0 where
  goodbye reaping monitoring closing : Stage

abbrev runs : Process → Bool
runs (Process.live _) = true
runs _ = false

abbrev stage_if : Bool → Stage → Option Stage
stage_if b stage = if b then some stage else none

-- The process once the guest was asked to power off.
abbrev pub left_by : Bool → (Process → Process) → Machine → Process
left_by alive after_power_off m =
    if is_open m.connection && alive then after_power_off m.process else m.process

-- Whether the call in which an error waits is made.
unfoldable pub raising : Option Stage → Bool → Process → Machine → Option Stage
raising none alive left m = none
raising (some Stage.goodbye) alive left m = stage_if (is_open m.connection && alive) Stage.goodbye
raising (some Stage.reaping) alive left m = stage_if (runs left) Stage.reaping
raising (some Stage.monitoring) alive left m = stage_if m.monitor Stage.monitoring
raising (some Stage.closing) alive left m = stage_if m.memory Stage.closing

abbrev pub terminated : Process → List Action
terminated (Process.live pid) = Action.signal_group Signal.sigterm pid ∷ []
terminated _ = []

-- `shutdown` up to the error.
unfoldable pub halted : Stage → Bool → Process → Bool → Bool → Machine → Machine × List Action
unfolding reap kill_helpers
halted Stage.goodbye alive left ends_on_term ends_on_kill m = (m, Action.power_off ∷ [])
halted Stage.reaping alive left ends_on_term ends_on_kill m = (
  record m {
    process = left;
    connection = (say_goodbye alive m.connection).0;
    agent_sock = false;
    guest_sock = false;
  },
  (say_goodbye alive m.connection).1 ++ terminated left,
)
halted Stage.monitoring alive left ends_on_term ends_on_kill m = (
  record m {
    process = (reap ends_on_term ends_on_kill left).0;
    connection = (say_goodbye alive m.connection).0;
    agent_sock = false;
    guest_sock = false;
    helpers = [];
  },
  (say_goodbye alive m.connection).1
      ++ ((reap ends_on_term ends_on_kill left).1
          ++ (kill_helpers m.helpers ++ (Action.cancel_monitor ∷ []))),
)
halted Stage.closing alive left ends_on_term ends_on_kill m = (
  record m {
    process = (reap ends_on_term ends_on_kill left).0;
    connection = (say_goodbye alive m.connection).0;
    agent_sock = false;
    guest_sock = false;
    helpers = [];
    monitor = false;
    memory = false;
  },
  (say_goodbye alive m.connection).1
      ++ ((reap ends_on_term ends_on_kill left).1
          ++ (kill_helpers m.helpers
              ++ (one_if m.monitor Action.cancel_monitor ++ (Action.close_memory ∷ [])))),
)

-- `Machine.shutdown`, where nothing is raised that it does not catch.
unfoldable pub shut_down : Bool → Process → Bool → Bool → Machine → Machine × List Action
unfolding reap kill_helpers
shut_down alive left ends_on_term ends_on_kill m =
    let bye = say_goodbye alive m.connection in
    let gone = reap ends_on_term ends_on_kill left in
    (
      record {
        process = gone.0;
        connection = bye.0;
        agent_sock = false;
        guest_sock = false;
        helpers = [];
        spare_fds = m.spare_fds;
        monitor = false;
        memory = false;
        cleanup = [];
        rundir = none;
      },
      bye.1
          ++ (gone.1
              ++ (kill_helpers m.helpers
                  ++ (one_if m.monitor Action.cancel_monitor
                      ++ (one_if m.memory Action.close_memory
                          ++ (map Action.remove_tree m.cleanup ++ removed m.rundir))))),
    )

-- `Machine.shutdown`, given where an error waits, whether the guest is alive, what becomes of the
-- process while the guest powers off, and whether it ends on each signal.
unfoldable pub shutdown :
    Option Stage → Bool → (Process → Process) → Bool → Bool → Machine → Machine × List Action
unfolding raising halted shut_down
shutdown fault alive after_power_off ends_on_term ends_on_kill m =
    let left = left_by alive after_power_off m in
    elim (raising fault alive left m) [
      | none ↦ shut_down alive left ends_on_term ends_on_kill m
      | some stage ↦ halted stage alive left ends_on_term ends_on_kill m
    ]
