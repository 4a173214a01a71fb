-- ===== src/Lib.antt =====
-- Verification of the runner of user-mode-nixos.
--
-- A run boots the guests of a spec and drives its phases. `phases` decides which phases may run
-- and which a failure takes with it, `Session` runs one phase and records what it did, and
-- `_schedule` starts phases as soon as they may start. What happens is a stream of events, with
-- the journals of the guests and the JUnit files they write among them.
--
-- - Spec: pkgs/uml/uml/spec.py. Phases and Phases/*: pkgs/uml/uml/phases.py.
-- - Events, Events/Render and Events/Junit: pkgs/uml/uml/events.py, with the JUnit document.
-- - Journal and Journal/Lines: pkgs/uml/uml/journal.py, the entries and the file that is read while
--   it grows.
-- - JunitIn: pkgs/uml/uml/junit_in.py.
-- - Session: the object of pkgs/uml/uml/session.py, a record that each method takes and gives
--   back. Session/Cases has the evidence of a phase, Session/Run has `Session.run`, in the part
--   up to the script (`begin`) and the part after it (`conclude`), and `write_output`.
-- - Cli/Schedule: `_schedule` of pkgs/uml/uml/cli.py with `Controller.pause` and
--   `Controller._run` of pkgs/uml/uml/control.py: a relation of steps on the local variables.
-- - Forward and Forward/Specs: pkgs/uml-runner/uml_runner/forward.py, from the rules to the
--   arguments of the bridge. Forward/Coverage says what a port spec denotes.
-- - Monitor: pkgs/uml/uml/monitor.py, the watcher of a run.
-- - Cli/Drive: the selection, `_sequence` and the exit status of pkgs/uml/uml/cli.py.
-- - Sinks: pkgs/uml/uml/sinks.py, who is told of an event.
-- - Machine: pkgs/uml-runner/uml_runner/machine.py. Machine/Lifecycle has what a guest holds on the
--   host from `start` on, Machine/Shutdown how it is let go, and where an error leaves that;
--   Machine/Console its console; Machine/Commands the calls of its agent; Machine/Memory its memory,
--   with `memory_bytes` of backend.py.
-- - Mconsole and Qmp: mconsole.py and qmp.py beside it, the two ways to a guest's balloon.
-- - Report: report.py beside it, where the time of a run went; Report/Covered says what time a list
--   of steps covers.
-- - Arpyc: arpyc.py beside it, the connection to a guest's agent, as frames on a stream of bytes, as
--   boxed objects, and as an endpoint that makes and serves calls, with the states it reaches.
-- - Lan: net.py beside it, a segment between guests. Harness: harness.py beside it, the machines of a
--   test and the end of its process.
-- - Control: pkgs/uml/uml/control.py, the requests of clients and when a paused run goes on.
-- - Eval: pkgs/uml-eval/uml_eval. Eval/Argv has the command line that server.py writes and cli.py
--   reads, Eval/Channel and Eval/Watch what is pushed of a run and to whom, Eval/Select the query
--   over its events, Eval/Exit what is shown of a run without a verdict.
-- - Prelude: shared names, tests, lists, dictionaries and texts. Tests: samples, and the results
--   at concrete inputs.
--
-- What the code is told from outside is an argument: how a script ended, what a guest answered,
-- which lines a journal held and as what they parse, which JUnit files there are, whether a port
-- can be bound, what `json.loads`, `argparse`, `str.upper`, `str.strip` and `str.splitlines` give,
-- whether a process ends in time. Durations are whole milliseconds; the instants of events are left
-- out. Texts that are cut or read character by character are lists of code points. Sets of names are
-- lists without an order, dictionaries association lists in the order of insertion. The names of the phases are
-- those of an attribute set, so they are different from each other.
--
-- A phase that a client runs by hand begins and ends in steps of its own, at any time after a pause let
-- the client in, beside the phases of the schedule. `dependents` runs for one round more than there
-- are phases: each round but the last adds a phase.
--
-- A wait with a deadline runs on a number of rounds: each takes at least the time it sleeps, so
-- the timeout over that time, and two, are enough.
--
-- What stops a run, and what ends a whole server with an error, is left out of the step relations: a
-- cancelled drive, a client of the control socket that goes away before its reply, a signal while the
-- guests of a test boot or go down.
--
-- Not modelled: boot and teardown of a session, processes and sockets, the capture of output, what
-- the code typed into a paused run does to the guests, the backends and containers but for the size
-- of a memory, the cluster, the agent in the guest, the evaluation by Nix, and the Nix code.
pub mod Prelude
pub mod Spec
pub mod Phases
pub mod Events
pub mod Journal
pub mod JunitIn
pub mod Session
pub mod Cli
pub mod Arpyc
pub mod Control
pub mod Eval
pub mod Forward
pub mod Harness
pub mod Lan
pub mod Machine
pub mod Mconsole
pub mod Monitor
pub mod Qmp
pub mod Report
pub mod Sinks
pub mod Tests
