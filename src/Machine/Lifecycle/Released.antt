-- ===== src/Machine/Lifecycle/Released.antt =====
-- What is left of a guest on the host.
use user_mode_nixos.Prelude.{ℕ, Bool, true, false, none, List, [], ◌≡◌, refl}
use user_mode_nixos.Machine.Lifecycle.{Process, Connection, Action, Machine}
use user_mode_nixos.Machine.Shutdown.{reap, kill_helpers, say_goodbye, raising, shut_down, shutdown}

-- Nothing runs: the process is not there, or has ended.
abbrev pub is_gone : Process → Bool
is_gone Process.absent = true
is_gone (Process.live _) = false
is_gone (Process.dead _) = true
is_gone (Process.killed_by _) = true

-- Everything but the process and the connection is let go.
pub record Released (m : Machine) : Type 0 where
  no_agent : m.agent_sock ≡ false
  no_guest : m.guest_sock ≡ false
  no_helpers : m.helpers ≡ []
  no_monitor : m.monitor ≡ false
  no_memory : m.memory ≡ false
  no_cleanup : m.cleanup ≡ []
  no_rundir : m.rundir ≡ none

reap_again : (term kill : Bool) (p : Process) → is_gone p ≡ true → reap term kill p ≡ (p, [])
unfolding reap
reap_again term kill Process.absent h = refl
reap_again term kill (Process.live pid) h = cc
reap_again term kill (Process.dead n) h = refl
reap_again term kill (Process.killed_by n) h = refl

-- The parts of what `shutdown` does, from the goodbye to the run directory.
abbrev pub said : Bool → Machine → List Action
said alive m = (say_goodbye alive m.connection).1

shutdown_idle :
    (term kill : Bool) (after : Process → Process) (p : Process) (c : Connection) (fds : List ℕ)
    → is_gone p ≡ true
    → let m : Machine = record {
      process = p;
      connection = c;
      agent_sock = false;
      guest_sock = false;
      helpers = [];
      spare_fds = fds;
      monitor = false;
      memory = false;
      cleanup = [];
      rundir = none;
    } in
      shutdown none false after term kill m ≡ (m, [])
unfolding shutdown raising shut_down kill_helpers
shutdown_idle term kill after p Connection.no_connection fds h = rw (reap_again term kill p h) refl
shutdown_idle term kill after p Connection.open_connection fds h =
    rw (reap_again term kill p h) refl
shutdown_idle term kill after p Connection.closed_connection fds h =
    rw (reap_again term kill p h) refl

-- Once the process has ended and the guest is dead, `shutdown` a second time does nothing.
pub shutdown_again :
    (alive term kill again : Bool) (after after_again : Process → Process) (m : Machine)
    → is_gone (shutdown none alive after term kill m).0.process ≡ true
    → shutdown none false after_again again kill (shutdown none alive after term kill m).0
      ≡ ((shutdown none alive after term kill m).0, [])
unfolding shutdown raising shut_down
shutdown_again alive term kill again after after_again m h =
    shutdown_idle again kill after_again _ _ _ h
