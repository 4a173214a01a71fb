-- ===== src/Machine/Lifecycle/Halted.antt =====
-- What a `shutdown` does not do: where an error leaves it, and to a guest that is dead.
use user_mode_nixos.Prelude.{
  String, Bool, true, false, ◌&&◌, Option, none, some, List, [], ◌∷◌, ◌++◌, if◌then◌else◌, map, any,
  any-append, ◌≡◌, refl, ◌∙◌, arith,
}
use user_mode_nixos.Machine.Lifecycle.{Process, Connection, Helper, Action, Machine}
use user_mode_nixos.Machine.Shutdown.{
  reap, kill_helpers, is_open, say_goodbye, one_if, removed, Stage, left_by, raising, terminated,
  halted, shut_down, shutdown,
}
use user_mode_nixos.Machine.Lifecycle.Released.{said}

abbrev pub is_removal : Action → Bool
is_removal (Action.remove_tree _) = true
is_removal _ = false

any-terminated : (p : Process) → any is_removal (terminated p) ≡ false
any-terminated Process.absent = refl
any-terminated (Process.live pid) = refl
any-terminated (Process.dead n) = refl
any-terminated (Process.killed_by n) = refl

removal-reap : (term kill : Bool) (p : Process) → any is_removal (reap term kill p).1 ≡ false
unfolding reap
removal-reap term kill Process.absent = refl
removal-reap term kill (Process.dead n) = refl
removal-reap term kill (Process.killed_by n) = refl
removal-reap true kill (Process.live pid) = refl
removal-reap false true (Process.live pid) = refl
removal-reap false false (Process.live pid) = refl

removal-helpers : (hs : List Helper) → any is_removal (kill_helpers hs) ≡ false
unfolding kill_helpers
removal-helpers [] = refl
removal-helpers (h ∷ hs) = ground (arith, removal-helpers hs)

removal-said : (alive : Bool) (c : Connection) → any is_removal (say_goodbye alive c).1 ≡ false
removal-said alive Connection.no_connection = refl
removal-said true Connection.open_connection = refl
removal-said false Connection.open_connection = refl
removal-said alive Connection.closed_connection = refl

both-removal :
    (xs ys : List Action)
    → any is_removal xs ≡ false
    → any is_removal ys ≡ false
    → any is_removal (xs ++ ys) ≡ false
both-removal xs ys h k = any-append is_removal xs ys ∙ rw (h, k) refl

monitor-removal :
    (b : Bool) (a : Action)
    → is_removal a ≡ false
    → any is_removal (one_if b Action.cancel_monitor ++ (a ∷ [])) ≡ false
monitor-removal true a h = rw h refl
monitor-removal false a h = rw h refl

halted_keeps :
    (stage : Stage) (alive term kill : Bool) (left : Process) (m : Machine)
    → let r = halted stage alive left term kill m in
      (r.0.cleanup ≡ m.cleanup)
      × (r.0.rundir ≡ m.rundir)
      × (any is_removal r.1 ≡ false)
      × (stage ≡ Stage.goodbye → r ≡ (m, Action.power_off ∷ []))
unfolding halted
halted_keeps Stage.goodbye alive term kill left m = (refl, refl, refl, λ e. refl)
halted_keeps Stage.reaping alive term kill left m = (
  refl,
  refl,
  both-removal (said alive m) (terminated left) (removal-said alive m.connection)
      (any-terminated left),
  λ e. cc,
)
halted_keeps Stage.monitoring alive term kill left m = (
  refl,
  refl,
  both-removal (said alive m) _ (removal-said alive m.connection) (
      both-removal (reap term kill left).1 _ (removal-reap term kill left)
        (both-removal (kill_helpers m.helpers) _ (removal-helpers m.helpers) refl)),
  λ e. cc,
)
halted_keeps Stage.closing alive term kill left m = (
  refl,
  refl,
  both-removal (said alive m) _ (removal-said alive m.connection) (
      both-removal (reap term kill left).1 _ (removal-reap term kill left) (
        both-removal (kill_helpers m.helpers) _ (removal-helpers m.helpers)
          (monitor-removal m.monitor Action.close_memory refl))),
  λ e. cc,
)

-- An error that `shutdown` does not catch, wherever it is raised, leaves every directory of the guest
-- behind; and one in the call of the agent leaves everything as it was, with no helper killed and
-- nothing else asked of the host.
pub shutdown_halted :
    (stage : Stage) (alive term kill : Bool) (after : Process → Process) (m : Machine)
    → raising (some stage) alive (left_by alive after m) m ≡ some stage
    → let r = shutdown (some stage) alive after term kill m in
      (r.0.cleanup ≡ m.cleanup)
      × (r.0.rundir ≡ m.rundir)
      × (any is_removal r.1 ≡ false)
      × (stage ≡ Stage.goodbye → r ≡ (m, Action.power_off ∷ []))
unfolding shutdown
shutdown_halted stage alive term kill after m h =
    rw (h, shutdown) (halted_keeps stage alive term kill (left_by alive after m) m)

abbrev pub is_power_off : Action → Bool
is_power_off Action.power_off = true
is_power_off _ = false

no_power_off-reap : (term kill : Bool) (p : Process) → any is_power_off (reap term kill p).1 ≡ false
unfolding reap
no_power_off-reap term kill Process.absent = refl
no_power_off-reap term kill (Process.dead n) = refl
no_power_off-reap term kill (Process.killed_by n) = refl
no_power_off-reap true kill (Process.live pid) = refl
no_power_off-reap false true (Process.live pid) = refl
no_power_off-reap false false (Process.live pid) = refl

no_power_off-helpers : (hs : List Helper) → any is_power_off (kill_helpers hs) ≡ false
unfolding kill_helpers
no_power_off-helpers [] = refl
no_power_off-helpers (h ∷ hs) = ground (arith, no_power_off-helpers hs)

no_power_off-trees :
    (ds : List String) (rundir : Option String)
    → any is_power_off (map Action.remove_tree ds ++ removed rundir) ≡ false
no_power_off-trees [] none = refl
no_power_off-trees [] (some d) = refl
no_power_off-trees (d ∷ ds) rundir = no_power_off-trees ds rundir

any-said :
    (alive : Bool) (c : Connection)
    → any is_power_off (say_goodbye alive c).1 ≡ (is_open c && alive)
any-said alive Connection.no_connection = refl
any-said true Connection.open_connection = refl
any-said false Connection.open_connection = refl
any-said alive Connection.closed_connection = refl

-- `shutdown` asks the agent to power the guest off exactly where the connection is open and the
-- guest is alive: a dead guest's agent would not answer.
pub power_off_iff :
    (alive term kill : Bool) (after : Process → Process) (m : Machine)
    → any is_power_off (shutdown none alive after term kill m).1 ≡ (is_open m.connection && alive)
unfolding shutdown raising shut_down
power_off_iff alive term kill after m =
    let left = if is_open m.connection && alive then after m.process else m.process in
    let q = is_power_off in
    let trees = map Action.remove_tree m.cleanup ++ removed m.rundir in
    let memory = one_if m.memory Action.close_memory ++ trees in
    let monitor = one_if m.monitor Action.cancel_monitor ++ memory in
    ground (
      arith,
      any-append q (said alive m) ((reap term kill left).1 ++ (kill_helpers m.helpers ++ monitor)),
      any-said alive m.connection,
      any-append q (reap term kill left).1 (kill_helpers m.helpers ++ monitor),
      no_power_off-reap term kill left,
      any-append q (kill_helpers m.helpers) monitor,
      no_power_off-helpers m.helpers,
      any-append q (one_if m.monitor Action.cancel_monitor) memory,
      any-append q (one_if m.memory Action.close_memory) trees,
      no_power_off-trees m.cleanup m.rundir,
    )
