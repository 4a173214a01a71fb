-- ===== src/Phases/State.antt =====
-- `PhaseState` of pkgs/uml/uml/phases.py, and the sets of states that the code tests for.
use user_mode_nixos.Prelude.{String, Bool, true, false, List, [], ◌∷◌}

pub data PhaseState : Type 0 where
  pending running passed failed skipped interrupted deselected : PhaseState

-- `value is PhaseState.PENDING`
abbrev pub is_pending : PhaseState → Bool
is_pending PhaseState.pending = true
is_pending _ = false

-- `value in UNFINISHED`
abbrev pub unfinished : PhaseState → Bool
unfinished PhaseState.pending = true
unfinished PhaseState.running = true
unfinished _ = false

-- `value in (PhaseState.PASSED, PhaseState.DESELECTED)`
abbrev pub good : PhaseState → Bool
good PhaseState.passed = true
good PhaseState.deselected = true
good _ = false

abbrev pub same_state : PhaseState → PhaseState → Bool
same_state PhaseState.pending PhaseState.pending = true
same_state PhaseState.running PhaseState.running = true
same_state PhaseState.passed PhaseState.passed = true
same_state PhaseState.failed PhaseState.failed = true
same_state PhaseState.skipped PhaseState.skipped = true
same_state PhaseState.interrupted PhaseState.interrupted = true
same_state PhaseState.deselected PhaseState.deselected = true
same_state _ _ = false

-- The members of the enumeration, in order.
abbrev pub every_state : List PhaseState
every_state =
    PhaseState.pending ∷ PhaseState.running ∷ PhaseState.passed ∷ PhaseState.failed
    ∷ PhaseState.skipped ∷ PhaseState.interrupted ∷ PhaseState.deselected ∷ []

-- The value of a member, as it is written out.
abbrev pub word : PhaseState → String
word PhaseState.pending = "pending"
word PhaseState.running = "running"
word PhaseState.passed = "passed"
word PhaseState.failed = "failed"
word PhaseState.skipped = "skipped"
word PhaseState.interrupted = "interrupted"
word PhaseState.deselected = "deselected"
