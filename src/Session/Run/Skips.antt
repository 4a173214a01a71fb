-- ===== src/Session/Run/Skips.antt =====
-- What the end of a phase does to the states of all phases: `Session.run` of
-- pkgs/uml/uml/session.py.
use user_mode_nixos.Prelude.{
  String, ◌≡◌, refl, sym, ◌∙◌, ap, ◌≢◌, ◌⊎◌, inl, inr, Bool, true, false, ◌&&◌, ◌==◌, Option, some,
  arith, eq_iff, if◌then◌else◌, Bool-cases, Option-cases, &&-eq-true, ne→eq-false, elem, lookup,
  lookup-insert,
}
use user_mode_nixos.Spec.{PhaseSpec}
use user_mode_nixos.Phases.{PhaseState, skipped_by}
use user_mode_nixos.Phases.Dependents.{Taken, dependents_exact}
use user_mode_nixos.Session.{Session, Reads, drain}
use user_mode_nixos.Session.Frame.{drain-IsQuiet}
use user_mode_nixos.Session.Run.{
  Outcome, Evidence, Ran, pending_at, begin, outcome_of, conclude_as, conclude, answer, run,
}
use user_mode_nixos.Session.Run.Parts.{
  lookup-conclude_failed, state-conclude_passed, state-conclude_cancelled, settle_phase-IsQuiet,
  begin_lem,
}

pending_at-eq : (o : Option PhaseState) → pending_at o ≡ true → o ≡ some PhaseState.pending
pending_at-eq o h = ground arith

-- Of the script or pytest raised an exception, and the settling was not cut short:
module _ (script : Outcome) (e : Evidence) (p : PhaseSpec) (s : Session) {kind text : String}
    {tests_failed : Bool} (raised : outcome_of script p s ≡ Outcome.raised kind text tests_failed)
    (whole : e.cut ≡ false) where
  lookup-conclude_raised :
      (m : String)
      → lookup m (conclude script e p s).state ≡ (
          if p.name == m
          then some PhaseState.failed
          else if elem m (skipped_by p.name s.phases) && pending_at (lookup m s.state)
          then some PhaseState.skipped
          else lookup m s.state)
  unfolding conclude conclude_as
  lookup-conclude_raised m =
      rw (raised, conclude_as, whole) (lookup-conclude_failed e kind text tests_failed p s m)

-- A phase whose script raises, with a settling that is not cut short, ends as failed. Of the other
-- phases exactly those that were pending and that a chain of `after` entries leads to from it are
-- skipped, and every other phase keeps its state.
pub conclude-skips :
    (script : Outcome) (e : Evidence) (p : PhaseSpec) (s : Session) {kind text : String}
    {tests_failed : Bool}
    → outcome_of script p s ≡ Outcome.raised kind text tests_failed
    → e.cut ≡ false
    → (lookup p.name (conclude script e p s).state ≡ some PhaseState.failed)
      × ((m : String)
          → m ≢ p.name
          → ((lookup m s.state ≡ some PhaseState.pending)
              × Taken s.phases p.name m
              × (lookup m (conclude script e p s).state ≡ some PhaseState.skipped))
            ⊎ ((lookup m s.state ≡ some PhaseState.pending → Taken s.phases p.name m → ⊥)
                × (lookup m (conclude script e p s).state ≡ lookup m s.state)))
conclude-skips script e p s raised whole = (
  ground (arith, lookup-conclude_raised script e p s raised whole p.name, eq_iff p.name p.name),
  λ m other.
      let apart : (p.name == m) ≡ false = ne→eq-false p.name m (λ e. other (sym e)) in
      let after = lookup-conclude_raised script e p s raised whole m in
      let (sound, full) = dependents_exact p.name s.phases m in
      elim (Bool-cases (elem m (skipped_by p.name s.phases) && pending_at (lookup m s.state))) [
        | inl hit ↦
            let (taken, pending) =
              &&-eq-true (elem m (skipped_by p.name s.phases)) (pending_at (lookup m s.state))
                hit in
            inl (pending_at-eq _ pending, (sound taken).1, after ∙ rw (apart, hit) refl)
        | inr miss ↦ inr (
          (λ pending taken.
              let k : elem m (skipped_by p.name s.phases) ≡ true = full (other, taken) in
              ground arith),
          after ∙ rw (apart, miss) refl,
        )
      ],
)

-- The states after `Session.run`, for an answer that it gives.
abbrev pub Recorded : PhaseSpec → Ran → Type 0
Recorded p (Ran.ended state s) =
    (lookup p.name s.state ≡ some state)
    × ((state ≡ PhaseState.passed) ⊎ (state ≡ PhaseState.failed))
Recorded p (Ran.stopped s) =
    (lookup p.name s.state ≡ some PhaseState.interrupted)
    ⊎ (lookup p.name s.state ≡ some PhaseState.running)
Recorded p Ran.not_booted = Unit {0}

answer-Recorded :
    (outcome : Outcome) (e : Evidence) (p : PhaseSpec) (s : Session)
    → lookup p.name s.state ≡ some PhaseState.running
    → Recorded p (answer outcome e (conclude_as outcome e p s))
unfolding answer conclude_as
answer-Recorded Outcome.cancelled e p s h = inl (
    ap (lookup p.name) (state-conclude_cancelled e p s)
    ∙ ground
        (arith, lookup-insert p.name p.name PhaseState.interrupted s.state, eq_iff p.name p.name))
answer-Recorded Outcome.returned e p s h = elim (Bool-cases e.cut) [
  | inl cut ↦ rw cut (inr (ap (lookup p.name) (settle_phase-IsQuiet e p s).state ∙ h))
  | inr whole ↦ rw whole (
    ap (lookup p.name) (state-conclude_passed e p s)
        ∙ ground
            (arith, lookup-insert p.name p.name PhaseState.passed s.state, eq_iff p.name p.name),
    inl refl,
  )
]
answer-Recorded (Outcome.raised kind text tests_failed) e p s h = elim (Bool-cases e.cut) [
  | inl cut ↦ rw cut (inr (ap (lookup p.name) (settle_phase-IsQuiet e p s).state ∙ h))
  | inr whole ↦ rw whole (
    ground
        (arith, lookup-conclude_failed e kind text tests_failed p s p.name, eq_iff p.name p.name),
    inr refl,
  )
]

begin-running :
    (reads : Reads) (p : PhaseSpec) (s : Session)
    → lookup p.name (begin reads p s).state ≡ some PhaseState.running
begin-running reads p s =
    ap (lookup p.name) (begin_lem reads p s).0
    ∙ ground (arith, lookup-insert p.name p.name PhaseState.running s.state, eq_iff p.name p.name)

-- The state that `run` gives back is the one that it recorded for the phase, and is a pass or a
-- failure. A run that is stopped once the phase is under way leaves it interrupted or, as if it still
-- ran, running; and one that is stopped before, in the first drain, leaves every phase as it was and
-- no guest held.
pub run-Recorded :
    (reads : Reads) (script : Outcome) (e : Evidence) (p : PhaseSpec) (s : Session)
    → Recorded p (run false reads script e p s)
      × ((t : Session)
          → run true reads script e p s ≡ Ran.stopped t
          → (t.state ≡ s.state) × (t.running ≡ s.running))
unfolding run conclude
run-Recorded reads script e p s = elim (Option-cases s.vms) [
  | inl absent ↦ (
    rw (absent, run) tt,
    λ t h. (let k : Ran.not_booted ≡ Ran.stopped t = rw (absent, run) at h in cc),
  )
  | inr (vms, present) ↦ (
    rw (present, run)
        (answer-Recorded (outcome_of script p (begin reads p s)) e p (begin reads p s)
          (begin-running reads p s)),
    λ t h.
        let k : Ran.stopped (drain reads s) ≡ Ran.stopped t = rw (present, run) at h in
        let same : drain reads s ≡ t = cc in
        let q = drain-IsQuiet reads s in rw (← same) (q.state, q.running),
  )
]

-- A cancellation that arrives while a phase settles, its script having come to its end, leaves the
-- phase as running and its guests held: the interruption is not recorded.
pub conclude_cut :
    (reads : Reads) (script : Outcome) (e : Evidence) (p : PhaseSpec) (s : Session)
    → outcome_of script p (begin reads p s) ≢ Outcome.cancelled
    → e.cut ≡ true
    → (lookup p.name (conclude script e p (begin reads p s)).state ≡ some PhaseState.running)
      × ((conclude script e p (begin reads p s)).running ≡ (begin reads p s).running)
unfolding conclude
conclude_cut reads script e p s other cut = go (outcome_of script p (begin reads p s)) other
  where
    go :
        (o : Outcome)
        → o ≢ Outcome.cancelled
        → (lookup p.name (conclude_as o e p (begin reads p s)).state ≡ some PhaseState.running)
          × ((conclude_as o e p (begin reads p s)).running ≡ (begin reads p s).running)
    go Outcome.cancelled h = absurd (h refl)
    go Outcome.returned h =
        let q = settle_phase-IsQuiet e p (begin reads p s) in
        unfold conclude_as in
        rw cut (ap (lookup p.name) q.state ∙ begin-running reads p s, q.running)
    go (Outcome.raised _ _ _) h =
        let q = settle_phase-IsQuiet e p (begin reads p s) in
        unfold conclude_as in
        rw cut (ap (lookup p.name) q.state ∙ begin-running reads p s, q.running)

-- The states after a phase that was neither cancelled nor cut short: its own is a pass or a failure,
-- and of the others some may have become skipped.
pub conclude_states :
    (script : Outcome) (e : Evidence) (p : PhaseSpec) (s : Session)
    → outcome_of script p s ≢ Outcome.cancelled
    → e.cut ≡ false
    → (n : String)
    → (lookup n (conclude script e p s).state
        ≡ (if p.name == n then some PhaseState.passed else lookup n s.state))
      ⊎ (lookup n (conclude script e p s).state ≡ (
          if p.name == n
          then some PhaseState.failed
          else if elem n (skipped_by p.name s.phases) && pending_at (lookup n s.state)
          then some PhaseState.skipped
          else lookup n s.state))
unfolding conclude
conclude_states script e p s other whole n = go (outcome_of script p s) other
  where
    go :
        (o : Outcome)
        → o ≢ Outcome.cancelled
        → (lookup n (conclude_as o e p s).state
            ≡ (if p.name == n then some PhaseState.passed else lookup n s.state))
          ⊎ (lookup n (conclude_as o e p s).state ≡ (
              if p.name == n
              then some PhaseState.failed
              else if elem n (skipped_by p.name s.phases) && pending_at (lookup n s.state)
              then some PhaseState.skipped
              else lookup n s.state))
    go Outcome.cancelled h = absurd (h refl)
    go Outcome.returned h = inl (
        unfold conclude_as in
        rw whole (
          ap (lookup n) (state-conclude_passed e p s)
          ∙ lookup-insert p.name n PhaseState.passed s.state))
    go (Outcome.raised kind text tests_failed) h =
        inr (unfold conclude_as in rw whole (lookup-conclude_failed e kind text tests_failed p s n))
