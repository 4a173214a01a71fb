-- ===== src/Session/Run/Parts.antt =====
-- The parts of `Session.run` (pkgs/uml/uml/session.py): what each does to the states and the guests.
use user_mode_nixos.Prelude.{
  String, ◌≡◌, refl, ap, ◌∙◌, inl, inr, Bool, true, false, ◌&&◌, ◌==◌, some, List, [], ◌∷◌, arith,
  eq_iff, if◌then◌else◌, Bool-cases, elem, lookup, insert, concat, lookup-insert,
}
use user_mode_nixos.Spec.{PhaseSpec}
use user_mode_nixos.Phases.{PhaseState, skipped_by}
use user_mode_nixos.Session.{Session, Reads, emit}
use user_mode_nixos.Session.Frame.{
  IsQuiet, IsQuiet-trans, IsQuiet-if, emit-IsQuiet, settle-IsQuiet, drain-IsQuiet,
}
use user_mode_nixos.Session.Cases.Frame.{cases_from_guests-IsQuiet, replay-IsQuiet}
use user_mode_nixos.Session.Run.{
  Outcome, outcome_of, conclude, Evidence, nodes_of, hold, pending_at, set_state, skip_one,
  skip_all, settle_phase, collect, mark_failed, say_failed, release_phase, conclude_failed,
  conclude_cancelled, conclude_passed, conclude_as, begin,
}

-- `skip_one` marks a pending phase, and leaves the rest.
pub lookup-skip_one :
    (failed name m : String) (s : Session)
    → lookup m (skip_one failed name s).state ≡ (
        if name == m && pending_at (lookup m s.state)
        then some PhaseState.skipped
        else lookup m s.state)
unfolding skip_one
lookup-skip_one failed name m s = elim (Bool-cases (pending_at (lookup name s.state))) [
  | inl h ↦
      rw (h, lookup-insert name m PhaseState.skipped s.state)
        (elim (Bool-cases (name == m)) [
          | inl e ↦
              let same : name ≡ m = (eq_iff name m).0 e in
              let k : pending_at (lookup m s.state) ≡ true = rw same at h in rw (e, k)
          | inr e ↦ rw e
        ])
  | inr h ↦ rw h (elim (Bool-cases (name == m)) [
    | inl e ↦
        let same : name ≡ m = (eq_iff name m).0 e in
        let k : pending_at (lookup m s.state) ≡ false = rw same at h in rw (e, k)
    | inr e ↦ rw e
  ])
]

pub lookup-skip_all :
    (failed : String) (names : List String) (m : String) (s : Session)
    → lookup m (skip_all failed names s).state ≡ (
        if elem m names && pending_at (lookup m s.state)
        then some PhaseState.skipped
        else lookup m s.state)
unfolding skip_all
lookup-skip_all failed [] m s = refl
lookup-skip_all failed (name ∷ names) m s = ground (
  arith,
  lookup-skip_all failed names m (skip_one failed name s),
  lookup-skip_one failed name m s,
  eq_iff name m,
  eq_iff m name,
)

-- The other fields that matter to the run.
pub record IsSkipping (s t : Session) : Type 0 where
  pub phases : t.phases ≡ s.phases
  pub vms : t.vms ≡ s.vms
  pub errors : t.errors ≡ s.errors
  pub running : t.running ≡ s.running

skip_one-IsSkipping : (failed name : String) (s : Session) → IsSkipping s (skip_one failed name s)
unfolding skip_one set_state emit
skip_one-IsSkipping failed name s = ground arith

pub skip_all-IsSkipping :
    (failed : String) (names : List String) (s : Session) → IsSkipping s (skip_all failed names s)
unfolding skip_all
skip_all-IsSkipping failed [] s = ground arith
skip_all-IsSkipping failed (name ∷ names) s =
    let h = skip_one-IsSkipping failed name s in
    let k = skip_all-IsSkipping failed names (skip_one failed name s) in
    record {
      phases = k.phases ∙ h.phases;
      vms = k.vms ∙ h.vms;
      errors = k.errors ∙ h.errors;
      running = k.running ∙ h.running;
    }

pub settle_phase-IsQuiet :
    (e : Evidence) (p : PhaseSpec) (s : Session) → IsQuiet s (settle_phase e p s)
unfolding settle_phase
settle_phase-IsQuiet e p s = settle-IsQuiet (some (nodes_of p s)) e.guests e.rounds e.last s

pub collect-IsQuiet : (e : Evidence) (p : PhaseSpec) (s : Session) → IsQuiet s (collect e p s)
unfolding collect
collect-IsQuiet e p s =
    IsQuiet-trans (settle_phase-IsQuiet e p s)
      (cases_from_guests-IsQuiet p.name (some (nodes_of p s)) e.files _)

pub mark_failed_lem :
    (e : Evidence) (error : String) (p : PhaseSpec) (s : Session)
    → ((mark_failed e error p s).state ≡ insert p.name PhaseState.failed s.state)
      × ((mark_failed e error p s).running ≡ s.running)
      × ((mark_failed e error p s).vms ≡ s.vms)
      × ((mark_failed e error p s).phases ≡ s.phases)
unfolding mark_failed
mark_failed_lem e error p s = let q = collect-IsQuiet e p s in ground arith

pub say_failed-IsQuiet :
    (e : Evidence) (error text : String) (tests_failed : Bool) (p : PhaseSpec) (s : Session)
    → IsQuiet s (say_failed e error text tests_failed p s)
unfolding say_failed
say_failed-IsQuiet e error text tests_failed p s =
    IsQuiet-trans
      (IsQuiet-if tests_failed _ _ (emit-IsQuiet _ s)
        (IsQuiet-trans (emit-IsQuiet _ s) (emit-IsQuiet _ _)))
      (replay-IsQuiet 20 (some (nodes_of p s)) e.histories _)

pub lookup-conclude_failed :
    (e : Evidence) (kind text : String) (tests_failed : Bool) (p : PhaseSpec) (s : Session)
    (m : String)
    → lookup m (conclude_failed e kind text tests_failed p s).state ≡ (
        if p.name == m
        then some PhaseState.failed
        else if elem m (skipped_by p.name s.phases) && pending_at (lookup m s.state)
        then some PhaseState.skipped
        else lookup m s.state)
unfolding conclude_failed
lookup-conclude_failed e kind text tests_failed p s m =
    let error = concat (kind ∷ ": " ∷ text ∷ []) in
    let marked = mark_failed e error p s in
    let said = say_failed e error text tests_failed p marked in
    let k : lookup m said.state ≡ lookup m (insert p.name PhaseState.failed s.state) =
      ap (lookup m) (
        (say_failed-IsQuiet e error text tests_failed p marked).state
        ∙ (mark_failed_lem e error p s).0) in
    ground (
      arith,
      lookup-skip_all p.name (skipped_by p.name s.phases) m said,
      k,
      lookup-insert p.name m PhaseState.failed s.state,
    )

release_phase-IsQuiet_state :
    (p : PhaseSpec) (s : Session)
    → ((release_phase p s).state ≡ s.state)
      × ((release_phase p s).phases ≡ s.phases)
      × ((release_phase p s).vms ≡ s.vms)
unfolding release_phase
release_phase-IsQuiet_state p s = (refl, refl, refl)

pub state-conclude_passed :
    (e : Evidence) (p : PhaseSpec) (s : Session)
    → (conclude_passed e p s).state ≡ insert p.name PhaseState.passed s.state
unfolding conclude_passed
state-conclude_passed e p s = ap (insert p.name PhaseState.passed) (collect-IsQuiet e p s).state

pub state-conclude_cancelled :
    (e : Evidence) (p : PhaseSpec) (s : Session)
    → (conclude_cancelled e p s).state ≡ insert p.name PhaseState.interrupted s.state
unfolding conclude_cancelled
state-conclude_cancelled e p s = refl

pub begin_lem :
    (reads : Reads) (p : PhaseSpec) (s : Session)
    → ((begin reads p s).state ≡ insert p.name PhaseState.running s.state)
      × ((begin reads p s).running ≡ hold p.name (nodes_of p s) s.running)
      × ((begin reads p s).vms ≡ s.vms)
      × ((begin reads p s).phases ≡ s.phases)
unfolding begin
begin_lem reads p s = let q = drain-IsQuiet reads s in ground arith

-- The phases and the guests of a session never change while it runs.
pub conclude_as_keeps :
    (o : Outcome) (e : Evidence) (p : PhaseSpec) (s : Session)
    → ((conclude_as o e p s).phases ≡ s.phases) × ((conclude_as o e p s).vms ≡ s.vms)
conclude_as_keeps Outcome.cancelled e p s = unfold conclude_as conclude_cancelled in (refl, refl)
conclude_as_keeps Outcome.returned e p s =
    let q = settle_phase-IsQuiet e p s in
    let r = collect-IsQuiet e p s in unfold conclude_as conclude_passed in ground arith
conclude_as_keeps (Outcome.raised kind text tests_failed) e p s =
    let error = concat (kind ∷ ": " ∷ text ∷ []) in
    let marked = mark_failed e error p s in
    let said = say_failed e error text tests_failed p marked in
    let (_, _, v, ph) = mark_failed_lem e error p s in
    let q = say_failed-IsQuiet e error text tests_failed p marked in
    let k = skip_all-IsSkipping p.name (skipped_by p.name s.phases) said in
    let cut = settle_phase-IsQuiet e p s in
    elim (Bool-cases e.cut) [
      | inl h ↦ unfold conclude_as in rw h (cut.phases, cut.vms)
      | inr h ↦
          unfold conclude_as conclude_failed in
          rw h (k.phases ∙ (q.phases ∙ ph), k.vms ∙ (q.vms ∙ v))
    ]

pub conclude_keeps :
    (script : Outcome) (e : Evidence) (p : PhaseSpec) (s : Session)
    → ((conclude script e p s).phases ≡ s.phases) × ((conclude script e p s).vms ≡ s.vms)
unfolding conclude
conclude_keeps script e p s = conclude_as_keeps (outcome_of script p s) e p s
