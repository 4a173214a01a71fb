-- ===== src/Session/Run.antt =====
-- `Session.run` of pkgs/uml/uml/session.py, in the two parts that other phases may come between:
-- `begin`, up to the script, and `conclude`, after it; and `write_output`.
pub mod Parts
pub mod Skips
pub mod Guests
use user_mode_nixos.Prelude.{
  ℕ, String, Bool, true, false, not, Option, none, some, List, [], ◌∷◌, map, if◌then◌else◌, filter,
  elem, Dict, lookup, insert, remove, concat, join, tenths,
}
use user_mode_nixos.Spec.{PhaseSpec}
use user_mode_nixos.Phases.{PhaseState, is_pending, word, skipped_by, is_empty, passed}
use user_mode_nixos.Events.{Event, Kind, Level, Value}
use user_mode_nixos.Session.{Session, Guest, Reads, emit, about, drain, settle}
use user_mode_nixos.Session.Cases.{JunitFile, cases_from_guests, replay}

-- How a script or a pytest run ended. An exception has the name of its type and its text;
-- `tests_failed` says whether it is `CasesFailed`.
pub data Outcome : Type 0 where
  returned cancelled : Outcome
  raised : (kind text : String) (tests_failed : Bool) → Outcome

-- What the end of a phase reads: the answers of the guests to `settle`, the JUnit files, the
-- consoles, the traceback, the time that the phase took and the time with its settling. `cut` says
-- whether the task was cancelled inside `settle`, after the reads that are given.
pub record Evidence : Type 0 where
  pub guests : List Guest
  pub rounds : List Reads
  pub last : Reads
  pub files : List JunitFile
  pub histories : List (String × List String)
  pub traceback : String
  pub took : ℕ
  pub span : ℕ
  pub cut : Bool

-- `list(self.vms)`
unfoldable pub guest_names : Option (List String) → List String
guest_names none = []
guest_names (some names) = names

-- `phase.nodes or list(self.vms)`
unfoldable pub nodes_in : PhaseSpec → Option (List String) → List String
unfolding guest_names
nodes_in p vms = if is_empty p.nodes then guest_names vms else p.nodes

abbrev pub nodes_of : PhaseSpec → Session → List String
nodes_of p s = nodes_in p s.vms

-- `Session.view`: the message of the `SessionError` where the phase names a guest that is not there.
unfoldable pub view : PhaseSpec → Session → Option String
unfolding guest_names nodes_in join concat
view p s =
    let missing = filter (λ n. not (elem n (guest_names s.vms))) (nodes_of p s) in
    let said = concat (
      "phase "
      ∷ p.name
      ∷ " names "
      ∷ join ", " missing
      ∷ " in `nodes`; the guests are "
      ∷ join ", " (guest_names s.vms)
      ∷ []) in
    if is_empty missing then none else some said

-- `for name in nodes: self.running[name] = phase.name`
unfoldable pub hold : String → List String → Dict String → Dict String
hold phase [] running = running
hold phase (n ∷ ns) running = hold phase ns (insert n phase running)

-- `Session._release`
unfoldable pub release : List String → Dict String → Dict String
release [] running = running
release (n ∷ ns) running = release ns (remove n running)

-- `self.state[name] = state`
unfoldable pub set_state : String → PhaseState → Session → Session
set_state name state s = record s { state = insert name state s.state }

-- `Session.run` up to the `try`.
unfoldable pub begin : Reads → PhaseSpec → Session → Session
unfolding drain set_state hold emit nodes_in
begin reads p s =
    let drained = drain reads s in
    let nodes = nodes_of p s in
    let marked = set_state p.name PhaseState.running drained in
    emit
      (about Kind.phase_started Level.info p.name p.name none (("nodes", Value.names nodes) ∷ []))
      (record marked { running = hold p.name nodes marked.running })

-- The event of a phase that ended.
abbrev finished : Level → String → String → Option ℕ → PhaseState → Dict Value → Event
finished level text phase seconds state more =
    about Kind.phase_finished level text phase seconds (("state", Value.text (word state)) ∷ more)

-- `self.state.get(name) is PhaseState.PENDING`
abbrev pub pending_at : Option PhaseState → Bool
pending_at none = false
pending_at (some s) = is_pending s

-- One round of the loop over `skipped_by(...)`.
unfoldable pub skip_one : String → String → Session → Session
unfolding set_state emit concat
skip_one failed name s =
    let skipped =
      emit
        (finished Level.info (concat (name ∷ " skipped, it needs " ∷ failed ∷ [])) name none
          PhaseState.skipped (("reason", Value.text (concat (failed ∷ " failed" ∷ []))) ∷ []))
        (set_state name PhaseState.skipped s) in
    if pending_at (lookup name s.state) then skipped else s

unfoldable pub skip_all : String → List String → Session → Session
unfolding skip_one
skip_all failed [] s = s
skip_all failed (name ∷ names) s = skip_all failed names (skip_one failed name s)

-- `settle`, of the guests of the phase.
unfoldable pub settle_phase : Evidence → PhaseSpec → Session → Session
unfolding settle nodes_in
settle_phase e p s = settle (some (nodes_of p s)) e.guests e.rounds e.last s

-- `settle` and `_cases_from_guests`, which both ends of a phase have.
unfoldable pub collect : Evidence → PhaseSpec → Session → Session
unfolding settle_phase cases_from_guests nodes_in
collect e p s = cases_from_guests p.name (some (nodes_of p s)) e.files (settle_phase e p s)

-- `Session._record`
unfoldable pub record_span : Evidence → PhaseSpec → Session → Session
record_span e p s = record s { report = (p.name, e.span) ∷ s.report }

-- The failure in `state` and `errors`.
unfoldable pub mark_failed : Evidence → String → PhaseSpec → Session → Session
unfolding collect record_span set_state
mark_failed e error p s =
    let failed = set_state p.name PhaseState.failed (record_span e p (collect e p s)) in
    record failed { errors = insert p.name error failed.errors }

-- The failure in the events, with the ends of the consoles.
unfoldable pub say_failed : Evidence → String → String → Bool → PhaseSpec → Session → Session
unfolding emit concat replay nodes_in
say_failed e error text tests_failed p s =
    let said =
      emit
        (finished Level.error (concat (p.name ∷ " FAILED: " ∷ text ∷ [])) p.name (some e.took)
          PhaseState.failed (("error", Value.text error) ∷ []))
        s in
    let traced = emit (about Kind.error Level.error e.traceback p.name none []) said in
    replay 20 (some (nodes_of p s)) e.histories (if tests_failed then said else traced)

-- `self._release(nodes)`
unfoldable pub release_phase : PhaseSpec → Session → Session
unfolding release nodes_in
release_phase p s = record s { running = release (nodes_of p s) s.running }

-- `except Exception as error`
unfoldable pub conclude_failed : Evidence → String → String → Bool → PhaseSpec → Session → Session
unfolding mark_failed say_failed skip_all release_phase concat
conclude_failed e kind text tests_failed p s =
    let error = concat (kind ∷ ": " ∷ text ∷ []) in
    let said = say_failed e error text tests_failed p (mark_failed e error p s) in
    release_phase p (skip_all p.name (skipped_by p.name s.phases) said)

-- `except BaseException`, before the exception goes on.
unfoldable pub conclude_cancelled : Evidence → PhaseSpec → Session → Session
unfolding set_state emit concat release_phase
conclude_cancelled e p s = release_phase p (
    emit
      (finished Level.error (concat (p.name ∷ " interrupted" ∷ [])) p.name (some e.took)
        PhaseState.interrupted
        (("error", Value.text "the run was stopped while this phase ran") ∷ []))
      (set_state p.name PhaseState.interrupted s))

-- The end of `Session.run` where nothing was raised.
unfoldable pub conclude_passed : Evidence → PhaseSpec → Session → Session
unfolding collect record_span set_state emit concat tenths release_phase
conclude_passed e p s =
    let released = release_phase p (collect e p s) in
    emit
      (finished Level.info (concat (p.name ∷ " passed in " ∷ tenths e.took ∷ "s" ∷ [])) p.name
        (some e.took) PhaseState.passed [])
      (set_state p.name PhaseState.passed (record_span e p released))

-- A phase whose `view` fails never reaches its script.
unfoldable pub outcome_of : Outcome → PhaseSpec → Session → Outcome
unfolding view
outcome_of script p s = elim (view p s) [
  | none ↦ script
  | some error ↦ Outcome.raised "SessionError" error false
]

-- What each outcome leads to. Neither an `except` clause nor what follows the `try` is guarded
-- itself, so a cancellation inside `settle` leaves `Session.run` there.
unfoldable pub conclude_as : Outcome → Evidence → PhaseSpec → Session → Session
unfolding conclude_failed conclude_cancelled conclude_passed settle_phase
conclude_as Outcome.cancelled e p s = conclude_cancelled e p s
conclude_as Outcome.returned e p s = if e.cut then settle_phase e p s else conclude_passed e p s
conclude_as (Outcome.raised kind text tests_failed) e p s =
    if e.cut then settle_phase e p s else conclude_failed e kind text tests_failed p s

-- `Session.run` from the `try` on.
unfoldable pub conclude : Outcome → Evidence → PhaseSpec → Session → Session
unfolding outcome_of conclude_as
conclude script e p s = conclude_as (outcome_of script p s) e p s

-- What `Session.run` gives back, or that it raised: before boot, or because it was cancelled.
pub data Ran : Type 0 where
  ended : PhaseState → Session → Ran
  stopped : Session → Ran
  not_booted : Ran

unfoldable pub answer : Outcome → Evidence → Session → Ran
answer Outcome.cancelled e s = Ran.stopped s
answer Outcome.returned e s = if e.cut then Ran.stopped s else Ran.ended PhaseState.passed s
answer (Outcome.raised _ _ _) e s = if e.cut then Ran.stopped s else Ran.ended PhaseState.failed s

-- `Session.run`, where no other phase comes between, given whether it is cancelled in its first drain,
-- which is before the `try`.
unfoldable pub run : Bool → Reads → Outcome → Evidence → PhaseSpec → Session → Ran
unfolding drain begin conclude answer outcome_of
run early reads script e p s =
    let begun = begin reads p s in
    let ended = answer (outcome_of script p begun) e (conclude script e p begun) in
    let ran = if early then Ran.stopped (drain reads s) else ended in
    elim s.vms [ none ↦ Ran.not_booted | some _ ↦ ran ]

-- The part of `Session.write_output` that `phases.json` and `status` hold, and its event.
pub record Written : Type 0 where
  pub status : String
  pub phases : List (String × String × Option String)
  pub first_error : Option String

unfoldable pub write_output : Session → Written × Session
unfolding passed emit
write_output s =
    let good = passed s.state in
    let rows = map (λ row. (row.0, word row.1, lookup row.0 s.errors)) s.state in
    let first : Option String = elim s.errors [ [] ↦ none | e ∷ _ ↦ some e.1 ] in
    let event : Event = record {
      kind = Kind.run_finished;
      level = if good then Level.info else Level.error;
      text = if good then "passed" else "failed";
      machine = none;
      phase = none;
      seconds = none;
      fields =
          ("passed", Value.flag good)
          ∷ ("states", Value.table (map (λ row. (row.0, word row.1)) s.state))
          ∷ [];
    } in
    (
      record { status = if good then "0\n" else "1\n"; phases = rows; first_error = first },
      emit event s,
    )
