-- ===== src/Cli/Schedule.antt =====
-- `_schedule` of pkgs/uml/uml/cli.py, with `Controller.pause` of pkgs/uml/uml/control.py.
-- One turn of the loop runs without a wait inside, so it is one step; the tasks it starts, the
-- journal follower and the clients of a paused run take the other steps, in any order.
-- Phase names are the names of an attribute set, so the dict `running` is the list of its values.
pub mod Invariant
pub mod Safety
mod Progress
pub mod Completion
use user_mode_nixos.Prelude.{
  ℕ, String, ◌≡◌, ◌≢◌, Bool, true, false, not, ◌&&◌, ◌||◌, Option, none, some, List, [], ◌∷◌, ◌++◌,
  map, Memᴰ, ◌==◌, if◌then◌else◌, filter, elem, discard, concat, join,
}
use user_mode_nixos.Spec.{PhaseSpec}
use user_mode_nixos.Phases.{ready, launchable, is_empty}
use user_mode_nixos.Events.{Event, Kind, Level, Value}
use user_mode_nixos.Session.{Session, Reads, emit, drain, command}
use user_mode_nixos.Session.Run.{Outcome, Evidence, begin, conclude, outcome_of}

-- The arguments of `_schedule`. `controlled` is `control is not None`; `out` and `socket` are
-- texts in the message of a pause.
pub record Options : Type 0 where
  pub controlled : Bool
  pub breaks : List String
  pub break_on_failure : Bool
  pub serial : Bool
  pub every : List String
  pub out : String
  pub socket : String

-- Where the loop stands: about to take a turn, in `changed.wait()`, in `control.pause`, or left.
pub data Mode : Type 0 where
  looping waiting paused left : Mode

-- The local variables; `begun`, the tasks that are past the first wait of `Session.run`; and `hands`,
-- the phases that clients run by hand and that have begun, each as often as it was asked for.
pub record Schedule : Type 0 where
  pub session : Session
  pub running : List PhaseSpec
  pub begun : List String
  pub hands : List String
  pub failed : List String
  pub paused_before : List String
  pub mode : Mode

-- `reason`
pub data Reason : Type 0 where
  go : Reason
  after_failure : Reason
  before : String → Reason

abbrev pub names : List PhaseSpec → List String
names = map (λ p. p.name)

-- `[p for p in ready(...) if p.name not in running]`
unfoldable pub candidates : Schedule → List PhaseSpec
candidates s =
    filter (λ p. not (elem p.name (names s.running))) (ready s.session.phases s.session.state)

abbrev first_stop : List String → Reason
first_stop [] = Reason.go
first_stop (n ∷ _) = Reason.before n

unfoldable pub reason : Options → Schedule → Reason
unfolding candidates
reason o s =
    let stop =
      filter (λ n. elem n o.breaks && not (elem n s.paused_before)) (names (candidates s)) in
    if o.controlled
    then if o.break_on_failure && not (is_empty s.failed)
      then Reason.after_failure
      else first_stop stop
    else Reason.go

abbrev first_only : List PhaseSpec → List PhaseSpec
first_only [] = []
first_only (p ∷ _) = p ∷ []

abbrev no_phase : List PhaseSpec → Bool
no_phase [] = true
no_phase (_ ∷ _) = false

-- What is launched where nothing asks for a pause.
unfoldable pub todo : Options → Schedule → List PhaseSpec
unfolding candidates
todo o s =
    let chosen = launchable (candidates s) s.running o.every in
    let one = if no_phase s.running then first_only chosen else [] in
    if o.serial then one else chosen

abbrev reason_text : Schedule → Reason → String
reason_text s Reason.go = ""
reason_text s Reason.after_failure = concat ("after " ∷ join ", " s.failed ∷ " failed" ∷ [])
reason_text s (Reason.before n) = concat ("before " ∷ n ∷ [])

abbrev note : Level → String → List (String × Value) → Event
note level text fields = record {
  kind = Kind.note;
  level = level;
  text = text;
  machine = none;
  phase = none;
  seconds = none;
  fields = fields;
}

abbrev mark_stop : Reason → List String → List String
mark_stop (Reason.before n) stops = n ∷ stops
mark_stop _ stops = stops

-- `Controller.pause`, up to its wait.
unfoldable pub pause : Options → Reason → Schedule → Schedule
unfolding emit concat join
pause o r s =
    let text = reason_text s r in
    let said =
      concat ("paused " ∷ text ∷ "; `uml ctl --out " ∷ o.out ∷ " continue` resumes" ∷ []) in
    record s {
      session =
          emit
            (note Level.error said
              (("reason", Value.text text) ∷ ("socket", Value.text o.socket) ∷ []))
            s.session;
      failed = [];
      paused_before = mark_stop r s.paused_before;
      mode = Mode.paused;
    }

-- The end of a turn: the chosen phases are started, and the loop waits or is left.
unfoldable pub launch : List PhaseSpec → Schedule → Schedule
launch chosen s =
    let running = s.running ++ chosen in
    record s { running = running; mode = if no_phase running then Mode.left else Mode.waiting }

unfoldable pub turn_for : Options → Reason → Schedule → Schedule
unfolding pause launch todo
turn_for o Reason.go s = launch (todo o s) s
turn_for o r s = if no_phase s.running then pause o r s else launch [] s

-- One turn of `while True`.
unfoldable pub turn : Options → Schedule → Schedule
unfolding turn_for reason
turn o s = turn_for o (reason o s) s

abbrev woken : Mode → Mode
woken Mode.waiting = Mode.looping
woken m = m

abbrev is_failure : Outcome → Bool
is_failure (Outcome.raised _ _ _) = true
is_failure _ = false

-- The task `one` after the script: `failed`, `del running[...]` and `changed.set()`.
unfoldable pub finish : Outcome → Evidence → PhaseSpec → Schedule → Schedule
unfolding conclude outcome_of
finish script e p s =
    let failed = is_failure (outcome_of script p s.session) in
    record s {
      session = conclude script e p s.session;
      running = filter (λ q. not (q.name == p.name)) s.running;
      begun = discard p.name s.begun;
      failed = if failed then s.failed ++ p.name ∷ [] else s.failed;
      mode = woken s.mode;
    }

-- A name is taken out once.
unfoldable pub erase : String → List String → List String
erase n [] = []
erase n (m ∷ ms) = let rest = erase n ms in if n == m then ms else m ∷ rest

-- `Controller._run`, up to the script of the phase.
unfoldable pub hand_begin : Reads → PhaseSpec → Schedule → Schedule
unfolding begin
hand_begin reads p s = record s { session = begin reads p s.session; hands = p.name ∷ s.hands }

-- `Controller._run` behind the script.
unfoldable pub hand_finish : Outcome → Evidence → PhaseSpec → Schedule → Schedule
unfolding conclude erase
hand_finish script e p s = record s {
  session = conclude script e p s.session;
  hands = erase p.name s.hands;
}

-- The steps of a run that is not being stopped. A client is let in while the drive is paused, but
-- its phase begins behind a wait and lasts, and clients are served at once: so by then the drive may
-- have gone on, and several phases may run by hand. What a client asks for is an event as well, and
-- so are the cases of tests that it runs; what code that it types does to the run is left out.
pub data Step (o : Options) : Schedule → Schedule → Type 0 where
  turn_step : (s : Schedule) → s.mode ≡ Mode.looping → Step o s (turn o s)
  begin_step :
      (s : Schedule) (reads : Reads) (p : PhaseSpec)
      → Memᴰ p s.running
      → elem p.name s.begun ≡ false
      → Step o s (record s { session = begin reads p s.session; begun = p.name ∷ s.begun })
  finish_step :
      (s : Schedule) (script : Outcome) (e : Evidence) (p : PhaseSpec)
      → Memᴰ p s.running
      → elem p.name s.begun ≡ true
      → outcome_of script p s.session ≢ Outcome.cancelled
      → e.cut ≡ false
      → Step o s (finish script e p s)
  follow_step :
      (s : Schedule) (reads : Reads) → Step o s (record s { session = drain reads s.session })
  command_step :
      (s : Schedule) (machine what : String) (took : ℕ)
      → Step o s (record s { session = command machine what took s.session })
  said_step : (s : Schedule) (e : Event) → Step o s (record s { session = emit e s.session })
  hand_begin_step :
      (s : Schedule) (reads : Reads) (p : PhaseSpec)
      → o.controlled ≡ true
      → Memᴰ p s.session.phases
      → Step o s (hand_begin reads p s)
  hand_finish_step :
      (s : Schedule) (script : Outcome) (e : Evidence) (p : PhaseSpec)
      → elem p.name s.hands ≡ true
      → outcome_of script p s.session ≢ Outcome.cancelled
      → e.cut ≡ false
      → Step o s (hand_finish script e p s)
  resume_step :
      (s : Schedule)
      → s.mode ≡ Mode.paused
      → Step o s (record s {
        session = emit (note Level.info "resumed" []) s.session;
        mode = Mode.looping;
      })

pub data Reach (o : Options) (s : Schedule) : Schedule → Type 0 where
  here : Reach o s s
  next : {t u : Schedule} → Reach o s t → Step o t u → Reach o s u

-- The loop before its first turn.
abbrev pub entry : Session → Schedule
entry session = record {
  session = session;
  running = [];
  begun = [];
  hands = [];
  failed = [];
  paused_before = [];
  mode = Mode.looping;
}
