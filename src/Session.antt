-- ===== src/Session.antt =====
-- pkgs/uml/uml/session.py: one run, driven a step at a time. A method is a function on the state
-- of the object; what a script, a guest or a file answers is an argument.
pub mod Frame
pub mod Fresh
pub mod Cases
pub mod Run
use user_mode_nixos.Prelude.{
  ℕ, String, Bool, true, false, not, ◌&&◌, ◌||◌, Option, none, some, List, [], ◌∷◌, ◌++◌, map, ◌==◌,
  if◌then◌else◌, filter, all, elem, Dict, lookup, insert, remove, concat, join, show, tenths,
}
use user_mode_nixos.Spec.{PhaseSpec, is_none}
use user_mode_nixos.Phases.{PhaseState, is_pending, word, skipped_by, state_of, is_empty}
use user_mode_nixos.Events.{Event, Kind, Level, Value}
use user_mode_nixos.Journal
use user_mode_nixos.Journal.{Entry, settle_marker}

-- The fields of `Session` that its methods change. `vms` holds the names of the guests, `report`
-- the spans of the phases, and `events` what the sink was given, the oldest first.
pub record Session : Type 0 where
  pub phases : List PhaseSpec
  pub vms : Option (List String)
  pub state : Dict PhaseState
  pub errors : Dict String
  pub running : Dict String
  pub case : Option String
  pub settled : List String
  pub junit_seen : List (String × ℕ)
  pub report : List (String × ℕ)
  pub events : List Event

-- `{phase.name: PhaseState.PENDING for phase in spec.phases}`
unfoldable pub initial : List PhaseSpec → Dict PhaseState → Dict PhaseState
initial [] d = d
initial (p ∷ ps) d = initial ps (insert p.name PhaseState.pending d)

-- `Session.__init__`
unfoldable pub fresh : List PhaseSpec → Session
unfolding initial
fresh phases = record {
  phases = phases;
  vms = none;
  state = initial phases [];
  errors = [];
  running = [];
  case = none;
  settled = [];
  junit_seen = [];
  report = [];
  events = [];
}

-- `Session.emit`, to a sink.
unfoldable pub emit : Event → Session → Session
emit e s = record s { events = s.events ++ e ∷ [] }

-- An event about a phase, with no machine.
abbrev pub about : Kind → Level → String → String → Option ℕ → Dict Value → Event
about kind level text phase seconds fields = record {
  kind = kind;
  level = level;
  text = text;
  machine = none;
  phase = some phase;
  seconds = seconds;
  fields = fields;
}

-- `Session._in_case`
abbrev in_case : Session → Dict Value
in_case s = elim s.case [ none ↦ [] | some c ↦ ("case", Value.text c) ∷ [] ]

-- `Session._command`: a command that a guest was sent, of the phase that holds the guest.
unfoldable pub command : String → String → ℕ → Session → Session
unfolding emit
command machine what seconds s =
    emit
      (record {
        kind = Kind.rpc;
        level = Level.detail;
        text = what;
        machine = some machine;
        phase = lookup machine s.running;
        seconds = some seconds;
        fields = in_case s;
      })
      s

-- One line of a guest's journal in `drain`, as `journal.parse` reads it.
unfoldable pub take_entry : String → Option Entry → Session → Session
unfolding emit Journal.fields Journal.level
take_entry machine none s = s
take_entry machine (some e) s =
    let marker : Bool = elim e.identifier [ none ↦ false | some i ↦ i == settle_marker ] in
    if marker
    then record s { settled = e.message ∷ s.settled }
    else emit
        (record {
          kind = Kind.journal;
          level = Journal.level e;
          text = e.message;
          machine = some machine;
          phase = lookup machine s.running;
          seconds = none;
          fields = Journal.fields e ++ in_case s;
        })
        s

take_entries : String → List (Option Entry) → Session → Session
unfolding take_entry
take_entries machine [] s = s
take_entries machine (e ∷ es) s = take_entries machine es (take_entry machine e s)

-- `Session.drain`: what each guest's `Tail.read` gives, in the order of `_journals`.
unfoldable pub drain : List (String × List (Option Entry)) → Session → Session
unfolding take_entries
drain [] s = s
drain ((machine, entries) ∷ rest) s = drain rest (take_entries machine entries s)

abbrev pub Reads : Type 0
Reads = List (String × List (Option Entry))

-- A guest as `settle` sees it. `accepted` says whether the guest took the command that logs the
-- token, or raised `MachineError`; either way the command took `took`.
pub record Guest : Type 0 where
  pub name : String
  pub known : Bool
  pub streaming : Bool
  pub alive : Bool
  pub accepted : Bool
  pub token : String
  pub took : ℕ

-- `nodes is None or name in nodes`
abbrev pub selected : Option (List String) → String → Bool
selected none name = true
selected (some nodes) name = elem name nodes

-- The guests that are sent a token.
unfoldable pub asked : Option (List String) → List Guest → List Guest
asked nodes = filter (λ g. selected nodes g.name && (g.known && (g.streaming && g.alive)))

-- The tokens that `settle` waits for.
unfoldable pub tokens : List Guest → List String
tokens guests = map (λ g. g.token) (filter (λ g. g.accepted) guests)

ask : List Guest → Session → Session
unfolding command concat
ask [] s = s
ask (g ∷ gs) s = ask gs (
    command g.name
      (concat ("echo " ∷ g.token ∷ " | systemd-cat --identifier=" ∷ settle_marker ∷ [])) g.took s)

-- `while not tokens <= self._settled`, with what each round reads until the time is up.
unfoldable pub settle_loop : List String → List Reads → Session → Session
unfolding drain
settle_loop wanted [] s = s
settle_loop wanted (reads ∷ later) s =
    let next = settle_loop wanted later (drain reads s) in
    if all (λ t. elem t s.settled) wanted then s else next

-- `Session.settle`. Where the time is up while the guests are asked, `guests` are those reached and
-- there is no round.
unfoldable pub settle : Option (List String) → List Guest → List Reads → Reads → Session → Session
unfolding settle_loop tokens asked ask
settle nodes guests rounds last s =
    let sent = asked nodes guests in
    let settled = drain last (settle_loop (tokens sent) rounds (ask sent s)) in
    if is_none s.vms then s else settled
