-- ===== src/Session/Cases.antt =====
-- `_cases_from_guests` and `_replay` of pkgs/uml/uml/session.py: the evidence of a phase.
pub mod Frame
use user_mode_nixos.Prelude.{
  drop, ℕ, suc, ◌-◌, String, Bool, true, false, not, ◌&&◌, ◌||◌, Option, none, some, List, [], ◌∷◌,
  ◌++◌, ◌==◌, if◌then◌else◌, nat_eq, length, filter, any, Dict, concat, show,
}
use user_mode_nixos.Spec.{is_none}
use user_mode_nixos.Events.{Event, Kind, Level, Value}
use user_mode_nixos.JunitIn.{Case}
use user_mode_nixos.Session.{Session, emit, selected}

-- What `junit_in.parse` made of a file.
pub data Parsed : Type 0 where
  cases : List Case → Parsed
  broken : String → Parsed

-- A file `artifacts/<machine>/junit/<name>`, in the order of the sorted glob. A file that could
-- not be looked at has no modification time.
pub record JunitFile : Type 0 where
  pub path : String
  pub name : String
  pub machine : String
  pub modified : Option ℕ
  pub parsed : Parsed

abbrev given : String → Option String → Dict Value
given key none = []
given key (some t) = (key, Value.text t) ∷ []

abbrev is_bad : Case → Bool
is_bad c = c.outcome == "failed" || c.outcome == "error"

unfoldable pub emit_cases : String → JunitFile → List Case → Session → Session
unfolding emit
emit_cases phase f [] s = s
emit_cases phase f (c ∷ cs) s = emit_cases phase f cs (
    emit
      (record {
        kind = Kind.case;
        level = if is_bad c then Level.error else Level.detail;
        text = c.name;
        machine = some f.machine;
        phase = some phase;
        seconds = some c.seconds;
        fields =
            ("outcome", Value.text c.outcome)
            ∷ ("when", Value.text "guest")
            ∷ ("file", Value.text f.name)
            ∷ (given "message" c.message ++ (given "error" c.error ++ given "reason" c.reason));
      })
      s)

emit_parsed : String → JunitFile → Parsed → Session → Session
unfolding emit emit_cases concat
emit_parsed phase f (Parsed.cases cs) s = emit_cases phase f cs s
emit_parsed phase f (Parsed.broken error) s =
    emit
      (record {
        kind = Kind.error;
        level = Level.error;
        text = concat (f.name ∷ " from " ∷ f.machine ∷ ": " ∷ error ∷ []);
        machine = some f.machine;
        phase = some phase;
        seconds = none;
        fields = [];
      })
      s

-- `key in self._junit_seen`
unfoldable pub seen : String → ℕ → List (String × ℕ) → Bool
seen path modified = any (λ key. key.0 == path && nat_eq key.1 modified)

read_file : String → JunitFile → Option ℕ → Session → Session
unfolding emit_parsed seen
read_file phase f none s = s
read_file phase f (some modified) s =
    if seen f.path modified s.junit_seen
    then s
    else emit_parsed phase f f.parsed (record s { junit_seen = (f.path, modified) ∷ s.junit_seen })

-- One round of the loop of `_cases_from_guests`.
unfoldable pub take_file : String → Option (List String) → JunitFile → Session → Session
unfolding read_file
take_file phase nodes f s =
    if not (selected nodes f.machine) then s else read_file phase f f.modified s

-- `Session._cases_from_guests`
unfoldable pub cases_from_guests :
    String → Option (List String) → List JunitFile → Session → Session
unfolding take_file
cases_from_guests phase nodes [] s = s
cases_from_guests phase nodes (f ∷ fs) s =
    cases_from_guests phase nodes fs (take_file phase nodes f s)

-- `[line for line in history[-lines:] if line]`
unfoldable pub tail_of : ℕ → List String → List String
tail_of lines history = filter (λ l. not (l == "")) (drop (length history - lines) history)

abbrev line_event : String → String → Event
line_event machine text = record {
  kind = Kind.error;
  level = Level.error;
  text = text;
  machine = some machine;
  phase = none;
  seconds = none;
  fields = [];
}

emit_lines : String → List String → Session → Session
unfolding emit concat
emit_lines machine [] s = s
emit_lines machine (l ∷ ls) s =
    emit_lines machine ls (emit (line_event machine (concat ("  " ∷ l ∷ []))) s)

replay_one : ℕ → String → List String → Session → Session
unfolding emit_lines tail_of concat show
replay_one lines machine history s =
    let tail = tail_of lines history in
    let said =
      concat ("the last " ∷ show (length tail) ∷ " console lines from " ∷ machine ∷ ":" ∷ []) in
    let shown = emit_lines machine tail (emit (line_event machine said) s) in
    if nat_eq (length tail) 0 then s else shown

replay_all : ℕ → Option (List String) → List (String × List String) → Session → Session
unfolding replay_one
replay_all lines nodes [] s = s
replay_all lines nodes ((machine, history) ∷ rest) s =
    replay_all lines nodes rest
      (if selected nodes machine then replay_one lines machine history s else s)

-- `Session._replay`, given each guest's console history in the order of `vms`.
unfoldable pub replay : ℕ → Option (List String) → List (String × List String) → Session → Session
unfolding replay_all
replay lines nodes histories s = if is_none s.vms then s else replay_all lines nodes histories s
