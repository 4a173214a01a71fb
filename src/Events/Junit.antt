-- ===== src/Events/Junit.antt =====
-- `junit` of pkgs/uml/uml/events.py: the finished phases as a JUnit document.
pub mod Failures
pub mod Escape
use Prim.Native.Char.{Char, code}
use user_mode_nixos.Prelude.{
  ℕ, ◌+◌, String, Bool, true, false, not, ◌&&◌, ◌||◌, Option, none, some, List, [], ◌∷◌, ◌++◌, map,
  ◌==◌, if◌then◌else◌, nat_eq, length, filter, any, concat, join, show, thousandths,
}
use user_mode_nixos.Events.{Event, Kind, field_or, or_else, is_case, is_finished, by_hand}

-- `text.replace(c, by)`, for one character.
unfoldable pub replace_char : Char → String → String → String
replace_char c by String.[] = String.[]
replace_char c by (String.◌∷◌ d s) =
    let rest = replace_char c by s in
    if nat_eq (code d) (code c) then concat (by ∷ rest ∷ []) else String.◌∷◌ d rest

-- `_xml_escape`
unfoldable pub xml_escape : String → String
unfolding replace_char concat
xml_escape text =
    let amp = replace_char "&" "&amp;" text in
    let lt = replace_char "<" "&lt;" amp in
    let gt = replace_char ">" "&gt;" lt in replace_char "\"" "&quot;" gt

-- `e.kind in (Kind.PHASE_FINISHED, Kind.CASE) and not e.data.get("by_hand")`
unfoldable pub kept : List Event → List Event
kept = filter (λ e. (is_finished e.kind || is_case e.kind) && not (by_hand e))

-- `outcome in ("failed", "error")`
abbrev pub is_failing : String → Bool
is_failing outcome = outcome == "failed" || outcome == "error"

-- Equality of what may be None.
abbrev pub same_phase : Option String → Option String → Bool
same_phase none none = true
same_phase (some a) (some b) = a == b
same_phase _ _ = false

-- `phase in with_cases`
unfoldable pub with_cases : Option String → List Event → Bool
with_cases phase = any (λ e. is_case e.kind && same_phase phase e.phase)

-- `phase in failing_cases`
unfoldable pub failing_cases : Option String → List Event → Bool
failing_cases phase =
    any (λ e. (is_case e.kind && is_failing (field_or "outcome" "" e)) && same_phase phase e.phase)

-- What the loop makes of an event: its state and its names, or nothing.
pub record Row : Type 0 where
  pub state : String
  pub classname : String
  pub name : String

abbrev phase_text : Option String → String
phase_text none = "None"
phase_text (some p) = p

abbrev pub phase_or : Option String → String
phase_or none = ""
phase_or (some p) = p

-- A dashboard has no third outcome.
unfoldable pub phase_state : Event → String
phase_state e =
    let state = field_or "state" "" e in if state == "interrupted" then "failed" else state

unfoldable pub case_state : Event → String
case_state e =
    let outcome = field_or "outcome" "" e in if is_failing outcome then "failed" else outcome

unfoldable pub class_of : String → Option String → String
unfolding concat
class_of name phase = concat (name ∷ "." ∷ phase_text phase ∷ [])

abbrev pub case_row : String → Event → Row
case_row name e = record { state = case_state e; classname = class_of name e.phase; name = e.text }

abbrev pub phase_row : String → Event → Row
phase_row name e = record { state = phase_state e; classname = name; name = phase_or e.phase }

unfoldable pub entry_of : String → List Event → Event → Option Row
entry_of name events e =
    let shown = phase_state e == "failed" && not (failing_cases e.phase events) in
    if is_case e.kind
    then some (case_row name e)
    else if field_or "state" "" e == "deselected"
    then none
    else if with_cases e.phase events && not shown
    then none
    else some (phase_row name e)

-- `<failure>`, `<skipped>` or nothing. The first line of a text is a parameter, `splitlines`.
unfoldable pub body : (String → String) → String → Event → String
unfolding field_or or_else concat xml_escape
body first_line state e =
    let error = field_or "error" "failed" e in
    let first = if error == "" then "failed" else first_line error in
    let summary = or_else (field_or "message" "" e) first in
    let failure =
      concat (
        "<failure message=\""
        ∷ xml_escape summary
        ∷ "\">"
        ∷ xml_escape error
        ∷ "</failure>"
        ∷ []) in
    let skipped = concat (
      "<skipped message=\""
      ∷ xml_escape (field_or "reason" "a phase it needs failed" e)
      ∷ "\"/>"
      ∷ []) in
    if state == "failed" then failure else if state == "skipped" then skipped else ""

abbrev seconds_of : Option ℕ → ℕ
seconds_of none = 0
seconds_of (some ms) = ms

-- One `<testcase>`.
unfoldable pub testcase : (String → String) → Row → Event → String
unfolding body concat xml_escape thousandths
testcase first_line entry e = concat (
    "  <testcase classname=\""
    ∷ xml_escape entry.classname
    ∷ "\" name=\""
    ∷ xml_escape entry.name
    ∷ "\" time=\""
    ∷ thousandths (seconds_of e.seconds)
    ∷ "\">"
    ∷ body first_line entry.state e
    ∷ "</testcase>"
    ∷ [])

-- The local variables of the loop.
pub record Suite : Type 0 where
  pub cases : List String
  pub failures : ℕ
  pub skipped : ℕ
  pub seconds : ℕ

unfoldable pub add_entry : (String → String) → Option Row → Event → Suite → Suite
add_entry first_line none e s = s
add_entry first_line (some entry) e s = record {
  cases = testcase first_line entry e ∷ s.cases;
  failures = s.failures + (if entry.state == "failed" then 1 else 0);
  skipped = s.skipped + (if entry.state == "skipped" then 1 else 0);
  seconds = s.seconds + seconds_of e.seconds;
}

-- The loop over the events that are kept; `every` is all of them.
unfoldable pub suite : (String → String) → String → List Event → List Event → Suite
unfolding add_entry
suite first_line name every [] = record { cases = []; failures = 0; skipped = 0; seconds = 0 }
suite first_line name every (e ∷ es) =
    add_entry first_line (entry_of name every e) e (suite first_line name every es)

-- `junit`
unfoldable pub junit : (String → String) → String → List Event → String
unfolding suite kept concat join show thousandths xml_escape
junit first_line name events =
    let s = suite first_line name (kept events) (kept events) in
    let head = concat (
      "<testsuite name=\""
      ∷ xml_escape name
      ∷ "\" tests=\""
      ∷ show (length s.cases)
      ∷ "\" failures=\""
      ∷ show s.failures
      ∷ "\" skipped=\""
      ∷ show s.skipped
      ∷ "\" time=\""
      ∷ thousandths s.seconds
      ∷ "\">"
      ∷ []) in
    join "\n"
      ("<?xml version=\"1.0\" encoding=\"UTF-8\"?>" ∷ head ∷ (s.cases ++ "</testsuite>" ∷ "" ∷ []))
