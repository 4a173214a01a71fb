-- ===== src/Tests/Monitors.antt =====
-- A watched run, and documents of a run.
use user_mode_nixos.Prelude.{
  Bytes, String, ◌≡◌, refl, ◌↔◌, false, Option, none, some, List, [], ◌∷◌, Memᴰ, Dict, lookup,
}
use user_mode_nixos.Events.{Event, Kind, Level, Value, field_or, by_hand}
use user_mode_nixos.Events.Render.{render}
use user_mode_nixos.Events.Junit.{
  kept, suite, junit, xml_escape, entry_of, with_cases, phase_state, failing_cases, case_state,
  testcase, class_of,
}
use user_mode_nixos.Events.Junit.Failures.{is_bad_event, junit_failures}
use user_mode_nixos.Events.Junit.Escape.{occurs, xml_escape_free}
use user_mode_nixos.Journal.Lines.{pieces}
use user_mode_nixos.Monitor.{Ending, status, ending, scan, follow}
use user_mode_nixos.Monitor.Whole.{closed, joined, follow_whole}

-- A line of one byte ends the run, a longer one does not.
abbrev loads : Bytes → Option (Dict String)
loads [] = none
loads (_ ∷ []) = some (("event", "finished") ∷ ("passed", "true") ∷ [])
loads _ = some (("event", "phase") ∷ [])

-- The line `ab`, cut in two, and the line `c`.
abbrev chunks : List Bytes
chunks = (97 ∷ []) ∷ (98 ∷ 10 ∷ 99 ∷ []) ∷ (10 ∷ []) ∷ []

follow-sample : follow loads [] chunks ≡ (
  (("event", "phase") ∷ []) ∷ (("event", "finished") ∷ ("passed", "true") ∷ []) ∷ [],
  Ending.code 0,
)
unfolding follow scan status pieces lookup ending
follow-sample = refl

follow_whole_example : follow loads [] chunks ≡ closed (scan loads (pieces (joined chunks)).0)
follow_whole_example = follow_whole loads chunks

abbrev event : Kind → String → String → List (String × Value) → Event
event kind text phase fields = record {
  kind = kind;
  level = Level.info;
  text = text;
  machine = none;
  phase = some phase;
  seconds = some 1250;
  fields = fields;
}

abbrev suite_phase : Event
suite_phase =
    event Kind.phase_finished "suite FAILED" "suite"
      (("state", Value.text "failed") ∷ ("error", Value.text "1 failed") ∷ [])

abbrev bad_case : Event
bad_case =
    event Kind.case "test_a" "suite"
      (("outcome", Value.text "failed") ∷ ("error", Value.text "assert 1 < 0") ∷ [])

abbrev events : List Event
events = bad_case ∷ suite_phase ∷ []

abbrev same : String → String
same t = t

junit-sample :
    junit same "uml" events
    ≡ "<?xml version=\"1.0\" encoding=\"UTF-8\"?>\n<testsuite name=\"uml\" tests=\"1\" failures=\"1\" skipped=\"0\" time=\"1.250\">\n  <testcase classname=\"uml.suite\" name=\"test_a\" time=\"1.250\"><failure message=\"assert 1 &lt; 0\">assert 1 &lt; 0</failure></testcase>\n</testsuite>\n"
unfolding junit entry_of field_or by_hand lookup with_cases phase_state failing_cases case_state
    testcase class_of
junit-sample = refl

render-sample : render same bad_case ≡ "[case] failed test_a (1.25s)"
unfolding render
render-sample = refl

junit_failures_example :
    ((suite same "uml" (kept events) (kept events)).failures ≡ 0)
    ↔ ((e : Event) → Memᴰ e (kept events) → is_bad_event e ≡ false)
junit_failures_example = junit_failures same "uml" events

xml_escape_free_sample :
    (occurs "<" (xml_escape "a<b") ≡ false)
    × (occurs ">" (xml_escape "a<b") ≡ false)
    × (occurs "\"" (xml_escape "a<b") ≡ false)
xml_escape_free_sample = xml_escape_free "a<b"
