-- ===== src/JunitIn.antt =====
-- pkgs/uml/uml/junit_in.py: the tests that a guest reported. The XML parser, `float` of a text in
-- seconds, as milliseconds, and `str.strip` are parameters.
pub mod Outcomes
use Prim.Native.String.{◌++◌ as ◌<>◌}
use user_mode_nixos.Prelude.{
  ℕ, String, ◌==◌, Bool, Option, none, some, List, [], ◌∷◌, ◌>>=◌, if◌then◌else◌, map,
}

-- `Case`
pub record Case : Type 0 where
  pub name : String
  pub outcome : String
  pub seconds : ℕ
  pub message : Option String
  pub error : Option String
  pub reason : Option String

-- A child of a `<testcase>`: its `message` and its text.
pub record Child : Type 0 where
  pub message : Option String
  pub text : Option String

-- A `<testcase>`: its attributes, and the first child of each name that is looked for.
pub record Element : Type 0 where
  pub classname : Option String
  pub name : Option String
  pub time : Option String
  pub failure : Option Child
  pub error : Option Child
  pub skipped : Option Child

-- `value or None`, and `value or other`
abbrev pub or_none : Option String → Option String
or_none none = none
or_none (some t) = if t == "" then none else some t

abbrev pub or_text : Option String → String → String
or_text none other = other
or_text (some t) other = if t == "" then other else t

abbrev pub get : Option String → String
get none = ""
get (some t) = t

-- `float(element.get("time", "0") or 0)`, and zero where it raises.
unfoldable pub time_of : (String → Option ℕ) → Option String → ℕ
time_of float none = elim (float "0") [ some n ↦ n | none ↦ 0 ]
time_of float (some t) = if t == "" then 0 else elim (float t) [ some n ↦ n | none ↦ 0 ]

-- `f"{classname}::{name}" if classname else name`
unfoldable pub full_name : Element → String
full_name e = if get e.classname == "" then get e.name else get e.classname <> ("::" <> get e.name)

-- The case of a test with a failure or an error.
unfoldable pub case_with : (String → String) → String → String → ℕ → Child → Case
case_with strip full outcome seconds found = record {
  name = full;
  outcome = outcome;
  seconds = seconds;
  message = or_none found.message;
  error = or_none (some (strip (or_text found.text (or_text found.message ""))));
  reason = none;
}

abbrev pub skipped_case : String → ℕ → Option Child → Case
skipped_case full seconds none = record {
  name = full;
  outcome = "passed";
  seconds = seconds;
  message = none;
  error = none;
  reason = none;
}
skipped_case full seconds (some found) = record {
  name = full;
  outcome = "skipped";
  seconds = seconds;
  message = none;
  error = none;
  reason = or_none found.message;
}

-- The tags of `_case` in their order: a failure, an error, neither.
abbrev pub case_by : (String → String) → String → ℕ → (failure error skipped : Option Child) → Case
unfolding case_with
case_by strip full seconds (some found) error skipped = case_with strip full "failed" seconds found
case_by strip full seconds none (some found) skipped = case_with strip full "error" seconds found
case_by strip full seconds none none skipped = skipped_case full seconds skipped

-- `_case`
unfoldable pub case_of : (String → Option ℕ) → (String → String) → Element → Case
unfolding case_by time_of full_name
case_of float strip e =
    case_by strip (full_name e) (time_of float e.time) e.failure e.error e.skipped

-- `parse`, over the `<testcase>` elements of a document; none where it is not XML.
unfoldable pub parse :
    (String → Option (List Element))
    → (String → Option ℕ)
    → (String → String)
    → String
    → Option (List Case)
unfolding case_of
parse xml float strip text = do elements ← xml text; some (map (case_of float strip) elements)
