-- ===== src/Events.antt =====
-- pkgs/uml/uml/events.py: what a run says, as data. Instants (`at`) are not modelled.
pub mod Render
pub mod Junit
use user_mode_nixos.Prelude.{
  ℕ, String, Bool, true, false, not, Option, none, some, List, [], ◌∷◌, ◌==◌, if◌then◌else◌, leb,
  nat_eq, Dict, lookup,
}

pub data Level : Type 0 where
  console detail info error : Level

-- The number of a level.
abbrev pub number : Level → ℕ
number Level.console = 10
number Level.detail = 20
number Level.info = 30
number Level.error = 40

pub data Kind : Type 0 where
  run_started run_finished knob boot console rpc phase_started phase_finished output case journal
        note error :
      Kind

-- A value in the `data` of an event.
pub data Value : Type 0 where
  text : String → Value
  count : ℕ → Value
  flag : Bool → Value
  names : List String → Value
  table : List (String × String) → Value

pub record Event : Type 0 where
  pub kind : Kind
  pub level : Level
  pub text : String
  pub machine : Option String
  pub phase : Option String
  pub seconds : Option ℕ
  pub fields : Dict Value

-- `event.level >= level`
unfoldable pub wanted : Event → Level → Bool
wanted event level = leb (number level) (number event.level)

-- `event.kind is Kind.CASE`, and the same of a finished phase.
abbrev pub is_case : Kind → Bool
is_case Kind.case = true
is_case _ = false

abbrev pub is_finished : Kind → Bool
is_finished Kind.phase_finished = true
is_finished _ = false

-- The text of a value; the fields that are read as text hold one.
abbrev value_text : Value → String
value_text (Value.text t) = t
value_text _ = ""

-- `event.data.get(key, default)`
unfoldable pub field_or : String → String → Event → String
unfolding lookup
field_or key default event = elim (lookup key event.fields) [
  | some v ↦ value_text v
  | none ↦ default
]

-- `a or b`, for texts
unfoldable pub or_else : String → String → String
or_else a b = if a == "" then b else a

-- The truth of a value.
abbrev truth : Value → Bool
truth (Value.text t) = not (t == "")
truth (Value.count n) = not (nat_eq n 0)
truth (Value.flag b) = b
truth (Value.names []) = false
truth (Value.names (_ ∷ _)) = true
truth (Value.table []) = false
truth (Value.table (_ ∷ _)) = true

-- `event.data.get("by_hand")`, as a test
unfoldable pub by_hand : Event → Bool
unfolding lookup
by_hand event = elim (lookup "by_hand" event.fields) [ some v ↦ truth v | none ↦ false ]
