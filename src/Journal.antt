-- ===== src/Journal.antt =====
-- pkgs/uml/uml/journal.py: a guest's journal, followed while the guest runs.
pub mod Lines
use user_mode_nixos.Prelude.{ℕ, String, Option, none, some, [], ◌∷◌, ◌++◌, if◌then◌else◌, leb, Dict}
use user_mode_nixos.Events.{Level, Value}

-- `SETTLE`: the identifier of the marker that `Session.settle` logs.
abbrev pub settle_marker : String
settle_marker = "uml-settle"

-- `Entry`. A priority and a process id are numbers.
pub record Entry : Type 0 where
  pub message : String
  pub priority : ℕ
  pub unit : Option String
  pub identifier : Option String
  pub pid : Option ℕ

abbrev optional {ℓ} : {A : Type ℓ} → String → (A → Value) → Option A → Dict Value
optional key wrap none = []
optional key wrap (some x) = (key, wrap x) ∷ []

-- `Entry.data`: the fields that a reader filters on, without the absent ones.
unfoldable pub fields : Entry → Dict Value
fields e =
    ("priority", Value.count e.priority)
    ∷ (optional "unit" Value.text e.unit
        ++ (optional "identifier" Value.text e.identifier ++ optional "pid" Value.count e.pid))

-- `level`: `err` and worse is shown at `-v`.
unfoldable pub level : Entry → Level
level e = if leb e.priority 3 then Level.detail else Level.console
