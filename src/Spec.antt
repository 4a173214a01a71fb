-- ===== src/Spec.antt =====
-- pkgs/uml/uml/spec.py: what Nix hands the runner. Paths are texts.
use user_mode_nixos.Prelude.{String, Bool, true, false, Option, none, some, List, if◌then◌else◌}

-- `PytestSpec`: a test file or directory, and pytest's own arguments.
pub record PytestSpec : Type 0 where
  pub tests : String
  pub args : List String

-- `PhaseSpec`, its fields in the order of the source.
pub record PhaseSpec : Type 0 where
  pub name : String
  pub script : Option String
  pub pytest : Option PytestSpec
  pub after : List String
  pub nodes : List String
  pub always : Bool

-- `x is None`
abbrev pub is_none {ℓ} : {A : Type ℓ} → Option A → Bool
is_none none = true
is_none (some _) = false

abbrev same : Bool → Bool → Bool
same true b = b
same false true = false
same false false = true

-- `PhaseSpec._one_kind`: the validator accepts a phase with exactly one of script and pytest.
unfoldable pub one_kind : PhaseSpec → Bool
one_kind p = if same (is_none p.script) (is_none p.pytest) then false else true
