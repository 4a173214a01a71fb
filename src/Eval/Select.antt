-- ===== src/Eval/Select.antt =====
-- `select` of pkgs/uml-eval/uml_eval/server.py: a query over a run's events. `json.loads` is a
-- parameter, and gives none where it raises.
pub mod Suffix
use user_mode_nixos.Prelude.{
  ℕ, zero, suc, ◌-◌, String, ◌==◌, Bool, true, false, ◌&&◌, Option, none, some, List, [], ◌∷◌,
  if◌then◌else◌, filter, length, drop,
}
use text.Mathlib.Text.{find?}

-- The fields of an event that a query looks at; `unit` and `case` are in its `data`.
pub record Event : Type 0 where
  pub kind : Option String
  pub machine : Option String
  pub phase : Option String
  pub unit : Option String
  pub case : String
  pub text : String

pub record Query : Type 0 where
  pub kind : Option String
  pub machine : Option String
  pub unit : Option String
  pub phase : Option String
  pub case : Option String
  pub contains : Option String

-- `wanted is not None and value != wanted`, negated.
abbrev pub equals : Option String → Option String → Bool
equals none value = true
equals (some w) none = false
equals (some w) (some v) = v == w

-- `wanted is not None and wanted not in text`, negated.
abbrev pub within : Option String → String → Bool
within none text = true
within (some w) text = elim (find? text w) [ none ↦ false | some _ ↦ true ]

-- The tests of the loop of `select`.
unfoldable pub matches : Query → Event → Bool
matches q e =
    equals q.kind e.kind
    && (equals q.machine e.machine
        && (equals q.phase e.phase
            && (equals q.unit e.unit && (within q.case e.case && within q.contains e.text))))

-- One turn of the loop of `select`.
abbrev pub keep : Query → Option Event → List Event → List Event
unfolding matches
keep q none rest = rest
keep q (some e) rest = if matches q e then e ∷ rest else rest

-- The loop of `select`.
unfoldable pub matching : (String → Option Event) → Query → List String → List Event
unfolding keep
matching loads q [] = []
matching loads q (l ∷ ls) = keep q (loads l) (matching loads q ls)

-- `select`; a limit below one, zero here, is none.
unfoldable pub select : (String → Option Event) → Query → ℕ → List String → List Event
unfolding matching
select loads q zero lines = matching loads q lines
select loads q (suc n) lines =
    let found = matching loads q lines in drop (length found - suc n) found
