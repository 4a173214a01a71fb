-- ===== src/Eval/Exit.antt =====
-- `why_it_exited` of pkgs/uml-eval/uml_eval/server.py, and `say` of its cli.py: what is shown of a
-- run that ended without a verdict. An output is its lines.
pub mod Shown
use Prim.Native.String.{◌++◌ as ◌<>◌}
use user_mode_nixos.Prelude.{
  ℕ, zero, suc, ◌-◌, String, Bool, true, false, Option, none, some, List, [], ◌∷◌, if◌then◌else◌,
  length, take, drop,
}
use text.Mathlib.Text.{starts_with}

abbrev pub is_failure : String → Bool
is_failure line = starts_with line "[uml] evaluation failed:"

-- The loop of `why_it_exited`: four lines from the first that says why.
unfoldable pub from_failure : List String → Option (List String)
from_failure [] = none
from_failure (line ∷ lines) =
    let later = from_failure lines in
    if is_failure line then some (take 4 (line ∷ lines)) else later

-- `text[-lines:]`, which is all of it where the count is zero.
abbrev pub last_lines : ℕ → List String → List String
last_lines zero lines = lines
last_lines (suc n) lines = drop (length lines - suc n) lines

abbrev pub shown_or : Option (List String) → List String → List String
shown_or (some shown) other = shown
shown_or none other = other

-- `why_it_exited`
unfoldable pub why_it_exited : ℕ → List String → List String
unfolding from_failure
why_it_exited n lines = shown_or (from_failure lines) (last_lines n lines)
