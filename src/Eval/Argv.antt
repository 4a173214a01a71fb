-- ===== src/Eval/Argv.antt =====
-- `run_argv` of pkgs/uml-eval/uml_eval/server.py, and `split_attr` and `parse` of its cli.py: the
-- command line of a run, and what is read of it. An attribute path is given by its parts between
-- the dots. `argparse` is a parameter: what it gives for the words before `--`.
pub mod Arrives
use Prim.Native.String.{◌++◌ as ◌<>◌}
use user_mode_nixos.Prelude.{
  String, ◌==◌, Bool, true, false, not, Option, none, some, List, [], ◌∷◌, ◌++◌, ◌>>=◌,
  if◌then◌else◌, all, join,
}

-- `split_attr`: every part has something in it.
unfoldable pub split_attr : List String → Option (List String)
split_attr parts = if all (λ p. not (p == "")) parts then some parts else none

-- What a run is started from: an attribute of a file, or a spec with the runner that it names.
pub record Start : Type 0 where
  pub out : String
  pub attr : Option (List String)
  pub spec : Option String
  pub file : String
  pub breaks : List String
  pub break_on_failure : Bool
  pub only : List String
  pub offline : Bool
  pub pytest_args : List String
  pub runner : Option String
  pub kernel : Option String

-- `argv += [flag, name]` for each name.
unfoldable pub repeated : String → List String → List String
repeated flag [] = []
repeated flag (n ∷ ns) = flag ∷ n ∷ repeated flag ns

abbrev when_set : String → Option String → List String
when_set flag none = []
when_set flag (some v) = flag ∷ v ∷ []

-- The head of the command line, for a Python and its directory; none where it raises.
unfoldable pub argv_head : String → String → Start → Option (List String)
unfolding split_attr join
argv_head bin_dir python s = elim s.attr [
  | none ↦ elim s.spec [
    | none ↦ none
    | some spec ↦ elim s.runner [
      | some runner ↦ some ((runner <> "/bin/uml") ∷ "run" ∷ "--spec" ∷ spec ∷ [])
      | none ↦ some (python ∷ "-m" ∷ "uml.cli" ∷ "run" ∷ "--spec" ∷ spec ∷ [])
    ]
  ]
  | some attr ↦ elim s.spec [
    | some _ ↦ none
    | none ↦ elim (split_attr attr) [
      | none ↦ none
      | some _ ↦ some ((bin_dir <> "/uml-eval") ∷ "run" ∷ join "." attr ∷ "--file" ∷ s.file ∷ [])
    ]
  ]
]

-- The options behind the head.
unfoldable pub argv_options : Start → List String
unfolding repeated
argv_options s =
    ("--out" ∷ s.out ∷ [])
    ++ (repeated "--break" s.breaks
        ++ (repeated "--only" s.only
            ++ ((if s.break_on_failure then "--break-on-failure" ∷ [] else [])
                ++ ((if s.offline then "--offline" ∷ [] else []) ++ when_set "--kernel" s.kernel))))

-- `["--", *pytest_args]`, if there are any.
unfoldable pub argv_pytest : List String → List String
argv_pytest [] = []
argv_pytest (a ∷ args) = "--" ∷ a ∷ args

-- `run_argv`
unfoldable pub run_argv : String → String → Start → Option (List String)
unfolding argv_head argv_options argv_pytest
run_argv bin_dir python s = do
  head ← argv_head bin_dir python s
  some (head ++ (argv_options s ++ argv_pytest s.pytest_args))

-- The words before the first `--`, and the rest with it.
unfoldable pub at_dashes : List String → List String × List String
at_dashes [] = ([], [])
at_dashes (a ∷ argv) =
    let rest = at_dashes argv in if a == "--" then ([], a ∷ argv) else (a ∷ rest.0, rest.1)

-- What `argparse` gives: the command, the file, the attribute, and what it does not know.
pub record Known : Type 0 where
  pub command : String
  pub file : String
  pub attr : List String
  pub unknown : List String

pub record Request : Type 0 where
  pub command : String
  pub file : String
  pub attr : List String
  pub rest : List String

-- `parse`; none where the parser exits.
unfoldable pub parse : (List String → Option Known) → List String → Option Request
unfolding at_dashes split_attr
parse parse_known_args argv = do
  known ← parse_known_args (at_dashes argv).0
  attr ← split_attr known.attr
  some (record {
    command = known.command;
    file = known.file;
    attr = attr;
    rest = known.unknown ++ (at_dashes argv).1;
  })
