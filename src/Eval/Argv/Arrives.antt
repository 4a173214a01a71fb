-- ===== src/Eval/Argv/Arrives.antt =====
-- What a run is started with arrives where it is read.
use user_mode_nixos.Prelude.{
  String, ◌==◌, Bool, false, Option, some, List, [], ◌∷◌, ◌++◌, any, ◌≡◌, refl, sym, ap, ◌∙◌, arith,
}
use mathlib.Core.List.{append_assoc}
use user_mode_nixos.Eval.Argv.{
  split_attr, Start, argv_head, argv_options, argv_pytest, run_argv, at_dashes, Known, parse,
}

abbrev pub is_dashes : String → Bool
is_dashes a = a == "--"

at_dashes-append :
    (front args : List String)
    → any is_dashes front ≡ false
    → at_dashes (front ++ argv_pytest args) ≡ (front, argv_pytest args)
unfolding at_dashes argv_pytest
at_dashes-append [] [] h = refl
at_dashes-append [] (a ∷ args) h = refl
at_dashes-append (f ∷ front) args h =
    let here : is_dashes f ≡ false = ground arith in
    let rest = at_dashes-append front args (ground arith) in rw (here, rest) refl

-- The arguments for pytest that a run is started with arrive untouched behind everything else, and
-- `argparse` is given all the other words, if none of those is `--`.
pub pytest_args_arrive :
    (bin_dir python : String) (s : Start) (parse_known_args : List String → Option Known)
    (known : Known) (program : String) (words : List String)
    → argv_head bin_dir python s ≡ some (program ∷ words)
    → any is_dashes (words ++ argv_options s) ≡ false
    → parse_known_args (words ++ argv_options s) ≡ some known
    → split_attr known.attr ≡ some known.attr
    → (argv : List String) × (run_argv bin_dir python s ≡ some (program ∷ argv))
      × (parse parse_known_args argv
          ≡ some (record {
            command = known.command;
            file = known.file;
            attr = known.attr;
            rest = known.unknown ++ argv_pytest s.pytest_args;
          }))
unfolding run_argv parse
pytest_args_arrive bin_dir python s parse_known_args known program words h n k a =
    let behind = argv_pytest s.pytest_args in
    let argv = words ++ (argv_options s ++ behind) in
    let cut : at_dashes argv ≡ (words ++ argv_options s, behind) =
      ap at_dashes (sym (append_assoc words (argv_options s) behind))
      ∙ at_dashes-append (words ++ argv_options s) s.pytest_args n in
    (argv, rw h refl, rw (cut, k, a) refl)
