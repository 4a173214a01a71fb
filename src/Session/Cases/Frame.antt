-- ===== src/Session/Cases/Frame.antt =====
-- What the evidence of a phase leaves alone in the session.
use user_mode_nixos.Prelude.{
  ℕ, String, Option, none, some, List, [], ◌∷◌, arith, nat_eq, not, length,
}
use user_mode_nixos.Spec.{is_none}
use user_mode_nixos.JunitIn.{Case}
use user_mode_nixos.Session.{Session, selected}
use user_mode_nixos.Session.Frame.{IsQuiet, quiet, IsQuiet-trans, IsQuiet-if, emit-IsQuiet}
use user_mode_nixos.Session.Cases.{
  JunitFile, Parsed, cases, broken, emit_cases, emit_parsed, seen, read_file, take_file,
  cases_from_guests, tail_of, emit_lines, replay_one, replay_all, replay,
}

emit_cases-IsQuiet :
    (phase : String) (f : JunitFile) (cs : List Case) (s : Session)
    → IsQuiet s (emit_cases phase f cs s)
unfolding emit_cases
emit_cases-IsQuiet phase f [] s = quiet s
emit_cases-IsQuiet phase f (c ∷ cs) s =
    IsQuiet-trans (emit-IsQuiet _ s) (emit_cases-IsQuiet phase f cs _)

emit_parsed-IsQuiet :
    (phase : String) (f : JunitFile) (p : Parsed) (s : Session)
    → IsQuiet s (emit_parsed phase f p s)
unfolding emit_parsed
emit_parsed-IsQuiet phase f (cases cs) s = emit_cases-IsQuiet phase f cs s
emit_parsed-IsQuiet phase f (broken error) s = emit-IsQuiet _ s

mark-IsQuiet :
    (s : Session) (key : String × ℕ) → IsQuiet s (record s { junit_seen = key ∷ s.junit_seen })
mark-IsQuiet s key = ground arith

read_file-IsQuiet :
    (phase : String) (f : JunitFile) (modified : Option ℕ) (s : Session)
    → IsQuiet s (read_file phase f modified s)
unfolding read_file
read_file-IsQuiet phase f none s = quiet s
read_file-IsQuiet phase f (some modified) s =
    IsQuiet-if (seen f.path modified s.junit_seen) _ _ (quiet s)
      (IsQuiet-trans (mark-IsQuiet s (f.path, modified)) (emit_parsed-IsQuiet phase f f.parsed _))

pub cases_from_guests-IsQuiet :
    (phase : String) (nodes : Option (List String)) (fs : List JunitFile) (s : Session)
    → IsQuiet s (cases_from_guests phase nodes fs s)
unfolding cases_from_guests take_file
cases_from_guests-IsQuiet phase nodes [] s = quiet s
cases_from_guests-IsQuiet phase nodes (f ∷ fs) s =
    IsQuiet-trans
      (IsQuiet-if (not (selected nodes f.machine)) _ _ (quiet s)
        (read_file-IsQuiet phase f f.modified s))
      (cases_from_guests-IsQuiet phase nodes fs _)

emit_lines-IsQuiet :
    (machine : String) (ls : List String) (s : Session) → IsQuiet s (emit_lines machine ls s)
unfolding emit_lines
emit_lines-IsQuiet machine [] s = quiet s
emit_lines-IsQuiet machine (l ∷ ls) s =
    IsQuiet-trans (emit-IsQuiet _ s) (emit_lines-IsQuiet machine ls _)

replay_one-IsQuiet :
    (lines : ℕ) (machine : String) (history : List String) (s : Session)
    → IsQuiet s (replay_one lines machine history s)
unfolding replay_one
replay_one-IsQuiet lines machine history s =
    IsQuiet-if (nat_eq (length (tail_of lines history)) 0) _ _ (quiet s)
      (IsQuiet-trans (emit-IsQuiet _ s) (emit_lines-IsQuiet machine (tail_of lines history) _))

replay_all-IsQuiet :
    (lines : ℕ) (nodes : Option (List String)) (histories : List (String × List String))
    (s : Session)
    → IsQuiet s (replay_all lines nodes histories s)
unfolding replay_all
replay_all-IsQuiet lines nodes [] s = quiet s
replay_all-IsQuiet lines nodes ((machine, history) ∷ rest) s =
    IsQuiet-trans
      (IsQuiet-if (selected nodes machine) _ _ (replay_one-IsQuiet lines machine history s)
        (quiet s))
      (replay_all-IsQuiet lines nodes rest _)

pub replay-IsQuiet :
    (lines : ℕ) (nodes : Option (List String)) (histories : List (String × List String))
    (s : Session)
    → IsQuiet s (replay lines nodes histories s)
unfolding replay
replay-IsQuiet lines nodes histories s =
    IsQuiet-if (is_none s.vms) _ _ (quiet s) (replay_all-IsQuiet lines nodes histories s)
