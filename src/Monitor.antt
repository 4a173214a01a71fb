-- ===== src/Monitor.antt =====
-- `status` and `follow` of pkgs/uml/uml/monitor.py: a watcher of a run, until its verdict.
-- `json.loads` is a parameter; what it gives is a dictionary of texts, or nothing where it raises.
pub mod Whole
use user_mode_nixos.Prelude.{
  Bytes, ℕ, String, Bool, true, false, Option, none, some, List, [], ◌∷◌, ◌++◌, ◌==◌, if◌then◌else◌,
  Dict, lookup,
}
use user_mode_nixos.Journal.Lines.{pieces}

abbrev has_text : String → Option String → Bool
has_text text none = false
has_text text (some t) = t == text

-- `status`: 0 passed, 1 failed, 2 exited with no verdict.
unfoldable pub status : Dict String → Option ℕ
unfolding lookup
status event =
    let kind = lookup "event" event in
    if has_text "finished" kind
    then some (if has_text "true" (lookup "passed" event) then 0 else 1)
    else if has_text "exited" kind
    then some 2
    else none

-- How `follow` ends: with an exit status, or with the error of `json.loads`.
pub data Ending : Type 0 where
  code : ℕ → Ending
  not_json : Bytes → Ending

-- The end that one event means.
unfoldable pub ending : Option ℕ → Option Ending
ending none = none
ending (some n) = some (Ending.code n)

-- A printed event, and what follows where it is not the end.
abbrev pub stop_at :
    Dict String
    → Option Ending
    → List (Dict String) × Option Ending
    → List (Dict String) × Option Ending
stop_at event none (printed, end) = (event ∷ printed, end)
stop_at event (some stop) later = (event ∷ [], some stop)

-- One round of the loop over complete lines.
abbrev pub visit :
    Bytes
    → Option (Dict String)
    → List (Dict String) × Option Ending
    → List (Dict String) × Option Ending
visit l none later = ([], some (Ending.not_json l))
visit l (some event) later = stop_at event (ending (status event)) later

-- The loop over complete lines: the events printed, and the end if one was reached.
unfoldable pub scan :
    (Bytes → Option (Dict String)) → List Bytes → List (Dict String) × Option Ending
scan loads [] = ([], none)
scan loads (l ∷ ls) = visit l (loads l) (scan loads ls)

-- After one read: the end, or the rest of the reads.
abbrev pub or_later :
    List (Dict String) × Option Ending → List (Dict String) × Ending → List (Dict String) × Ending
or_later (printed, some stop) later = (printed, stop)
or_later (printed, none) (more, stop) = (printed ++ more, stop)

-- `follow`, from a buffer on, over what `receive` gives until the stream is closed.
unfoldable pub follow :
    (Bytes → Option (Dict String)) → Bytes → List Bytes → List (Dict String) × Ending
unfolding scan
follow loads buffer [] = ([], Ending.code 3)
follow loads buffer (chunk ∷ chunks) =
    let cut = pieces (buffer ++ chunk) in or_later (scan loads cut.0) (follow loads cut.1 chunks)
