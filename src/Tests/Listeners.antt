-- ===== src/Tests/Listeners.antt =====
-- Sinks of a concrete run.
use user_mode_nixos.Prelude.{String, ◌≡◌, false, none, some, List, [], ◌∷◌, ◌++◌, map, lookup}
use user_mode_nixos.Events.{Event, Kind, Level}
use user_mode_nixos.Sinks.{Listener, broadcast_all, opened}
use user_mode_nixos.Sinks.Isolation.{after, broadcast_isolates}
use user_mode_nixos.Sinks.Consoles.{said, write_all, consoles_apart}

abbrev line : String → String → Event
line machine text = record {
  kind = Kind.console;
  level = Level.console;
  text = text;
  machine = some machine;
  phase = none;
  seconds = none;
  fields = [];
}

abbrev lines : List Event
lines = line "cp" "one" ∷ line "worker" "two" ∷ line "cp" "three" ∷ []

abbrev keeper : Listener (List String)
keeper = record { handler = λ e m. some (m ++ e.text ∷ []); memory = []; broken = false }

abbrev full_disk : Listener (List String)
full_disk = record { handler = λ e m. none; memory = []; broken = false }

broadcast_isolates_example :
    broadcast_all lines (full_disk ∷ keeper ∷ []) ≡ map (after lines) (full_disk ∷ keeper ∷ [])
broadcast_isolates_example = broadcast_isolates lines (full_disk ∷ keeper ∷ [])

consoles_apart_sample :
    opened (lookup "cp" (write_all lines [])) ≡ opened (lookup "cp" []) ++ said "cp" lines
consoles_apart_sample = consoles_apart "cp" lines []
