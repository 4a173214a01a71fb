-- ===== src/Sinks.antt =====
-- pkgs/uml/uml/sinks.py: who is told of an event. A sink is its state and what an event makes of it,
-- nothing where it raises. A file is the list of the lines written to it.
pub mod Isolation
pub mod Consoles
use user_mode_nixos.Prelude.{
  ℕ, String, Bool, true, false, not, ◌||◌, Option, none, some, List, [], ◌∷◌, ◌++◌, ◌==◌,
  if◌then◌else◌, Dict, lookup, insert,
}
use user_mode_nixos.Events.{Event, Kind, Level, wanted, is_case, is_finished}
use user_mode_nixos.Events.Render.{render}
use user_mode_nixos.Events.Junit.{junit}

-- A sink of `Broadcast`, and whether it is in `_broken`.
pub record Listener (A : Type 0) : Type 0 where
  pub handler : Event → A → Option A
  pub memory : A
  pub broken : Bool

-- What the answer of a sink makes of it: one that raised is not asked again.
abbrev pub answered : {A : Type 0} → Listener A → Option A → Listener A
answered l none = record l { broken = true }
answered l (some memory) = record l { memory = memory }

-- One round of the loop of `Broadcast.emit`.
unfoldable pub tell : {A : Type 0} → Event → Listener A → Listener A
tell e l = if l.broken then l else answered l (l.handler e l.memory)

-- `Broadcast.emit`
unfoldable pub broadcast : {A : Type 0} → Event → List (Listener A) → List (Listener A)
unfolding tell
broadcast e [] = []
broadcast e (l ∷ ls) = tell e l ∷ broadcast e ls

-- The events of a run, one after the other.
unfoldable pub broadcast_all : {A : Type 0} → List Event → List (Listener A) → List (Listener A)
unfolding broadcast
broadcast_all [] ls = ls
broadcast_all (e ∷ es) ls = broadcast_all es (broadcast e ls)

-- `Terminal.emit`: the lines on the terminal.
unfoldable pub terminal : (String → String) → Level → Event → List String → List String
unfolding wanted render
terminal upper level e printed =
    if not (wanted e level) then printed else printed ++ render upper e ∷ []

-- `Log.emit`
unfoldable pub log : (String → String) → Event → List String → List String
unfolding render
log upper e lines = lines ++ render upper e ∷ []

-- `event.kind is not Kind.CONSOLE or not event.machine`, negated: the machine that spoke.
abbrev pub speaker : Kind → Option String → Option String
speaker Kind.console (some m) = if m == "" then none else some m
speaker _ _ = none

abbrev pub opened : Option (List String) → List String
opened none = []
opened (some lines) = lines

unfoldable pub write_to : Option String → String → Dict (List String) → Dict (List String)
unfolding insert lookup
write_to none text files = files
write_to (some m) text files = insert m (opened (lookup m files) ++ text ∷ []) files

-- `ConsoleFiles.emit`: a file is opened empty at the first line of its guest.
unfoldable pub console_files : Event → Dict (List String) → Dict (List String)
unfolding write_to
console_files e files = write_to (speaker e.kind e.machine) e.text files

-- `Junit.emit` and `Junit.close`
unfoldable pub junit_emit : Event → List Event → List Event
junit_emit e events = if is_finished e.kind || is_case e.kind then events ++ e ∷ [] else events

unfoldable pub junit_close : (String → String) → String → List Event → String
unfolding junit
junit_close first_line name events = junit first_line name events
