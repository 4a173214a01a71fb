-- ===== src/Events/Render.antt =====
-- `render` of pkgs/uml/uml/events.py: an event as a line for a person.
use user_mode_nixos.Prelude.{
  ℕ, String, Option, none, some, [], ◌∷◌, ◌==◌, if◌then◌else◌, nat_eq, concat, hundredths,
}
use user_mode_nixos.Events.{Event, Kind, field_or, or_else}

-- `[{event.machine}] ...`, where the event has a machine.
abbrev tagged : Option String → String → String → String
tagged none said other = other
tagged (some m) said other = if m == "" then other else concat ("[" ∷ m ∷ "] " ∷ said ∷ [])

-- ` ({event.seconds:.2f}s)`, where the event took time.
abbrev took_text : Option ℕ → String
took_text none = ""
took_text (some ms) = if nat_eq ms 0 then "" else concat (" (" ∷ hundredths ms ∷ "s)" ∷ [])

abbrev plain : Event → String
plain e = concat ("[uml] " ∷ e.text ∷ [])

-- `render`. The capitals of an outcome are a parameter: `str.upper` knows every alphabet.
unfoldable pub render : (String → String) → Event → String
unfolding concat hundredths field_or or_else
render upper e = elim e.kind [
  | Kind.console ↦ tagged e.machine e.text (plain e)
  | Kind.journal ↦
      tagged e.machine
        (concat (
          or_else (field_or "unit" "" e) (or_else (field_or "identifier" "" e) "journal")
          ∷ ": "
          ∷ e.text
          ∷ []))
        (plain e)
  | Kind.phase_started ↦ concat ("[phase] " ∷ e.text ∷ [])
  | Kind.phase_finished ↦ concat ("[phase] " ∷ e.text ∷ [])
  | Kind.case ↦
      concat ("[case] " ∷ upper (field_or "outcome" "" e) ∷ " " ∷ e.text ∷ took_text e.seconds ∷ [])
  | Kind.rpc ↦ tagged e.machine (concat ("$ " ∷ e.text ∷ [])) (plain e)
  | Kind.error ↦ concat ("[error] " ∷ e.text ∷ [])
  | Kind.output ↦ e.text
  | _ ↦ plain e
]
