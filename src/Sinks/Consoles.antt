-- ===== src/Sinks/Consoles.antt =====
-- What is in each guest's console file.
use user_mode_nixos.Prelude.{
  String, ◌≡◌, refl, ◌∙◌, sym, ap, inl, inr, Bool, false, Option, none, some, List, [], ◌∷◌, ◌++◌,
  ◌==◌, if◌then◌else◌, Bool-cases, Dict, lookup, lookup-insert, eq_iff,
}
use mathlib.Core.List.{append_assoc, append-nil}
use user_mode_nixos.Events.{Event}
use user_mode_nixos.Sinks.{speaker, opened, write_to, console_files}

abbrev spoke : String → Option String → Bool
spoke m none = false
spoke m (some n) = n == m

-- The console lines of one guest, in order.
abbrev pub said : String → List Event → List String
said m [] = []
said m (e ∷ es) = if spoke m (speaker e.kind e.machine) then e.text ∷ said m es else said m es

abbrev pub write_all : List Event → Dict (List String) → Dict (List String)
write_all [] files = files
write_all (e ∷ es) files = write_all es (console_files e files)

lookup-write_to :
    (m : String) (who : Option String) (text : String) (files : Dict (List String))
    → opened (lookup m (write_to who text files))
      ≡ opened (lookup m files) ++ (if spoke m who then text ∷ [] else [])
unfolding write_to
lookup-write_to m none text files = sym (append-nil (opened (lookup m files)))
lookup-write_to m (some n) text files =
    let put = lookup-insert n m (opened (lookup n files) ++ text ∷ []) files in
    elim (Bool-cases (n == m)) [
      | inl same ↦ let e : n ≡ m = (eq_iff n m).0 same in ap opened put ∙ rw (same, e) refl
      | inr other ↦ ap opened put ∙ rw (other, append-nil (opened (lookup m files))) refl
    ]

console_files-lookup :
    (m : String) (e : Event) (files : Dict (List String))
    → opened (lookup m (console_files e files))
      ≡ opened (lookup m files) ++ (if spoke m (speaker e.kind e.machine) then e.text ∷ [] else [])
unfolding console_files
console_files-lookup m e files = lookup-write_to m (speaker e.kind e.machine) e.text files

said-cons :
    (m : String) (e : Event) (es : List Event)
    → said m (e ∷ es)
      ≡ (if spoke m (speaker e.kind e.machine) then e.text ∷ [] else []) ++ said m es
said-cons m e es = elim (Bool-cases (spoke m (speaker e.kind e.machine))) [
  | inl h ↦ rw h refl
  | inr h ↦ rw h refl
]

-- Behind what it held, the file of a guest has the lines of its own console, in order, and none of
-- another guest.
pub consoles_apart :
    (m : String) (es : List Event) (files : Dict (List String))
    → opened (lookup m (write_all es files)) ≡ opened (lookup m files) ++ said m es
consoles_apart m [] files = sym (append-nil _)
consoles_apart m (e ∷ es) files =
    let own = if spoke m (speaker e.kind e.machine) then e.text ∷ [] else [] in
    consoles_apart m es (console_files e files)
    ∙ (ap (λ r. r ++ said m es) (console_files-lookup m e files)
        ∙ (append_assoc (opened (lookup m files)) own (said m es)
            ∙ ap (λ r. opened (lookup m files) ++ r) (sym (said-cons m e es))))
