-- ===== src/Machine/Console/Found.antt =====
-- Which lines a wait sees, and how many are kept.
use user_mode_nixos.Prelude.{
  ℕ, ◌-◌, ◌≤◌, String, ◌==◌, Bool, true, false, Option, none, some, List, [], ◌∷◌, ◌++◌,
  if◌then◌else◌, length, drop, length-drop, ◌≡◌, refl, inl, inr, Bool-cases, Option-cases, arith,
}
use user_mode_nixos.Machine.Console.{
  Read, Console, Next, Waited, console_history, remember, pump_line, pump_console, first_match,
  take_lines, wait_for_line,
}

remember-bound :
    (bound : ℕ) (l : String) (history : List String) → length (remember bound l history) ≤ bound
unfolding remember
remember-bound bound l history =
    let longer = history ++ (l ∷ []) in omega (arith, length-drop (length longer - bound) longer)

-- The last lines of a list: what is left behind `n` of them.
abbrev pub last : ℕ → List String → List String
last n ls = drop (length ls - n) ls

pump_line-bound :
    (cleaned : String → String) (raw : String) (c : Console)
    → length c.history ≤ console_history
    → length (pump_line cleaned raw c).history ≤ console_history
unfolding pump_line
pump_line-bound cleaned raw c h = elim (Bool-cases (cleaned raw == "")) [
  | inl e ↦ rw e h
  | inr e ↦ rw e (remember-bound console_history (cleaned raw) c.history)
]

-- However much the guest prints, no more than 2000 lines of its console are kept.
pub history_bounded :
    (cleaned : String → String) (reads : List Read) (c : Console)
    → length c.history ≤ console_history
    → length (pump_console cleaned reads c).history ≤ console_history
unfolding pump_console
history_bounded cleaned [] c h = h
history_bounded cleaned (Read.ended ∷ reads) c h = h
history_bounded cleaned (Read.too_long ∷ reads) c h = history_bounded cleaned reads c h
history_bounded cleaned (Read.line raw ∷ reads) c h =
    history_bounded cleaned reads (pump_line cleaned raw c) (pump_line-bound cleaned raw c h)

-- The lines to come before the guest is seen to have exited.
abbrev pub arriving : List Next → List String
arriving [] = []
arriving (Next.got l ∷ next) = l ∷ arriving next
arriving (Next.nothing true ∷ next) = []
arriving (Next.nothing false ∷ next) = arriving next

abbrev pub exits : List Next → Bool
exits [] = false
exits (Next.got l ∷ next) = exits next
exits (Next.nothing true ∷ next) = true
exits (Next.nothing false ∷ next) = exits next

-- The line that a wait returned.
abbrev pub line_of : Waited → Option String
line_of (Waited.found l _) = some l
line_of _ = none

first_match-append :
    (p : String → Bool) (xs ys : List String)
    → first_match p (xs ++ ys)
      ≡ elim (first_match p xs) [ some l ↦ some l | none ↦ first_match p ys ]
unfolding first_match
first_match-append p [] ys = refl
first_match-append p (x ∷ xs) ys = ground (arith, first_match-append p xs ys)

take_lines-line :
    (p : String → Bool) (next : List Next)
    → line_of (take_lines p next) ≡ first_match p (arriving next)
unfolding take_lines first_match
take_lines-line p [] = refl
take_lines-line p (Next.got l ∷ next) = ground (arith, take_lines-line p next)
take_lines-line p (Next.nothing true ∷ next) = refl
take_lines-line p (Next.nothing false ∷ next) = take_lines-line p next

take_lines-exited :
    (p : String → Bool) (next : List Next)
    → first_match p (arriving next) ≡ none
    → take_lines p next ≡ (if exits next then Waited.guest_exited else Waited.waiting)
unfolding take_lines first_match
take_lines-exited p [] h = refl
take_lines-exited p (Next.got l ∷ next) h = elim (Bool-cases (p l)) [
  | inl e ↦ let no : some l ≡ none = rw e at h in cc
  | inr e ↦
      rw e
        (take_lines-exited p next (let k : first_match p (arriving next) ≡ none = rw e at h in k))
]
take_lines-exited p (Next.nothing true ∷ next) h = refl
take_lines-exited p (Next.nothing false ∷ next) h = take_lines-exited p next h

-- A wait for a line returns the first line that matches, of those kept and then those that come
-- before the guest is seen to have exited; where none matches it fails if the guest exits, and
-- waits on if not.
pub wait_finds_first :
    (p : String → Bool) (history : List String) (next : List Next)
    → (line_of (wait_for_line p history next) ≡ first_match p (history ++ arriving next))
      × (first_match p (history ++ arriving next) ≡ none
          → wait_for_line p history next
            ≡ (if exits next then Waited.guest_exited else Waited.waiting))
unfolding wait_for_line
wait_finds_first p history next = elim (Option-cases (first_match p history)) [
  | inl e ↦ (
    ground (arith, first_match-append p history (arriving next), take_lines-line p next),
    λ h. ground (arith, first_match-append p history (arriving next), take_lines-exited p next),
  )
  | inr (l, e) ↦ (
    ground (arith, first_match-append p history (arriving next)),
    λ h. ground (arith, first_match-append p history (arriving next)),
  )
]
