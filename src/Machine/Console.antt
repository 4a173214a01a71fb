-- ===== src/Machine/Console.antt =====
-- `Machine._pump_console` and `_wait_for_line`: the guest's console, and a line waited for. Whether
-- a line matches the pattern is an argument, as is a line's text without its colour codes.
pub mod Found
use user_mode_nixos.Prelude.{
  ℕ, zero, suc, ◌-◌, String, ◌==◌, Bool, true, false, Option, none, some, List, [], ◌∷◌, ◌++◌,
  if◌then◌else◌, length, drop,
}

-- What a read of the process's output gives: a line, one over the stream's limit, or the end.
pub data Read : Type 0 where
  line : String → Read
  too_long : Read
  ended : Read

-- `_history`, which holds the last lines, `_console`, the queue, and what was logged.
pub record Console : Type 0 where
  pub history : List String
  pub queue : List String
  pub logged : List String

-- `_CONSOLE_HISTORY`
abbrev pub console_history : ℕ
console_history = 2000

-- `deque(maxlen=…).append`
unfoldable pub remember : ℕ → String → List String → List String
remember bound l history = let longer = history ++ (l ∷ []) in drop (length longer - bound) longer

-- One turn of `_pump_console`.
unfoldable pub pump_line : (String → String) → String → Console → Console
unfolding remember
pump_line cleaned raw c =
    let l = cleaned raw in
    if l == "" then c else record {
      history = remember console_history l c.history;
      queue = c.queue ++ (l ∷ []);
      logged = c.logged ++ (l ∷ []);
    }

-- `_pump_console`: it ends at the end of the output, and skips a line that is too long.
unfoldable pub pump_console : (String → String) → List Read → Console → Console
pump_console cleaned [] c = c
pump_console cleaned (Read.ended ∷ _) c = c
pump_console cleaned (Read.too_long ∷ reads) c = pump_console cleaned reads c
pump_console cleaned (Read.line raw ∷ reads) c =
    pump_console cleaned reads (pump_line cleaned raw c)

-- What the wait on the queue gives next: a line, or half a second of nothing, after which the
-- process is seen to run or to have exited.
pub data Next : Type 0 where
  got : String → Next
  nothing : Bool → Next

-- How `_wait_for_line` ends, or that it still waits; and what of the input is left.
pub data Waited : Type 0 where
  found : String → List Next → Waited
  guest_exited : Waited
  waiting : Waited

unfoldable pub first_match : (String → Bool) → List String → Option String
first_match matches [] = none
first_match matches (l ∷ ls) =
    let later = first_match matches ls in if matches l then some l else later

-- The `while` of `_wait_for_line`.
unfoldable pub take_lines : (String → Bool) → List Next → Waited
take_lines matches [] = Waited.waiting
take_lines matches (Next.got l ∷ next) =
    let later = take_lines matches next in if matches l then Waited.found l next else later
take_lines matches (Next.nothing exited ∷ next) =
    let later = take_lines matches next in if exited then Waited.guest_exited else later

-- `_wait_for_line`: the lines kept, then those to come.
unfoldable pub wait_for_line : (String → Bool) → List String → List Next → Waited
unfolding first_match take_lines
wait_for_line matches history next = elim (first_match matches history) [
  | some l ↦ Waited.found l next
  | none ↦ take_lines matches next
]

-- `list(self._history)[-lines:]` of `_console_tail`.
unfoldable pub console_tail : ℕ → List String → List String
console_tail lines history =
    if ltb_zero lines then history else drop (length history - lines) history
  where
    ltb_zero : ℕ → Bool
    ltb_zero zero = true
    ltb_zero (suc _) = false
