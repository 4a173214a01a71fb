-- ===== src/Phases.antt =====
-- pkgs/uml/uml/phases.py: which phases run, and which a failure takes with it.
-- A Python set of names is a list without order; a `dict` is an association list.
mod State
pub mod Dependents
pub mod Ready
pub mod Launch
pub mod Verdict
pub use State.{PhaseState, is_pending, unfinished, good, same_state, every_state, word}
use user_mode_nixos.Prelude.{
  ℕ, zero, suc, String, Bool, true, false, not, ◌&&◌, ◌||◌, Option, none, some, List, [], ◌∷◌, map,
  if◌then◌else◌, nat_eq, length, filter, all, elem, union, discard, overlap, Dict, lookup, join,
  concat, show,
}
use user_mode_nixos.Spec.{PhaseSpec, is_none}

-- `found | {phase.name for phase in phases if not phase.always and found & set(phase.after)}`
unfoldable pub grown : List String → List PhaseSpec → List String
grown found phases =
    union found (map (λ p. p.name) (filter (λ p. not p.always && overlap found p.after) phases))

-- `grown == found`, for sets
abbrev pub same_set : List String → List String → Bool
same_set a b = all (λ x. elem x b) a && all (λ x. elem x a) b

-- The `while True` loop of `dependents`, with the rounds left: see `Phases.Dependents`.
dependents_loop : ℕ → String → List PhaseSpec → List String → List String
unfolding grown
dependents_loop zero name phases found = discard name found
dependents_loop (suc rounds) name phases found =
    let next = grown found phases in
    let rest = dependents_loop rounds name phases next in
    if same_set next found then discard name found else rest

-- Every round but the last finds the name of one more phase.
unfoldable pub dependents : String → List PhaseSpec → List String
unfolding dependents_loop
dependents name phases = dependents_loop (suc (length phases)) name phases (name ∷ [])

abbrev pub skipped_by : String → List PhaseSpec → List String
skipped_by failed phases = dependents failed phases

-- `state.get(name, PhaseState.PENDING)`
unfoldable pub state_of : Dict PhaseState → String → PhaseState
state_of state name = elim (lookup name state) [ none ↦ PhaseState.pending | some s ↦ s ]

unfoldable pub runnable : List PhaseSpec → Dict PhaseState → List PhaseSpec
runnable phases state = filter (λ p. is_pending (state_of state p.name)) phases

unfoldable pub ready : List PhaseSpec → Dict PhaseState → List PhaseSpec
unfolding runnable
ready phases state =
    filter (λ p. all (λ name. not (unfinished (state_of state name))) p.after)
      (runnable phases state)

abbrev pub is_empty : List String → Bool
is_empty [] = true
is_empty (_ ∷ _) = false

-- The guests that a phase holds while it runs, `every` being all of them.
unfoldable pub claims : PhaseSpec → List String → List String
claims p every = if not (is_none p.pytest) || is_empty p.nodes then every else p.nodes

-- `for phase in running: held |= claims(phase, every)`
unfoldable pub held_by : List String → List String → List PhaseSpec → List String
held_by every held [] = held
held_by every held (p ∷ ps) = held_by every (union held (claims p every)) ps

-- the loop over `ready`
unfoldable pub launch_loop : List String → List String → List PhaseSpec → List PhaseSpec
launch_loop every held [] = []
launch_loop every held (p ∷ ps) =
    let wants = claims p every in
    let skip = launch_loop every held ps in
    let take = p ∷ launch_loop every (union held wants) ps in
    if overlap held wants then skip else take

unfoldable pub launchable : List PhaseSpec → List PhaseSpec → List String → List PhaseSpec
unfolding launch_loop held_by
launchable waiting running every = launch_loop every (held_by every [] running) waiting

abbrev pub values : Dict PhaseState → List PhaseState
values = map (λ e. e.1)

-- `passed`: a skipped phase is not a pass, a deselected one is.
unfoldable pub passed : Dict PhaseState → Bool
passed state = all good (values state)

-- The counts of `summarise`, a row for each outcome that occurs, in the order of the enumeration.
unfoldable pub summary_rows : Dict PhaseState → List (ℕ × PhaseState)
summary_rows state =
    filter (λ row. not (nat_eq row.0 0))
      (map (λ key. (length (filter (same_state key) (values state)), key)) every_state)

unfoldable pub summarise : Dict PhaseState → String
unfolding summary_rows join concat show
summarise state =
    join ", " (map (λ row. concat (show row.0 ∷ " " ∷ word row.1 ∷ [])) (summary_rows state))
