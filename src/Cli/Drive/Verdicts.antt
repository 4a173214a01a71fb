-- ===== src/Cli/Drive/Verdicts.antt =====
-- The verdict of a run: what was selected, and what a failed boot leaves.
use user_mode_nixos.Prelude.{
  ◌↔◌, ℕ, Bool, String, ◌≡◌, refl, ◌∙◌, ap, ◌⊎◌, inl, inr, true, false, not, ◌&&◌, none, some, List,
  [], ◌∷◌, Memᴰ, ◌==◌, if◌then◌else◌, Bool-cases, elem, arith, eq_iff, Dict, lookup, insert,
  lookup-insert, all, all-eq-true,
}
use user_mode_nixos.Spec.{PhaseSpec}
use user_mode_nixos.Phases.{PhaseState, passed, good, values}
use user_mode_nixos.Session.{Session, Reads, emit, drain, fresh, initial}
use user_mode_nixos.Events.{Kind, Level}
use user_mode_nixos.Session.Frame.{IsQuiet, IsQuiet-trans, emit-IsQuiet, drain-IsQuiet}
use user_mode_nixos.Session.Cases.Frame.{replay-IsQuiet}
use user_mode_nixos.Session.Run.{set_state, write_output}
use user_mode_nixos.Cli.Drive.{
  end_run, deselect_one, deselect, phase_names, no_phase_event, say_no_guests, finish_sequence,
  boot_failed,
}

lookup-deselect_one :
    (only : List String) (p : PhaseSpec) (s : Session) (n : String)
    → lookup n (deselect_one only p s).state ≡ (
        if p.name == n && not (elem p.name only)
        then some PhaseState.deselected
        else lookup n s.state)
unfolding deselect_one set_state emit
lookup-deselect_one only p s n =
    ground (arith, lookup-insert p.name n PhaseState.deselected s.state)

-- Selecting leaves a phase that is named as it is, and deselects each other phase of the spec.
pub deselect_exact :
    (only : List String) (phases : List PhaseSpec) (s : Session) (n : String)
    → lookup n (deselect only phases s).state ≡ (
        if elem n (phase_names phases) && not (elem n only)
        then some PhaseState.deselected
        else lookup n s.state)
unfolding deselect
deselect_exact only [] s n = refl
deselect_exact only (p ∷ ps) s n =
    let rest = deselect_exact only ps (deselect_one only p s) n in
    let one = lookup-deselect_one only p s n in
    ground (arith, rest, one, eq_iff p.name n, eq_iff n p.name)

-- A phase of the spec is pending at first.
lookup-initial :
    (n : String) (phases : List PhaseSpec) (d : Dict PhaseState)
    → (elem n (phase_names phases) ≡ true) ⊎ (lookup n d ≡ some PhaseState.pending)
    → lookup n (initial phases d) ≡ some PhaseState.pending
unfolding initial
lookup-initial n [] d (inl h) = cc
lookup-initial n [] d (inr h) = h
lookup-initial n (p ∷ ps) d h =
    let put = lookup-insert p.name n PhaseState.pending d in
    lookup-initial n ps (insert p.name PhaseState.pending d) (elim (Bool-cases (p.name == n)) [
      | inl same ↦ inr (put ∙ rw same refl)
      | inr other ↦ elim h [
        | inl in_names ↦ inl (ground (arith, eq_iff p.name n, eq_iff n p.name))
        | inr before ↦ inr (put ∙ rw other before)
      ]
    ])

lookup-mem :
    (n : String) (d : Dict PhaseState) (v : PhaseState) → lookup n d ≡ some v → Memᴰ v (values d)
unfolding lookup
lookup-mem n [] v h = cc
lookup-mem n ((k, w) ∷ d) v h = elim (Bool-cases (k == n)) [
  | inl same ↦ let e : some w ≡ some v = rw same at h in Memᴰ.head (let f : v ≡ w = cc in f)
  | inr other ↦ Memᴰ.tail (lookup-mem n d v (let e : lookup n d ≡ some v = rw other at h in e))
]

pending_fails :
    (n : String) (state : Dict PhaseState)
    → lookup n state ≡ some PhaseState.pending
    → passed state ≡ false
unfolding passed
pending_fails n state h = elim (Bool-cases (all good (values state))) [
  | inl every ↦
      let k = all-eq-true good (values state) every (lookup-mem n state PhaseState.pending h) in cc
  | inr other ↦ other
]

fresh-pending :
    (n : String) (phases : List PhaseSpec)
    → elem n (phase_names phases) ≡ true
    → lookup n (fresh phases).state ≡ some PhaseState.pending
unfolding fresh
fresh-pending n phases h = lookup-initial n phases [] (inl h)

pending_status :
    (n : String) (s : Session)
    → lookup n s.state ≡ some PhaseState.pending
    → (write_output s).0.status ≡ "1\n"
unfolding write_output
pending_status n s h = rw (pending_fails n s.state h) refl

say_no_guests-IsQuiet :
    (error : String) (histories : List (String × List String)) (s : Session)
    → IsQuiet s (say_no_guests error histories s)
unfolding say_no_guests
say_no_guests-IsQuiet error histories s =
    IsQuiet-trans (emit-IsQuiet (no_phase_event Kind.error Level.error _) s)
      (replay-IsQuiet 20 none histories (emit (no_phase_event Kind.error Level.error _) s))

-- Where the guests do not boot, a run that was asked for a phase of its spec is written down as
-- failed: the phase is still pending, whatever else was deselected.
pub boot_failed_fails :
    (phases : List PhaseSpec) (only : List String) (n error : String)
    (histories : List (String × List String)) (reads : Reads)
    → elem n (phase_names phases) ≡ true
    → elem n only ≡ true
    → (boot_failed error histories reads (deselect only phases (fresh phases))).0.status ≡ "1\n"
unfolding boot_failed finish_sequence
boot_failed_fails phases only n error histories reads h k =
    let start = deselect only phases (fresh phases) in
    let pending : lookup n start.state ≡ some PhaseState.pending =
      deselect_exact only phases (fresh phases) n ∙ rw (k, h) (fresh-pending n phases h) in
    let told = say_no_guests error histories start in
    let q =
      IsQuiet-trans (say_no_guests-IsQuiet error histories start) (drain-IsQuiet reads told) in
    pending_status n (drain reads told) (ap (lookup n) q.state ∙ pending)

abbrev exit_code : Bool → ℕ
exit_code b = if b then 0 else 1

abbrev status_text : Bool → String
status_text b = if b then "0\n" else "1\n"

zero_or_one : (b : Bool) → (exit_code b ≡ 0) ↔ (status_text b ≡ "0\n")
zero_or_one true = (λ _. refl, λ _. refl)
zero_or_one false = (
  λ h. absurd (let no : ⊥ = omega (arith, h) in no),
  λ h. absurd (let differ : false ≡ true = (eq_iff "1\n" "0\n").1 h in (let no : ⊥ = cc in no)),
)

-- The exit status of a run is 0 exactly when the file `status` that it wrote says so.
pub exit_status_agrees :
    (lines : List String) (reads : Reads) (s : Session)
    → ((end_run lines (finish_sequence reads s).1).0 ≡ 0)
      ↔ ((finish_sequence reads s).0.status ≡ "0\n")
unfolding end_run finish_sequence write_output emit
exit_status_agrees lines reads s = zero_or_one (passed (drain reads s).state)
