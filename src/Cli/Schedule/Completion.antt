-- ===== src/Cli/Schedule/Completion.antt =====
-- What is left undone when the schedule of pkgs/uml/uml/cli.py ends.
use user_mode_nixos.Prelude.{
  String, ◌≡◌, refl, sym, ◌∙◌, ap, subst, ◌⊎◌, inl, inr, true, false, ◌==◌, some, List, [], ◌∷◌,
  Memᴰ, arith, eq_iff, elem, Dict, lookup, ||-eq-true,
}
use mathlib.Core.List.Memᴰ
use user_mode_nixos.Spec.{PhaseSpec}
use user_mode_nixos.Phases.{PhaseState, unfinished, state_of, ready}
use user_mode_nixos.Phases.Ready.{ready_iff}
use user_mode_nixos.Session.{Session}
use user_mode_nixos.Cli.Schedule.{Options, Mode, Schedule, turn, turn_step, Reach, next, entry}
use user_mode_nixos.Cli.Schedule.Invariant.{IsIdle, Reach-Inv, turn-hands}
use user_mode_nixos.Cli.Schedule.Progress.{turn-IsMoving}

-- Each phase comes behind the phases in its `after`, as `lib.toposort` leaves them.
abbrev pub IsSorted : List String → List PhaseSpec → Type 0
IsSorted seen [] = Unit {0}
IsSorted seen (p ∷ ps) =
    ((a : String) → elem a p.after ≡ true → elem a seen ≡ true) × IsSorted (p.name ∷ seen) ps

unfinished_cases :
    (s : PhaseState) → (s ≡ PhaseState.pending) ⊎ (s ≡ PhaseState.running) ⊎ (unfinished s ≡ false)
unfinished_cases s = ground arith

state_of-running :
    (state : Dict PhaseState) (n : String)
    → state_of state n ≡ PhaseState.running
    → lookup n state ≡ some PhaseState.running
unfolding state_of
state_of-running state n h = ground arith

module _ (phases : List PhaseSpec) (state : Dict PhaseState) (none_ready : ready phases state ≡ [])
    (none_runs : (n : String) → lookup n state ≡ some PhaseState.running → ⊥) where
  answered_of_sorted :
      (ps : List PhaseSpec) (seen : List String)
      → IsSorted seen ps
      → ((p : PhaseSpec) → Memᴰ p ps → Memᴰ p phases)
      → ((a : String) → elem a seen ≡ true → unfinished (state_of state a) ≡ false)
      → (p : PhaseSpec) → Memᴰ p ps
      → unfinished (state_of state p.name) ≡ false
  answered_of_sorted [] seen sorted sub done p m = elim m [ ]
  answered_of_sorted (q ∷ ps) seen sorted sub done p m =
      let own : unfinished (state_of state q.name) ≡ false =
        elim (unfinished_cases (state_of state q.name)) [
          | inl pending ↦
              let r =
                (ready_iff phases state q).1
                  (sub q (Memᴰ.head refl), pending, λ a k. done a (sorted.0 a k)) in
              absurd (Memᴰ.not-nil (subst (Memᴰ q) none_ready r))
          | inr (inl running) ↦ absurd (none_runs q.name (state_of-running state q.name running))
          | inr (inr answered) ↦ answered
        ] in
      let after : (a : String)
          → elem a (q.name ∷ seen) ≡ true
          → unfinished (state_of state a) ≡ false =
        λ a k. elim (||-eq-true (a == q.name) (elem a seen) k) [
          | inl same ↦ ap unfinished (ap (state_of state) ((eq_iff a q.name).0 same)) ∙ own
          | inr old ↦ done a old
        ] in
      elim (Memᴰ.cases_cons m) [
        | inl e ↦ ap (λ (x : PhaseSpec). unfinished (state_of state x.name)) e ∙ own
        | inr later ↦
            answered_of_sorted ps (q.name ∷ seen) sorted.1 (λ x k. sub x (Memᴰ.tail k)) after p
              later
      ]

-- Where a turn leaves the loop while no phase is being run by hand, every phase of a sorted list has
-- an answer: none is pending, and none is recorded as running.
pub schedule_complete :
    (o : Options) (session : Session) {s : Schedule}
    → IsIdle session
    → IsSorted [] session.phases
    → Reach o (entry session) s
    → s.mode ≡ Mode.looping
    → s.hands ≡ []
    → (turn o s).mode ≡ Mode.left
    → (p : PhaseSpec) → Memᴰ p session.phases
    → unfinished (state_of (turn o s).session.state p.name) ≡ false
schedule_complete o session {s} idle sorted r m no_hand is_left =
    let (no_task, none_ready) = (turn-IsMoving o session r).done is_left in
    let inv = Reach-Inv o session idle (next r (turn_step s m)) in
    answered_of_sorted session.phases (turn o s).session.state none_ready
      (λ n k. elim (inv.started n k) [
        | inl (p, i, _) ↦ Memᴰ.not-nil (subst (Memᴰ p) no_task i)
        | inr by_hand ↦
            (let bad : false ≡ true = ap (elem n) (sym (turn-hands o s ∙ no_hand)) ∙ by_hand in cc)
      ])
      session.phases [] sorted (λ p i. i) (λ a k. cc)
