-- ===== src/Cli/Schedule/Progress.antt =====
-- What a turn of the schedule of pkgs/uml/uml/cli.py leaves running and ready.
use user_mode_nixos.Prelude.{
  String, ◌≡◌, refl, sym, ◌∙◌, ap, inl, inr, Bool, true, false, List, [], ◌∷◌, ◌++◌, Memᴰ,
  Bool-cases, filter,
}
use user_mode_nixos.Spec.{PhaseSpec}
use user_mode_nixos.Phases.{ready, launchable}
use user_mode_nixos.Phases.Launch.{launchable_first}
use user_mode_nixos.Events.{Level}
use user_mode_nixos.Session.{Session, emit}
use user_mode_nixos.Session.Frame.{emit-IsQuiet, drain-IsQuiet, command-IsQuiet}
use user_mode_nixos.Session.Run.Parts.{begin_lem, conclude_keeps}
use user_mode_nixos.Cli.Schedule.{
  Options, Mode, Schedule, Reason, candidates, todo, pause, launch, turn_for, turn, reason, finish,
  hand_begin, hand_finish, Step, turn_step, begin_step, finish_step, follow_step, command_step,
  said_step, hand_begin_step, hand_finish_step, resume_step, Reach, here, next, first_only,
  no_phase, entry, note,
}

-- What the mode says of the tasks behind a turn.
pub record IsMoving (phases : List PhaseSpec) (s : Schedule) : Type 0 where
  pub same_phases : s.session.phases ≡ phases
  pub busy : s.mode ≡ Mode.waiting → no_phase s.running ≡ false
  pub done : s.mode ≡ Mode.left → (s.running ≡ []) × (ready phases s.session.state ≡ [])

no_phase-append : (ps qs : List PhaseSpec) → no_phase (ps ++ qs) ≡ true → (ps ≡ []) × (qs ≡ [])
no_phase-append [] [] h = (refl, refl)
no_phase-append [] (q ∷ qs) h = cc
no_phase-append (p ∷ ps) qs h = cc

filter_all {ℓ} :
    {A : Type ℓ} (keep : A → Bool) (xs : List A) → ((x : A) → keep x ≡ true) → filter keep xs ≡ xs
filter_all keep [] h = refl
filter_all keep (x ∷ xs) h = rw (h x, filter_all keep xs h)

no_phase-not : (p : PhaseSpec) (ps : List PhaseSpec) → Memᴰ p ps → no_phase ps ≡ false
no_phase-not p [] m = elim m [ ]
no_phase-not p (q ∷ ps) m = refl

launchable-eq-nil :
    (ps : List PhaseSpec) (every : List String) → launchable ps [] every ≡ [] → ps ≡ []
launchable-eq-nil [] every h = refl
launchable-eq-nil (p ∷ ps) every h = let (rest, e) = launchable_first p ps every in cc

first_only-eq-nil : (ps : List PhaseSpec) → first_only ps ≡ [] → ps ≡ []
first_only-eq-nil [] h = refl
first_only-eq-nil (p ∷ ps) h = cc

module _ (o : Options) (phases : List PhaseSpec) (s : Schedule) where
  candidates_idle : s.running ≡ [] → candidates s ≡ ready s.session.phases s.session.state
  unfolding candidates
  candidates_idle idle = rw idle (filter_all _ _ (λ p. refl))

  -- With no task left and nothing to launch, nothing is ready.
  todo-eq-nil : s.running ≡ [] → todo o s ≡ [] → ready s.session.phases s.session.state ≡ []
  unfolding todo
  todo-eq-nil idle h =
      let chosen = launchable (candidates s) s.running o.every in
      let nothing : chosen ≡ [] = elim (Bool-cases o.serial) [
        | inl k ↦
            first_only-eq-nil chosen
              (let j : first_only chosen ≡ [] = rw (k, ap no_phase idle) at h in j)
        | inr k ↦ (let j : chosen ≡ [] = rw k at h in j)
      ] in
      let alone : launchable (candidates s) [] o.every ≡ [] =
        ap (λ r. launchable (candidates s) r o.every) (sym idle) ∙ nothing in
      sym (candidates_idle idle) ∙ launchable-eq-nil (candidates s) o.every alone

  launch-IsMoving :
      (chosen : List PhaseSpec)
      → (s.running ≡ [] → chosen ≡ [] → ready s.session.phases s.session.state ≡ [])
      → s.session.phases ≡ phases
      → IsMoving phases (launch chosen s)
  unfolding launch
  launch-IsMoving chosen idle same = record {
    same_phases = same;
    busy = λ k. elim (Bool-cases (no_phase (s.running ++ chosen))) [ inl j ↦ cc | inr j ↦ j ];
    done = λ k. elim (Bool-cases (no_phase (s.running ++ chosen))) [
      | inl j ↦
          let (a, b) = no_phase-append s.running chosen j in
          (rw (a, b) refl, rw (← same) (idle a b))
      | inr j ↦ cc
    ];
  }

  pause-IsMoving : (r : Reason) → s.session.phases ≡ phases → IsMoving phases (pause o r s)
  unfolding pause emit
  pause-IsMoving r same = record { same_phases = same; busy = λ k. cc; done = λ k. cc }

  turn_for-IsMoving : (r : Reason) → s.session.phases ≡ phases → IsMoving phases (turn_for o r s)
  unfolding turn_for
  turn_for-IsMoving Reason.go same = launch-IsMoving (todo o s) todo-eq-nil same
  turn_for-IsMoving r same = elim (Bool-cases (no_phase s.running)) [
    | inl k ↦ rw k (pause-IsMoving r same)
    | inr k ↦
        rw k (
          launch-IsMoving [] (λ e _. (let bad : true ≡ false = ap no_phase (sym e) ∙ k in cc)) same)
  ]

-- No step changes the phases of the spec.
Step-phases : (o : Options) {s t : Schedule} → Step o s t → t.session.phases ≡ s.session.phases
unfolding turn finish hand_begin hand_finish
Step-phases o (turn_step s m) =
    (turn_for-IsMoving o s.session.phases s (reason o s) refl).same_phases
Step-phases o (begin_step s reads p m b) = (begin_lem reads p s.session).3
Step-phases o (finish_step s script e p m b other whole) = (conclude_keeps script e p s.session).0
Step-phases o (follow_step s reads) = (drain-IsQuiet reads s.session).phases
Step-phases o (command_step s machine what took) =
    (command-IsQuiet machine what took s.session).phases
Step-phases o (said_step s e) = (emit-IsQuiet e s.session).phases
Step-phases o (hand_begin_step s reads p c m) = (begin_lem reads p s.session).3
Step-phases o (hand_finish_step s script e p m other whole) =
    (conclude_keeps script e p s.session).0
Step-phases o (resume_step s m) = (emit-IsQuiet (note Level.info "resumed" []) s.session).phases

Reach-phases :
    (o : Options) (session : Session) {s : Schedule}
    → Reach o (entry session) s
    → s.session.phases ≡ session.phases
Reach-phases o session here = refl
Reach-phases o session (next r st) = Step-phases o st ∙ Reach-phases o session r

-- What a turn leaves behind it.
pub turn-IsMoving :
    (o : Options) (session : Session) {s : Schedule}
    → Reach o (entry session) s
    → IsMoving session.phases (turn o s)
unfolding turn
turn-IsMoving o session {s} r =
    turn_for-IsMoving o session.phases s (reason o s) (Reach-phases o session r)
