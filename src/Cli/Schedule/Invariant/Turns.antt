-- ===== src/Cli/Schedule/Invariant/Turns.antt =====
-- The invariant of `_schedule` of pkgs/uml/uml/cli.py, and that a turn of the loop keeps it.
use user_mode_nixos.Prelude.{
  String, ◌≡◌, refl, sym, ◌∙◌, ap, ◌⊎◌, inl, inr, true, not, some, List, [], ◌∷◌, ◌++◌, Memᴰ, arith,
  Bool-cases, mem-filter, elem, Dict, lookup,
}
use mathlib.Core.List.{append-nil}
use mathlib.Core.List.Memᴰ
use user_mode_nixos.Spec.{PhaseSpec}
use user_mode_nixos.Phases.{PhaseState, state_of, ready, launchable}
use user_mode_nixos.Phases.Ready.{Answered, ready_iff}
use user_mode_nixos.Phases.Launch.{IsExclusive, launchable-IsExclusive, mem-launchable}
use user_mode_nixos.Session.{Session, emit}
use user_mode_nixos.Cli.Schedule.{
  Options, Mode, Schedule, Reason, candidates, todo, pause, launch, turn_for, first_only, no_phase,
  names, woken,
}

-- A phase that is due: pending, with an answer for each phase in its `after`.
pub record IsFresh (state : Dict PhaseState) (p : PhaseSpec) : Type 0 where
  pub pending : state_of state p.name ≡ PhaseState.pending
  pub answered : Answered state p

pub record Inv (o : Options) (s : Schedule) : Type 0 where
  pub exclusive : IsExclusive o.every s.running
  pub quiet_pause : s.mode ≡ Mode.paused → s.running ≡ []
  pub started :
      (n : String)
      → lookup n s.session.state ≡ some PhaseState.running
      → ((p : PhaseSpec) × Memᴰ p s.running × (p.name ≡ n)) ⊎ (elem n s.hands ≡ true)

-- Steps that leave the states, the tasks and the mode alone.
pub quiet-Inv :
    (o : Options) (s : Schedule) (session : Session)
    → session.state ≡ s.session.state
    → Inv o s
    → Inv o (record s { session = session })
quiet-Inv o s session e h = record {
  exclusive = h.exclusive;
  quiet_pause = h.quiet_pause;
  started = λ n k. h.started n (sym (ap (lookup n) e) ∙ k);
}

pub woken-paused : (m : Mode) → woken m ≡ Mode.paused → m ≡ Mode.paused
woken-paused m h = ground arith

module _ (o : Options) (s : Schedule) where
  pub candidate-IsFresh : (p : PhaseSpec) → Memᴰ p (candidates s) → IsFresh s.session.state p
  unfolding candidates
  candidate-IsFresh p m =
      let (m', _) =
        mem-filter (λ q. not (elem q.name (names s.running)))
          (ready s.session.phases s.session.state) m in
      let (_, pending, answered) = (ready_iff s.session.phases s.session.state p).0 m' in
      record { pending = pending; answered = answered }

  first_only-mem : {p : PhaseSpec} (ps : List PhaseSpec) → Memᴰ p (first_only ps) → Memᴰ p ps
  first_only-mem [] m = m
  first_only-mem (q ∷ ps) m = Memᴰ.head (Memᴰ.eq_of_singleton m)

  todo-candidates : (p : PhaseSpec) → Memᴰ p (todo o s) → Memᴰ p (candidates s)
  unfolding todo
  todo-candidates p m = elim (Bool-cases o.serial) [
    | inr h ↦
        mem-launchable (candidates s) s.running o.every
          (let k : Memᴰ p (launchable (candidates s) s.running o.every) = rw h at m in k)
    | inl h ↦ elim (Bool-cases (no_phase s.running)) [
      | inl k ↦ mem-launchable (candidates s) s.running o.every (
          first_only-mem _ (
            let j : Memᴰ p (first_only (launchable (candidates s) s.running o.every)) =
              rw (h, k) at m in
            j))
      | inr k ↦ absurd (Memᴰ.not-nil (let j : Memᴰ p [] = rw (h, k) at m in j))
    ]
  ]

  no_phase-eq : (ps : List PhaseSpec) → no_phase ps ≡ true → ps ≡ []
  no_phase-eq [] h = refl
  no_phase-eq (p ∷ ps) h = cc

  first_only-IsExclusive : (ps : List PhaseSpec) → IsExclusive o.every (first_only ps)
  first_only-IsExclusive [] = tt
  first_only-IsExclusive (p ∷ ps) = (tt, tt)

  todo-IsExclusive : IsExclusive o.every s.running → IsExclusive o.every (s.running ++ todo o s)
  unfolding todo
  todo-IsExclusive h = elim (Bool-cases o.serial) [
    | inr k ↦ rw k (launchable-IsExclusive (candidates s) s.running o.every h)
    | inl k ↦ elim (Bool-cases (no_phase s.running)) [
      | inl j ↦ rw (k, j, no_phase-eq s.running j) (first_only-IsExclusive _)
      | inr j ↦ rw (k, j, append-nil s.running) h
    ]
  ]

  launch-Inv :
      (chosen : List PhaseSpec)
      → IsExclusive o.every (s.running ++ chosen)
      → Inv o s
      → Inv o (launch chosen s)
  unfolding launch
  launch-Inv chosen apart h = record {
    exclusive = apart;
    quiet_pause =
        λ k. elim (Bool-cases (no_phase (s.running ++ chosen))) [ inl j ↦ cc | inr j ↦ cc ];
    started = λ n k. elim (h.started n k) [
      | inl (p, m, e) ↦ inl (p, Memᴰ.append_left chosen m, e)
      | inr by_hand ↦ inr by_hand
    ];
  }

  pause-Inv : (r : Reason) → s.running ≡ [] → Inv o s → Inv o (pause o r s)
  unfolding pause emit
  pause-Inv r e h = record { exclusive = h.exclusive; quiet_pause = λ _. e; started = h.started }

  pub turn_for-Inv : (r : Reason) → Inv o s → Inv o (turn_for o r s)
  unfolding turn_for
  turn_for-Inv Reason.go h = launch-Inv (todo o s) (todo-IsExclusive h.exclusive) h
  turn_for-Inv r h = elim (Bool-cases (no_phase s.running)) [
    | inl k ↦ rw k (pause-Inv r (no_phase-eq s.running k) h)
    | inr k ↦ rw k (launch-Inv [] (rw (append-nil s.running) h.exclusive) h)
  ]

  -- What a turn starts is a candidate, and no pause is due.
  pub turn_for_starts :
      (r : Reason) (p : PhaseSpec)
      → Memᴰ p (turn_for o r s).running
      → Memᴰ p s.running ⊎ ((r ≡ Reason.go) × Memᴰ p (candidates s))
  unfolding turn_for launch pause
  turn_for_starts Reason.go p m = elim (Memᴰ.append_cases s.running m) [
    | inl old ↦ inl old
    | inr new ↦ inr (refl, todo-candidates p new)
  ]
  turn_for_starts r p m = elim (Bool-cases (no_phase s.running)) [
    | inl k ↦ inl (rw k at m)
    | inr k ↦ inl (let j : Memᴰ p (s.running ++ []) = rw k at m in rw (append-nil s.running) at j)
  ]

  pub turn_for-hands : (r : Reason) → (turn_for o r s).hands ≡ s.hands
  unfolding turn_for launch pause
  turn_for-hands Reason.go = refl
  turn_for-hands r = elim (Bool-cases (no_phase s.running)) [
    | inl k ↦ rw k refl
    | inr k ↦ rw k refl
  ]
