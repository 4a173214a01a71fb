-- ===== src/Phases/Ready.antt =====
-- `runnable` and `ready` of pkgs/uml/uml/phases.py.
use user_mode_nixos.Prelude.{
  String, ◌≡◌, ◌↔◌, true, false, not, List, Memᴰ, arith, mem-filter, mem-filter_of, all,
  all-eq-true, all_of, elem, elem→Memᴰ, Memᴰ→elem, Dict, not-eq-true,
}
use user_mode_nixos.Spec.{PhaseSpec}
use user_mode_nixos.Phases.{PhaseState, is_pending, unfinished, state_of, runnable, ready}

-- Every name in `after` has an answer.
abbrev pub Answered : Dict PhaseState → PhaseSpec → Type 0
Answered state p = (a : String) → elem a p.after ≡ true → unfinished (state_of state a) ≡ false

is_pending-eq : (s : PhaseState) → is_pending s ≡ true → s ≡ PhaseState.pending
is_pending-eq s h = ground arith

-- A phase is ready exactly when it is of the run, pending, and every phase in its `after` has an
-- answer, be it a pass or not.
pub ready_iff :
    (phases : List PhaseSpec) (state : Dict PhaseState) (p : PhaseSpec)
    → Memᴰ p (ready phases state)
      ↔ (Memᴰ p phases × (state_of state p.name ≡ PhaseState.pending) × Answered state p)
unfolding ready
ready_iff phases state p =
    let test = λ (q : PhaseSpec). is_pending (state_of state q.name) in
    let done = λ (a : String). not (unfinished (state_of state a)) in
    let answered = λ (q : PhaseSpec). all done q.after in
    (
      λ m.
          let (in_runnable, after_done) = mem-filter answered (runnable phases state) m in
          let (in_phases, pending) = mem-filter test phases in_runnable in
          (
            in_phases,
            is_pending-eq (state_of state p.name) pending,
            λ a k. not-eq-true _ (all-eq-true done p.after after_done (elem→Memᴰ a p.after k)),
          ),
      λ (in_phases, pending, after_done).
          mem-filter_of answered (runnable phases state)
            (mem-filter_of test phases in_phases (rw pending))
            (all_of done p.after (λ a m. rw (after_done a (Memᴰ→elem a p.after m)))),
    )
