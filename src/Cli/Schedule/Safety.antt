-- ===== src/Cli/Schedule/Safety.antt =====
-- What the schedule of pkgs/uml/uml/cli.py has in flight at any time.
use user_mode_nixos.Prelude.{
  String, ◌≡◌, subst, ◌⊎◌, inl, inr, true, false, not, some, [], Memᴰ, elem, lookup, mem-filter,
  arith,
}
use mathlib.Core.List.Memᴰ
use user_mode_nixos.Spec.{PhaseSpec}
use user_mode_nixos.Phases.{PhaseState, state_of, ready}
use user_mode_nixos.Phases.Ready.{Answered}
use user_mode_nixos.Phases.Launch.{IsExclusive}
use user_mode_nixos.Session.{Session}
use user_mode_nixos.Cli.Schedule.{
  Options, Mode, Schedule, Reason, candidates, names, reason, turn, Reach, entry,
}
use user_mode_nixos.Cli.Schedule.Invariant.{IsIdle, Reach-Inv, candidate-IsFresh, turn_starts}

candidate_new :
    (s : Schedule) (p : PhaseSpec) → Memᴰ p (candidates s) → elem p.name (names s.running) ≡ false
unfolding candidates
candidate_new s p m =
    let (_, new) =
      mem-filter (λ q. not (elem q.name (names s.running))) (ready s.session.phases s.session.state)
        m in
    ground arith

-- In every state that a drive reaches, whatever clients run by hand meanwhile, no two phases that the
-- schedule itself has in flight claim one guest.
pub schedule-IsExclusive :
    (o : Options) (session : Session) {s : Schedule}
    → IsIdle session
    → Reach o (entry session) s
    → IsExclusive o.every s.running
schedule-IsExclusive o session idle r = (Reach-Inv o session idle r).exclusive

-- While the drive is paused the schedule has no phase in flight, and a phase is recorded as running
-- only where a client runs it by hand.
pub schedule_pause_quiet :
    (o : Options) (session : Session) {s : Schedule}
    → IsIdle session
    → Reach o (entry session) s
    → s.mode ≡ Mode.paused
    → (s.running ≡ [])
      × ((n : String) → lookup n s.session.state ≡ some PhaseState.running → elem n s.hands ≡ true)
schedule_pause_quiet o session idle r paused =
    let h = Reach-Inv o session idle r in
    let none_left = h.quiet_pause paused in
    (
      none_left,
      λ n k. elim (h.started n k) [
        | inl (p, m, _) ↦ absurd (Memᴰ.not-nil (subst (Memᴰ p) none_left m))
        | inr by_hand ↦ by_hand
      ],
    )

-- A phase is in flight behind a turn only if it was before, or nothing asks for a pause and it is
-- due: not in flight, pending, and every phase in its `after` has an answer.
pub turn_starts_due :
    (o : Options) (s : Schedule) (p : PhaseSpec)
    → Memᴰ p (turn o s).running
    → Memᴰ p s.running
      ⊎ ((reason o s ≡ Reason.go)
          × (elem p.name (names s.running) ≡ false)
          × (state_of s.session.state p.name ≡ PhaseState.pending)
          × Answered s.session.state p)
turn_starts_due o s p m = elim (turn_starts o s p m) [
  | inl old ↦ inl old
  | inr (go, new) ↦
      let f = candidate-IsFresh o s p new in inr (go, candidate_new s p new, f.pending, f.answered)
]
