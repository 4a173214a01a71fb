-- ===== src/Cli/Schedule/Invariant.antt =====
-- What holds in every state that the schedule reaches.
mod Turns
pub use Turns.{IsFresh, Inv, candidate-IsFresh}
use user_mode_nixos.Prelude.{
  String, ◌≡◌, refl, sym, ◌∙◌, ap, subst, ◌≢◌, ◌⊎◌, inl, inr, true, false, not, ◌==◌, some, List,
  [], ◌∷◌, ◌++◌, Memᴰ, arith, eq_iff, if◌then◌else◌, Bool-cases, mem-filter, mem-filter_of, elem,
  elem-discard, Dict, lookup, insert, lookup-insert, ||-eq-false,
}
use mathlib.Core.List.{append-nil}
use mathlib.Core.List.Memᴰ
use user_mode_nixos.Spec.{PhaseSpec}
use user_mode_nixos.Phases.{PhaseState, unfinished, state_of, ready, launchable}
use user_mode_nixos.Phases.Ready.{Answered, ready_iff}
use user_mode_nixos.Phases.Launch.{
  IsExclusive, IsExclusive-filter, launchable-IsExclusive, mem-launchable,
}
use user_mode_nixos.Events.{Level}
use user_mode_nixos.Session.{Session, Reads, emit}
use user_mode_nixos.Session.Frame.{emit-IsQuiet, drain-IsQuiet, command-IsQuiet}
use user_mode_nixos.Session.Run.{Outcome, Evidence, begin, conclude, outcome_of}
use user_mode_nixos.Session.Run.Parts.{begin_lem}
use user_mode_nixos.Session.Run.Skips.{conclude_states}
use user_mode_nixos.Cli.Schedule.{
  Options, Mode, Schedule, Reason, candidates, todo, pause, launch, turn_for, turn, reason, finish,
  hand_begin, hand_finish, erase, Step, turn_step, begin_step, finish_step, follow_step,
  command_step, said_step, hand_begin_step, hand_finish_step, resume_step, Reach, here, next,
  first_only, no_phase, names, woken, note, entry,
}
use user_mode_nixos.Cli.Schedule.Invariant.Turns.{
  quiet-Inv, woken-paused, turn_for-Inv, turn_for_starts, turn_for-hands,
}

-- A phase that runs once another has begun ran before, or is that one.
begin-running :
    (reads : Reads) (p : PhaseSpec) (session : Session) (n : String)
    → lookup n (begin reads p session).state ≡ some PhaseState.running
    → (p.name ≡ n) ⊎ (lookup n session.state ≡ some PhaseState.running)
begin-running reads p session n k =
    let after =
      sym (
        ap (lookup n) (begin_lem reads p session).0
        ∙ lookup-insert p.name n PhaseState.running session.state)
      ∙ k in
    elim (Bool-cases (p.name == n)) [
      | inl same ↦ inl ((eq_iff p.name n).0 same)
      | inr apart ↦ inr (rw apart at after)
    ]

-- After a phase that ended, a phase is running only if it was, and is another one.
ended-running :
    (script : Outcome) (e : Evidence) (p : PhaseSpec) (session : Session)
    → outcome_of script p session ≢ Outcome.cancelled
    → e.cut ≡ false
    → (n : String) → lookup n (conclude script e p session).state ≡ some PhaseState.running
    → (lookup n session.state ≡ some PhaseState.running) × ((p.name == n) ≡ false)
ended-running script e p session other whole n k =
    elim (conclude_states script e p session other whole n) [
      | inl a ↦ ground arith
      | inr a ↦ ground arith
    ]

elem-erase :
    (n m : String) (ms : List String)
    → (m == n) ≡ false
    → elem n ms ≡ true
    → elem n (erase m ms) ≡ true
unfolding erase
elem-erase n m [] h k = cc
elem-erase n m (x ∷ ms) h k =
    ground (arith, elem-erase n m ms h, eq_iff m x, eq_iff n x, eq_iff m n)

module _ (o : Options) (s : Schedule) where
  begin-Inv :
      (reads : Reads) (p : PhaseSpec)
      → Memᴰ p s.running
      → Inv o s
      → Inv o (record s { session = begin reads p s.session; begun = p.name ∷ s.begun })
  begin-Inv reads p m h = record {
    exclusive = h.exclusive;
    quiet_pause = h.quiet_pause;
    started = λ n k. elim (begin-running reads p s.session n k) [
      | inl same ↦ inl (p, m, same)
      | inr before ↦ h.started n before
    ];
  }

  finish-Inv :
      (script : Outcome) (e : Evidence) (p : PhaseSpec)
      → outcome_of script p s.session ≢ Outcome.cancelled
      → e.cut ≡ false
      → Inv o s
      → Inv o (finish script e p s)
  unfolding finish
  finish-Inv script e p other whole h =
      let others = λ (q : PhaseSpec). not (q.name == p.name) in
      record {
        exclusive = IsExclusive-filter o.every others s.running h.exclusive;
        quiet_pause = λ k. rw (h.quiet_pause (woken-paused s.mode k)) refl;
        started = λ n k.
            let (before, apart) = ended-running script e p s.session other whole n k in
            elim (h.started n before) [
              | inl (q, m, same) ↦ inl (
                q,
                mem-filter_of others s.running m
                    (ground (arith, eq_iff q.name p.name, eq_iff p.name n)),
                same,
              )
              | inr by_hand ↦ inr by_hand
            ];
      }

  hand_begin-Inv : (reads : Reads) (p : PhaseSpec) → Inv o s → Inv o (hand_begin reads p s)
  unfolding hand_begin
  hand_begin-Inv reads p h = record {
    exclusive = h.exclusive;
    quiet_pause = h.quiet_pause;
    started = λ n k. elim (begin-running reads p s.session n k) [
      | inl same ↦ inr (ground (arith, eq_iff n p.name, sym same))
      | inr before ↦ elim (h.started n before) [
        | inl own ↦ inl own
        | inr by_hand ↦ inr (ground arith)
      ]
    ];
  }

  hand_finish-Inv :
      (script : Outcome) (e : Evidence) (p : PhaseSpec)
      → outcome_of script p s.session ≢ Outcome.cancelled
      → e.cut ≡ false
      → Inv o s
      → Inv o (hand_finish script e p s)
  unfolding hand_finish
  hand_finish-Inv script e p other whole h = record {
    exclusive = h.exclusive;
    quiet_pause = h.quiet_pause;
    started = λ n k.
        let (before, apart) = ended-running script e p s.session other whole n k in
        elim (h.started n before) [
          | inl own ↦ inl own
          | inr by_hand ↦ inr (elem-erase n p.name s.hands apart by_hand)
        ];
  }

Step-Inv : (o : Options) {s t : Schedule} → Step o s t → Inv o s → Inv o t
unfolding turn
Step-Inv o (turn_step s m) h = turn_for-Inv o s (reason o s) h
Step-Inv o (begin_step s reads p m b) h = begin-Inv o s reads p m h
Step-Inv o (finish_step s script e p m b other whole) h = finish-Inv o s script e p other whole h
Step-Inv o (follow_step s reads) h = quiet-Inv o s _ (drain-IsQuiet reads s.session).state h
Step-Inv o (command_step s machine what took) h =
    quiet-Inv o s _ (command-IsQuiet machine what took s.session).state h
Step-Inv o (said_step s e) h = quiet-Inv o s _ (emit-IsQuiet e s.session).state h
Step-Inv o (hand_begin_step s reads p c m) h = hand_begin-Inv o s reads p h
Step-Inv o (hand_finish_step s script e p m other whole) h =
    hand_finish-Inv o s script e p other whole h
Step-Inv o (resume_step s m) h =
    let q = emit-IsQuiet (note Level.info "resumed" []) s.session in
    record {
      exclusive = h.exclusive;
      quiet_pause = λ k. h.quiet_pause m;
      started = λ n k. h.started n (sym (ap (lookup n) q.state) ∙ k);
    }

pub turn-hands : (o : Options) (s : Schedule) → (turn o s).hands ≡ s.hands
unfolding turn
turn-hands o s = turn_for-hands o s (reason o s)

-- What a turn starts is a candidate, and no pause is due.
pub turn_starts :
    (o : Options) (s : Schedule) (p : PhaseSpec)
    → Memᴰ p (turn o s).running
    → Memᴰ p s.running ⊎ ((reason o s ≡ Reason.go) × Memᴰ p (candidates s))
unfolding turn
turn_starts o s p m = turn_for_starts o s (reason o s) p m

-- No phase runs before the loop.
abbrev pub IsIdle : Session → Type 0
IsIdle session = (n : String) → lookup n session.state ≢ some PhaseState.running

entry-Inv : (o : Options) (session : Session) → IsIdle session → Inv o (entry session)
entry-Inv o session idle = record {
  exclusive = tt;
  quiet_pause = λ _. refl;
  started = λ n k. absurd (idle n k);
}

pub Reach-Inv :
    (o : Options) (session : Session) {s : Schedule}
    → IsIdle session
    → Reach o (entry session) s
    → Inv o s
Reach-Inv o session idle here = entry-Inv o session idle
Reach-Inv o session idle (next r st) = Step-Inv o st (Reach-Inv o session idle r)
