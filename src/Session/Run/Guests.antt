-- ===== src/Session/Run/Guests.antt =====
-- Which phase holds which guest, from `begin` to `conclude`: the attribution of commands and
-- journal entries in pkgs/uml/uml/session.py.
use user_mode_nixos.Prelude.{
  ℕ, String, ◌≡◌, refl, ◌∙◌, ap, false, none, some, List, [], ◌∷◌, ◌++◌, arith, eq_iff,
  if◌then◌else◌, elem, Dict, lookup, insert, remove, concat, lookup-insert, lookup-remove,
}
use user_mode_nixos.Spec.{PhaseSpec}
use user_mode_nixos.Phases.{skipped_by}
use user_mode_nixos.Events.{Event}
use user_mode_nixos.Session.{Session, Reads, command}
use user_mode_nixos.Session.Run.{
  Outcome, Evidence, nodes_of, nodes_in, hold, release, begin, mark_failed, say_failed, skip_all,
  release_phase, collect, outcome_of, conclude_failed, conclude_cancelled, conclude_passed,
  conclude_as, conclude,
}
use user_mode_nixos.Session.Run.Parts.{
  begin_lem, collect-IsQuiet, mark_failed_lem, say_failed-IsQuiet, skip_all-IsSkipping,
}

pub lookup-hold :
    (phase g : String) (nodes : List String) (running : Dict String)
    → lookup g (hold phase nodes running) ≡ (if elem g nodes then some phase else lookup g running)
unfolding hold
lookup-hold phase g [] running = refl
lookup-hold phase g (n ∷ nodes) running = ground (
  arith,
  lookup-hold phase g nodes (insert n phase running),
  lookup-insert n g phase running,
  eq_iff n g,
  eq_iff g n,
)

pub lookup-release :
    (g : String) (nodes : List String) (running : Dict String)
    → lookup g (release nodes running) ≡ (if elem g nodes then none else lookup g running)
unfolding release
lookup-release g [] running = refl
lookup-release g (n ∷ nodes) running = ground (
  arith,
  lookup-release g nodes (remove n running),
  lookup-remove n g running,
  eq_iff n g,
  eq_iff g n,
)

lookup-release_phase :
    (p : PhaseSpec) (s t : Session) (g : String)
    → t.vms ≡ s.vms
    → t.running ≡ s.running
    → lookup g (release_phase p t).running
      ≡ (if elem g (nodes_of p s) then none else lookup g s.running)
unfolding release_phase
lookup-release_phase p s t g v r = rw (v, r) (lookup-release g (nodes_in p s.vms) s.running)

-- A phase whose end is not cut short lets go of its guests, whatever its outcome, and of no other.
pub conclude_releases :
    (script : Outcome) (e : Evidence) (p : PhaseSpec) (s : Session) (g : String)
    → e.cut ≡ false
    → lookup g (conclude script e p s).running
      ≡ (if elem g (nodes_of p s) then none else lookup g s.running)
unfolding conclude
conclude_releases script e p s g whole = go (outcome_of script p s)
  where
    go :
        (o : Outcome)
        → lookup g (conclude_as o e p s).running
          ≡ (if elem g (nodes_of p s) then none else lookup g s.running)
    go Outcome.cancelled =
        unfold conclude_as conclude_cancelled in lookup-release g (nodes_in p s.vms) s.running
    go Outcome.returned =
        let q = collect-IsQuiet e p s in
        unfold conclude_as conclude_passed in
        rw whole (lookup-release_phase p s (collect e p s) g q.vms q.running)
    go (Outcome.raised kind text tests_failed) =
        let error = concat (kind ∷ ": " ∷ text ∷ []) in
        let marked = mark_failed e error p s in
        let said = say_failed e error text tests_failed p marked in
        let (_, r, v, _) = mark_failed_lem e error p s in
        let q = say_failed-IsQuiet e error text tests_failed p marked in
        let k = skip_all-IsSkipping p.name (skipped_by p.name s.phases) said in
        unfold conclude_as conclude_failed in
        rw whole (
          lookup-release_phase p s (skip_all p.name (skipped_by p.name s.phases) said) g
            (k.vms ∙ (q.vms ∙ v)) (k.running ∙ (q.running ∙ r)))

-- A command to a guest, from the start of a phase until some phase next takes or lets go of a guest, is
-- filed under that phase exactly when the guest is one of its nodes, which is every guest where it
-- names none; the command of any other guest stays with the phase that held that guest before.
pub command_attributed :
    (reads : Reads) (p : PhaseSpec) (s t : Session) (machine what : String) (took : ℕ)
    → t.running ≡ (begin reads p s).running
    → (event : Event) × ((command machine what took t).events ≡ t.events ++ event ∷ [])
      × (event.machine ≡ some machine)
      × (event.phase
          ≡ (if elem machine (nodes_of p s) then some p.name else lookup machine s.running))
unfolding command
command_attributed reads p s t machine what took h =
    let (_, r, _, _) = begin_lem reads p s in
    (
      _,
      refl,
      refl,
      ap (lookup machine) (h ∙ r) ∙ lookup-hold p.name machine (nodes_of p s) s.running,
    )
