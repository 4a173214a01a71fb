-- ===== src/Session/Fresh.antt =====
-- A session before its first phase.
use user_mode_nixos.Prelude.{
  String, ◌≡◌, ◌≢◌, ◌==◌, some, List, [], ◌∷◌, Bool-cases, inl, inr, Dict, lookup, insert,
  lookup-insert, ◌∙◌, sym,
}
use user_mode_nixos.Spec.{PhaseSpec}
use user_mode_nixos.Phases.{PhaseState}
use user_mode_nixos.Session.{initial, fresh}

initial-ne-running :
    (n : String) (ps : List PhaseSpec) (d : Dict PhaseState)
    → lookup n d ≢ some PhaseState.running
    → lookup n (initial ps d) ≢ some PhaseState.running
unfolding initial
initial-ne-running n [] d h = h
initial-ne-running n (p ∷ ps) d h =
    initial-ne-running n ps (insert p.name PhaseState.pending d) λ k.
      let k' = sym (lookup-insert p.name n PhaseState.pending d) ∙ k in
      elim (Bool-cases (p.name == n)) [
        | inl e ↦ (let j : some PhaseState.pending ≡ some PhaseState.running = rw e at k' in cc)
        | inr e ↦ h (let j : lookup n d ≡ some PhaseState.running = rw e at k' in j)
      ]

pub fresh-ne-running :
    (phases : List PhaseSpec) (n : String) → lookup n (fresh phases).state ≢ some PhaseState.running
unfolding fresh
fresh-ne-running phases n = initial-ne-running n phases [] (unfold lookup in λ k. cc)
