-- ===== src/Tests/Samples.antt =====
-- Phases, evidence and sessions for the tests.
use user_mode_nixos.Prelude.{
  String, ◌≡◌, refl, Bool, true, false, none, some, List, [], ◌∷◌, lookup,
}
use user_mode_nixos.Spec.{PhaseSpec, one_kind}
use user_mode_nixos.Phases.{
  PhaseState, state_of, dependents, ready, launchable, claims, passed, summarise,
}
use user_mode_nixos.Session.{Session, fresh}
use user_mode_nixos.Session.Run.{Evidence}
use user_mode_nixos.Cli.Schedule.{Options}

abbrev pub phase : String → List String → List String → Bool → PhaseSpec
phase name after nodes always = record {
  name = name;
  script = some "/phase.py";
  pytest = none;
  after = after;
  nodes = nodes;
  always = always;
}

abbrev pub boot : PhaseSpec
boot = phase "boot" [] [] false

abbrev pub cluster : PhaseSpec
cluster = phase "cluster" ("boot" ∷ []) ("cp" ∷ []) false

abbrev pub other : PhaseSpec
other = phase "other" ("boot" ∷ []) ("worker" ∷ []) false

abbrev pub check : PhaseSpec
check = phase "check" ("cluster" ∷ []) ("cp" ∷ []) false

abbrev pub evidence_phase : PhaseSpec
evidence_phase = phase "evidence" ("check" ∷ []) [] true

abbrev pub phases : List PhaseSpec
phases = boot ∷ cluster ∷ other ∷ check ∷ evidence_phase ∷ []

abbrev pub guests : List String
guests = "cp" ∷ "worker" ∷ []

abbrev pub no_evidence : Evidence
no_evidence = record {
  guests = [];
  rounds = [];
  last = [];
  files = [];
  histories = [];
  traceback = "";
  took = 1500;
  span = 1600;
  cut = false;
}

abbrev pub booted : Session
booted = record (fresh phases) { vms = some guests }

abbrev pub plain : Options
plain = record {
  controlled = false;
  breaks = [];
  break_on_failure = false;
  serial = false;
  every = guests;
  out = "out";
  socket = "out/control.sock";
}

dependents-sample : dependents "cluster" phases ≡ "check" ∷ []
unfolding dependents
dependents-sample = refl

ready-sample : ready phases (("boot", PhaseState.passed) ∷ []) ≡ cluster ∷ other ∷ []
unfolding ready state_of lookup
ready-sample = refl

launchable-sample : launchable (cluster ∷ other ∷ check ∷ []) [] guests ≡ cluster ∷ other ∷ []
unfolding launchable claims
launchable-sample = refl

one_kind-sample : one_kind boot ≡ true
unfolding one_kind
one_kind-sample = refl

summarise-sample :
    summarise (
      ("boot", PhaseState.passed)
      ∷ ("cluster", PhaseState.failed)
      ∷ ("other", PhaseState.passed)
      ∷ [])
    ≡ "2 passed, 1 failed"
unfolding summarise
summarise-sample = refl

passed-sample :
    passed (("boot", PhaseState.passed) ∷ ("cluster", PhaseState.deselected) ∷ []) ≡ true
unfolding passed
passed-sample = refl
