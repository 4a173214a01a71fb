-- ===== src/Machine/Commands/Answered.antt =====
-- Every call is recorded, and a command succeeds or fails.
use user_mode_nixos.Prelude.{
  Chars, ℕ, String, true, false, Option, none, some, [], ◌∷◌, ◌++◌, take, ◌≡◌, ◌↔◌, refl, inl, inr,
  Bool-cases,
}
use user_mode_nixos.Report.{Step, step}
use user_mode_nixos.Machine.Commands.{
  Result, Log, ask, Code, is_zero, want_zero, want_nonzero, Agent, label_or, execute, succeed, fail,
}

-- However a call of a connected agent ends, one step is recorded, a round trip of this machine with
-- its name and duration, and `on_command` is told once.
pub execute_recorded :
    (agent : Agent) (name : String) (limit : ℕ) (command : Chars) (timeout : Option ℕ)
    (label : Option Chars) (now took : ℕ) (log : Log)
    → let after = (execute (some agent) name limit command timeout label now took log).0 in
      let what = label_or command label in
      (s : Step) × (after.recorder.steps ≡ log.recorder.steps ++ (s ∷ []))
      × (s.kind ≡ "rpc")
      × (s.machine ≡ name)
      × (s.what ≡ take 200 what)
      × (s.seconds ≡ took)
      × (after.told ≡ log.told ++ ((what, took) ∷ []))
unfolding execute ask step
execute_recorded agent name limit command timeout label now took log =
    (_, refl, refl, refl, refl, refl, refl)

zero_iff :
    (command : Chars) (r : Result (Code × String)) (out : String)
    → (want_zero command r ≡ Result.ok out)
      ↔ ((rc : Code) × (r ≡ Result.ok (rc, out)) × (is_zero rc ≡ true))
zero_iff command (Result.ok (rc, said)) out = elim (Bool-cases (is_zero rc)) [
  | inl z ↦
      (λ h. (rc, (let e : Result.ok said ≡ Result.ok out = rw z at h in cc), z), λ (c, e, k). cc)
  | inr z ↦ (λ h. cc, λ (c, e, k). cc)
]
zero_iff command (Result.machine_error e) out = (λ h. cc, λ (c, k, _). cc)
zero_iff command (Result.other_error e) out = (λ h. cc, λ (c, k, _). cc)

nonzero_iff :
    (command : Chars) (r : Result (Code × String)) (out : String)
    → (want_nonzero command r ≡ Result.ok out)
      ↔ ((rc : Code) × (r ≡ Result.ok (rc, out)) × (is_zero rc ≡ false))
nonzero_iff command (Result.ok (rc, said)) out = elim (Bool-cases (is_zero rc)) [
  | inl z ↦ (λ h. cc, λ (c, e, k). cc)
  | inr z ↦
      (λ h. (rc, (let e : Result.ok said ≡ Result.ok out = rw z at h in cc), z), λ (c, e, k). cc)
]
nonzero_iff command (Result.machine_error e) out = (λ h. cc, λ (c, k, _). cc)
nonzero_iff command (Result.other_error e) out = (λ h. cc, λ (c, k, _). cc)

-- Of `succeed` and `fail` of a command that the agent answers, exactly one returns, and it returns
-- the output: `succeed` where the exit code is zero, `fail` where it is not. Where the agent does
-- not answer, or is not connected, neither returns.
pub succeed_or_fail :
    (agent : Option Agent) (name : String) (limit : ℕ) (command : Chars) (timeout : Option ℕ)
    (now took : ℕ) (log : Log)
    → let ran = (execute agent name limit command timeout none now took log).1 in
      let good = (succeed agent name limit command timeout now took log).1 in
      let bad = (fail agent name limit command timeout now took log).1 in
      (out : String)
      → ((good ≡ Result.ok out) ↔ ((rc : Code) × (ran ≡ Result.ok (rc, out)) × (is_zero rc ≡ true)))
        × ((bad ≡ Result.ok out)
            ↔ ((rc : Code) × (ran ≡ Result.ok (rc, out)) × (is_zero rc ≡ false)))
unfolding succeed fail
succeed_or_fail agent name limit command timeout now took log out =
    let ran = (execute agent name limit command timeout none now took log).1 in
    (zero_iff command ran out, nonzero_iff command ran out)
