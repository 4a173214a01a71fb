-- ===== src/Machine/Commands/Waits.antt =====
-- A wait for a unit ends in time, and says what it saw.
use user_mode_nixos.Prelude.{
  ℕ, zero, suc, ◌+◌, ◌*◌, ◌/◌, ◌<◌, String, ◌==◌, eq_iff, Bool, true, false, ◌≡◌, ◌≢◌, ◌⊎◌, refl,
  ap, ◌∙◌, inl, inr, Bool-cases, arith,
}
use user_mode_nixos.Machine.Commands.{Reply, Poll, UnitWait, wait_for_unit}

wait-ends :
    (rounds : ℕ) (polls : ℕ → Poll) (now deadline : ℕ)
    → deadline < now + rounds * 500
    → wait_for_unit (suc rounds) polls now deadline ≢ UnitWait.out_of_rounds
unfolding wait_for_unit
wait-ends zero polls now deadline h e = ground arith
wait-ends (suc rounds) polls now deadline h e =
    let asked = now + (polls 0).took in
    let later = wait-ends rounds (λ k. polls (suc k)) (asked + 500) deadline (omega arith) in
    ground (arith, later)

abbrev pub Answers : Poll → String → Type 0
Answers p s = p.state ≡ Reply.replied s

-- A state that ends no wait.
abbrev pub Undecided : Poll → Type 0
Undecided p = (s : String) × Answers p s × (s ≢ "active") × (s ≢ "failed")

abbrev is_replied : Reply String → Bool
is_replied (Reply.replied _) = true
is_replied _ = false

Reply-cases : (r : Reply String) → ((s : String) × (r ≡ Reply.replied s)) ⊎ (is_replied r ≡ false)
Reply-cases (Reply.replied s) = inl (s, refl)
Reply-cases Reply.timed_out = inr refl
Reply-cases Reply.end_of_file = inr refl
Reply-cases (Reply.raised e) = inr refl

shift :
    (polls : ℕ → Poll) (k : ℕ)
    → Undecided (polls 0)
    → ((j : ℕ) → j < k → Undecided (polls (suc j)))
    → (j : ℕ) → j < suc k
    → Undecided (polls j)
shift polls k here after zero h = here
shift polls k here after (suc j) h = after j (omega arith)

-- What a wait that ends in a way saw, if it ends so in the first round on one answer only.
saw_in_round :
    (word : String) (end : UnitWait) (rounds : ℕ) (polls : ℕ → Poll) (ended : UnitWait)
    → ((s : String) → Answers (polls 0) s → s ≢ word → ended ≡ end → Undecided (polls 0))
    → (is_replied (polls 0).state ≡ false → ended ≢ end)
    → (Undecided (polls 0)
        → (k : ℕ) × (k < rounds)
          × Answers (polls (suc k)) word
          × ((j : ℕ) → j < k → Undecided (polls (suc j))))
    → ended ≡ end
    → (k : ℕ) × (k < suc rounds) × Answers (polls k) word × ((j : ℕ) → j < k → Undecided (polls j))
saw_in_round word end rounds polls ended undecided silent later h =
    elim (Reply-cases (polls 0).state) [
      | inr quiet ↦ absurd (silent quiet h)
      | inl (s, e) ↦ elim (Bool-cases (s == word)) [
        | inl w ↦ (
          0,
          omega arith,
          e ∙ ap Reply.replied ((eq_iff s word).0 w),
          λ j l. absurd (let no : ⊥ = omega arith in no),
        )
        | inr w ↦
            let here = undecided s e (λ q. let t = (eq_iff s word).1 q in cc) h in
            let (k, l, a, before) = later here in (suc k, omega arith, a, shift polls k here before)
      ]
    ]

-- What a wait that ends with the unit active, or failed, saw.
wait_for_unit-saw :
    (rounds : ℕ) (polls : ℕ → Poll) (now deadline : ℕ)
    → (wait_for_unit rounds polls now deadline ≡ UnitWait.active
        → (k : ℕ) × (k < rounds)
          × Answers (polls k) "active"
          × ((j : ℕ) → j < k → Undecided (polls j)))
      × (wait_for_unit rounds polls now deadline ≡ UnitWait.failed_unit
          → (k : ℕ) × (k < rounds)
            × Answers (polls k) "failed"
            × ((j : ℕ) → j < k → Undecided (polls j)))
unfolding wait_for_unit
wait_for_unit-saw zero polls now deadline = (λ h. cc, λ h. cc)
wait_for_unit-saw (suc rounds) polls now deadline =
    let asked = now + (polls 0).took in
    let later = wait_for_unit-saw rounds (λ k. polls (suc k)) (asked + 500) deadline in
    (
      λ h.
          saw_in_round "active" UnitWait.active rounds polls
            (wait_for_unit (suc rounds) polls now deadline)
            (λ s e n g. (s, e, n, λ f. ground (arith, eq_iff s "active", eq_iff s "failed")))
            (λ quiet g. ground arith)
            (λ (s, e, n, m). later.0 (ground (arith, eq_iff s "active", eq_iff s "failed"))) h,
      λ h.
          saw_in_round "failed" UnitWait.failed_unit rounds polls
            (wait_for_unit (suc rounds) polls now deadline)
            (λ s e n g. (s, e, λ a. ground (arith, eq_iff s "active", eq_iff s "failed"), n))
            (λ quiet g. ground arith)
            (λ (s, e, n, m). later.1 (ground (arith, eq_iff s "active", eq_iff s "failed"))) h,
    )

-- Whatever the guest answers and however long it takes, a wait for a unit ends after no more rounds
-- than there are half seconds in its timeout, and two. Where it ends with the unit active, or
-- failed, it saw the unit so in some round, and in every round before in a state that is neither.
pub wait_for_unit_returns :
    (timeout now : ℕ) (polls : ℕ → Poll)
    → let rounds = suc (suc (timeout / 500)) in
      let end = wait_for_unit rounds polls now (now + timeout) in
      (end ≢ UnitWait.out_of_rounds)
      × (end ≡ UnitWait.active
          → (k : ℕ) × (k < rounds)
            × Answers (polls k) "active"
            × ((j : ℕ) → j < k → Undecided (polls j)))
      × (end ≡ UnitWait.failed_unit
          → (k : ℕ) × (k < rounds)
            × Answers (polls k) "failed"
            × ((j : ℕ) → j < k → Undecided (polls j)))
wait_for_unit_returns timeout now polls =
    let rounds = suc (timeout / 500) in
    let saw = wait_for_unit-saw (suc rounds) polls now (now + timeout) in
    (wait-ends rounds polls now (now + timeout) (omega arith), saw.0, saw.1)
