-- ===== src/Events/Junit/Failures.antt =====
-- When the document counts a failure.
use user_mode_nixos.Prelude.{
  ◌<◌, String, ◌≡◌, refl, ◌↔◌, inl, inr, Bool, true, false, not, ◌&&◌, ◌||◌, none, some, List, [],
  ◌∷◌, Memᴰ, ◌==◌, if◌then◌else◌, Bool-cases, Option-cases, any-eq-true, arith, eq_iff, ||-eq-false,
  &&-eq-true,
}
use user_mode_nixos.Events.{Event, field_or, is_case}
use user_mode_nixos.Events.Junit.{
  kept, is_failing, same_phase, with_cases, failing_cases, Row, phase_state, case_state, case_row,
  phase_row, entry_of, add_entry, suite,
}

-- What a run counts as a failure: a failing test, or a phase that failed or was interrupted.
abbrev pub is_bad_event : Event → Bool
is_bad_event e =
    if is_case e.kind
    then is_failing (field_or "outcome" "" e)
    else field_or "state" "" e == "failed" || field_or "state" "" e == "interrupted"

same_text : (a b c : String) → (a == b) ≡ true → (a == c) ≡ (b == c)
same_text a b c h = let e : a ≡ b = (eq_iff a b).0 h in rw e refl

failing_case-state :
    (e : Event) → is_failing (field_or "outcome" "" e) ≡ true → (case_state e == "failed") ≡ true
unfolding case_state
failing_case-state e h = rw h refl

good_case-state :
    (e : Event) → is_failing (field_or "outcome" "" e) ≡ false → (case_state e == "failed") ≡ false
unfolding case_state
good_case-state e h = rw h (||-eq-false _ _ h).0

failed_phase-state :
    (e : Event)
    → (field_or "state" "" e == "failed" || field_or "state" "" e == "interrupted") ≡ true
    → ((phase_state e == "failed") ≡ true) × ((field_or "state" "" e == "deselected") ≡ false)
unfolding phase_state
failed_phase-state e h = elim (Bool-cases (field_or "state" "" e == "interrupted")) [
  | inl stopped ↦ (rw stopped refl, same_text _ _ "deselected" stopped)
  | inr other ↦
      let failed : (field_or "state" "" e == "failed") ≡ true = ground arith in
      (rw other failed, same_text _ _ "deselected" failed)
]

good_phase-state :
    (e : Event)
    → (field_or "state" "" e == "failed" || field_or "state" "" e == "interrupted") ≡ false
    → (phase_state e == "failed") ≡ false
unfolding phase_state
good_phase-state e h =
    let (a, b) =
      ||-eq-false (field_or "state" "" e == "failed") (field_or "state" "" e == "interrupted") h in
    rw b a

failing_phase :
    (name : String) (events : List Event) (e : Event)
    → is_case e.kind ≡ false
    → is_bad_event e ≡ true
    → failing_cases e.phase events ≡ false
    → (entry_of name events e ≡ some (phase_row name e)) × ((phase_state e == "failed") ≡ true)
unfolding entry_of
failing_phase name events e k h alone =
    let (failed, present) = failed_phase-state e (
      let b : (field_or "state" "" e == "failed" || field_or "state" "" e == "interrupted") ≡ true =
        rw k at h in
      b) in
    (
      rw (k, present, failed, alone)
          (elim (Bool-cases (with_cases e.phase events)) [ inl y ↦ rw y refl | inr n ↦ rw n refl ]),
      failed,
    )

failing_case :
    (name : String) (events : List Event) (e : Event)
    → is_case e.kind ≡ true
    → is_failing (field_or "outcome" "" e) ≡ true
    → (row : Row) × (entry_of name events e ≡ some row) × ((row.state == "failed") ≡ true)
unfolding entry_of
failing_case name events e k h = (case_row name e, rw k refl, failing_case-state e h)

-- A row that failed is counted.
counted :
    (first_line : String → String) (name : String) (events es : List Event) (e : Event) (row : Row)
    → Memᴰ e es
    → entry_of name events e ≡ some row
    → (row.state == "failed") ≡ true
    → 0 < (suite first_line name events es).failures
unfolding suite add_entry
counted first_line name events [] e row m h f = elim m [ ]
counted first_line name events (x ∷ es) e row (Memᴰ.head s) h f =
    let k : entry_of name events x ≡ some row = rw s at h in rw (k, f) (omega arith)
counted first_line name events (x ∷ es) e row (Memᴰ.tail m) h f =
    let later = counted first_line name events es e row m h f in
    elim (Option-cases (entry_of name events x)) [
      | inl skip ↦ rw skip later
      | inr (r, shown) ↦ rw shown (omega (arith, later))
    ]

-- Nothing is counted where no row failed.
uncounted :
    (first_line : String → String) (name : String) (events es : List Event)
    → ((e : Event) (row : Row)
        → Memᴰ e es
        → entry_of name events e ≡ some row
        → (row.state == "failed") ≡ false)
    → (suite first_line name events es).failures ≡ 0
unfolding suite add_entry
uncounted first_line name events [] h = refl
uncounted first_line name events (x ∷ es) h =
    let later = uncounted first_line name events es (λ e row m. h e row (Memᴰ.tail m)) in
    elim (Option-cases (entry_of name events x)) [
      | inl skip ↦ rw skip later
      | inr (r, shown) ↦ rw (shown, h x r (Memᴰ.head refl) shown) (omega (arith, later))
    ]

phase_entry :
    (name : String) (events : List Event) (e : Event) (row : Row)
    → is_case e.kind ≡ false
    → entry_of name events e ≡ some row
    → phase_row name e ≡ row
unfolding entry_of
phase_entry name events e row k h = elim (Bool-cases (field_or "state" "" e == "deselected")) [
  | inl absent ↦ let s : none ≡ some row = rw (k, absent) at h in cc
  | inr present ↦
      elim (Bool-cases (
        with_cases e.phase events
        && not (phase_state e == "failed" && not (failing_cases e.phase events)))) [
          | inl hidden ↦ let s : none ≡ some row = rw (k, present, hidden) at h in cc
          | inr shown ↦
              let s : some (phase_row name e) ≡ some row = rw (k, present, shown) at h in cc
        ]
]

good_row :
    (name : String) (events : List Event) (e : Event) (row : Row)
    → is_bad_event e ≡ false
    → entry_of name events e ≡ some row
    → (row.state == "failed") ≡ false
unfolding entry_of
good_row name events e row h k = elim (Bool-cases (is_case e.kind)) [
  | inl test ↦
      let s : some (case_row name e) ≡ some row = rw test at k in
      let same : case_row name e ≡ row = cc in
      let good : is_failing (field_or "outcome" "" e) ≡ false = rw test at h in
      rw (← same) (good_case-state e good)
  | inr phase ↦
      let good : (field_or "state" "" e == "failed" || field_or "state" "" e == "interrupted")
          ≡ false =
        rw phase at h in
      let same = phase_entry name events e row phase k in rw (← same) (good_phase-state e good)
]

-- A failing event counts, itself or through a failing test of its phase.
bad_counts :
    (first_line : String → String) (name : String) (events : List Event) (e : Event)
    → Memᴰ e events
    → is_bad_event e ≡ true
    → 0 < (suite first_line name events events).failures
unfolding failing_cases
bad_counts first_line name events e m h = elim (Bool-cases (is_case e.kind)) [
  | inl test ↦
      let (row, shown, failed) =
        failing_case name events e test
          (let f : is_failing (field_or "outcome" "" e) ≡ true = rw test at h in f) in
      counted first_line name events events e row m shown failed
  | inr phase ↦ elim (Bool-cases (failing_cases e.phase events)) [
    | inl through ↦
        let (f, n, both) =
          any-eq-true
            (λ x.
              (is_case x.kind && is_failing (field_or "outcome" "" x))
              && same_phase e.phase x.phase)
            events through in
        let (test, failing) =
          &&-eq-true (is_case f.kind) (is_failing (field_or "outcome" "" f))
            (&&-eq-true (is_case f.kind && is_failing (field_or "outcome" "" f))
              (same_phase e.phase f.phase) both).0 in
        let (row, shown, failed) = failing_case name events f test failing in
        counted first_line name events events f row n shown failed
    | inr alone ↦
        let (shown, failed) = failing_phase name events e phase h alone in
        counted first_line name events events e (phase_row name e) m shown failed
  ]
]

-- The document counts no failure exactly when, by hand apart, no test failed and no phase failed or
-- was interrupted: the rows that are left out hide no failure.
pub junit_failures :
    (first_line : String → String) (name : String) (events : List Event)
    → ((suite first_line name (kept events) (kept events)).failures ≡ 0)
      ↔ ((e : Event) → Memᴰ e (kept events) → is_bad_event e ≡ false)
junit_failures first_line name events = (
  λ none e m. elim (Bool-cases (is_bad_event e)) [
    | inl bad ↦
        let k = bad_counts first_line name (kept events) e m bad in
        absurd (let no : ⊥ = omega arith in no)
    | inr good ↦ good
  ],
  λ good.
      uncounted first_line name (kept events) (kept events)
        (λ e row m shown. good_row name (kept events) e row (good e m) shown),
)
