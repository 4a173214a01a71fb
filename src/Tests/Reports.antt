-- ===== src/Tests/Reports.antt =====
-- A report of nested steps.
use user_mode_nixos.Prelude.{
  ℕ, ◌+◌, ◌≤◌, ◌<◌, true, none, List, [], ◌∷◌, length, filter, in_order, sum_of, ◌≡◌, refl, arith,
}
use user_mode_nixos.Report.{
  Step, Report, toplevel, write, share, command, words, count, grouped, costlier, by_command,
}
use user_mode_nixos.Report.Covered.{
  covered, ticks, recorded_is_covered, recorded_within_total, partial_overlap_uncounted,
}
use user_mode_nixos.Report.Commands.{calls_of, seconds_of, ran, by_command_sums}

-- "ls -l /"
abbrev ls : List ℕ
ls = 108 ∷ 115 ∷ 32 ∷ 45 ∷ 108 ∷ 32 ∷ 47 ∷ []

abbrev wait : Step
wait = record { at = 1; machine = "one"; kind = "wait"; what = []; seconds = 5 }

abbrev call : Step
call = record { at = 1; machine = "one"; kind = "rpc"; what = ls; seconds = 2 }

abbrev later : Step
later = record { at = 8; machine = "one"; kind = "rpc"; what = ls; seconds = 1 }

abbrev steps : List Step
steps = call ∷ wait ∷ later ∷ []

steps-toplevel : toplevel steps ≡ 6
unfolding toplevel
steps-toplevel = refl

ls-command : command ls ≡ 108 ∷ 115 ∷ 32 ∷ 45 ∷ 108 ∷ []
unfolding command words
ls-command = refl

recorded_is_covered_example : toplevel steps ≡ ticks (covered steps) 0 10
recorded_is_covered_example = recorded_is_covered 10 steps refl refl

abbrev report : Report
report = record { machines = []; steps = steps }

recorded_within_total_example :
    let body = write 10 true none report in
    (body.recorded_seconds + body.unrecorded_seconds ≡ body.total_seconds) × (share 10 report ≤ 100)
recorded_within_total_example = recorded_within_total 10 true none report refl

abbrev second : Step
second = record { at = 3; machine = "two"; kind = "boot"; what = []; seconds = 6 }

partial_overlap_uncounted_example :
    (toplevel (wait ∷ second ∷ []) ≡ 5) × (5 < ticks (covered (wait ∷ second ∷ [])) 0 9)
partial_overlap_uncounted_example =
    partial_overlap_uncounted wait second (omega arith) (omega arith) (omega arith)

by_command_sums_sample :
    let key = command ls in
    (calls_of key (by_command steps) ≡ length (filter (ran key) steps))
    × (seconds_of key (by_command steps) ≡ sum_of (λ s. s.seconds) (filter (ran key) steps))
    × (in_order costlier (by_command steps) ≡ true)
unfolding grouped count command words
by_command_sums_sample = by_command_sums (command ls) steps (omega arith)
