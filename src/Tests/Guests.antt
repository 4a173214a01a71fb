-- ===== src/Tests/Guests.antt =====
-- A guest: its end, its console, its commands and its memory.
use user_mode_nixos.Prelude.{
  Chars, ℕ, zero, suc, ◌+◌, ◌*◌, ◌/◌, ◌≤◌, ◌<◌, String, ◌==◌, Bool, true, false, ◌&&◌, none, some,
  List, [], ◌∷◌, ◌++◌, if◌then◌else◌, length, take, map, any, decimal, ◌≡◌, ◌≢◌, ◌↔◌, refl, arith,
}
use user_mode_nixos.Report.{Step}
use user_mode_nixos.Machine.Lifecycle.{Process, Action, Machine, Launch, new_machine, start}
use user_mode_nixos.Machine.Shutdown.{shutdown, reap, is_open, Stage, raising, shut_down}
use user_mode_nixos.Machine.Lifecycle.Released.{Released, shutdown_again}
use user_mode_nixos.Machine.Lifecycle.Halted.{
  is_removal, shutdown_halted, is_power_off, power_off_iff,
}
use user_mode_nixos.Machine.Console.{
  Read, Console, Next, Waited, console_history, pump_console, first_match, wait_for_line,
  take_lines,
}
use user_mode_nixos.Machine.Console.Found.{
  arriving, exits, line_of, history_bounded, wait_finds_first,
}
use user_mode_nixos.Machine.Commands.{
  Reply, Result, Log, Code, is_zero, Agent, label_or, execute, succeed, fail, Poll, UnitWait,
  wait_for_unit,
}
use user_mode_nixos.Machine.Commands.Answered.{execute_recorded, succeed_or_fail}
use user_mode_nixos.Machine.Commands.Waits.{Answers, Undecided, wait_for_unit_returns}
use user_mode_nixos.Machine.Memory.{
  memory_bytes, Entry, PidSource, host_memory_kib, found_or, Delta,
}
use user_mode_nixos.Machine.Memory.Found.{
  first_memfd, last_other, or_else, memory_bytes_reads, host_memory_kib_exact,
}
use user_mode_nixos.Mconsole.{balloon_size}
use user_mode_nixos.Mconsole.InStep.{
  Reply as ConsoleReply, answer_of, requests, all_datagrams, requests_in_step, balloon_size_reads,
}
use user_mode_nixos.Qmp.{slack, distance, Query, Ballooned, target_of, balloon}
use user_mode_nixos.Qmp.Balloon.{balloon_returns}

-- A guest that came up with one helper.
abbrev launch : Launch
launch = record {
  helpers = record { pid = 7; running = true } ∷ [];
  cleanup = "/tmp/uml" ∷ [];
  memory = true;
  spare_fds = [];
}

abbrev up : Machine
up = (start "/tmp/run" (some launch) 5 true new_machine).0

abbrev stays : Process → Process
stays p = p

-- The call of its agent raises an error that is not caught.
shutdown_halted_sample :
    let r = shutdown (some Stage.goodbye) true stays false true up in
    (r.0.cleanup ≡ up.cleanup)
    × (r.0.rundir ≡ up.rundir)
    × (any is_removal r.1 ≡ false)
    × (Stage.goodbye ≡ Stage.goodbye → r ≡ (up, Action.power_off ∷ []))
unfolding raising start
shutdown_halted_sample = shutdown_halted Stage.goodbye true false true stays up refl

shutdown_again_sample :
    shutdown none false stays true true (shutdown none true stays false true up).0
    ≡ ((shutdown none true stays false true up).0, [])
unfolding shutdown raising shut_down start reap
shutdown_again_sample = shutdown_again true false true true stays stays up refl

power_off_iff_sample :
    any is_power_off (shutdown none true stays false true up).1 ≡ (is_open up.connection && true)
power_off_iff_sample = power_off_iff true false true stays up

abbrev as_is : String → String
as_is s = s

abbrev silent : Console
silent = record { history = []; queue = []; logged = [] }

history_bounded_sample :
    length (pump_console as_is (Read.line "ready" ∷ Read.ended ∷ []) silent).history
    ≤ console_history
history_bounded_sample =
    history_bounded as_is (Read.line "ready" ∷ Read.ended ∷ []) silent (omega arith)

abbrev is_ready : String → Bool
is_ready s = s == "ready"

abbrev coming : List Next
coming = Next.nothing false ∷ Next.got "ready" ∷ []

wait_finds_first_example :
    (line_of (wait_for_line is_ready ("boot" ∷ []) coming)
      ≡ first_match is_ready ("boot" ∷ arriving coming))
    × (first_match is_ready ("boot" ∷ arriving coming) ≡ none
        → wait_for_line is_ready ("boot" ∷ []) coming
          ≡ (if exits coming then Waited.guest_exited else Waited.waiting))
wait_finds_first_example = wait_finds_first is_ready ("boot" ∷ []) coming

ready-found : line_of (wait_for_line is_ready ("boot" ∷ []) coming) ≡ some "ready"
unfolding wait_for_line first_match take_lines
ready-found = refl

abbrev log : Log
log = record { recorder = record { machines = []; steps = [] }; told = [] }

abbrev agent : Agent
agent command timeout deadline = Reply.replied (Code.exit_code 1, "no such file")

-- "ls"
abbrev ls : Chars
ls = 108 ∷ 115 ∷ []

execute_recorded_sample :
    let after = (execute (some agent) "one" 120000 ls none none 9 4 log).0 in
    (s : Step) × (after.recorder.steps ≡ s ∷ [])
    × (s.kind ≡ "rpc")
    × (s.machine ≡ "one")
    × (s.what ≡ take 200 (label_or ls none))
    × (s.seconds ≡ 4)
    × (after.told ≡ (label_or ls none, 4) ∷ [])
execute_recorded_sample = execute_recorded agent "one" 120000 ls none none 9 4 log

succeed_or_fail_sample :
    ((succeed (some agent) "one" 120000 ls none 9 4 log).1 ≡ Result.ok "no such file" ↔ (
      (rc : Code) × ((execute (some agent) "one" 120000 ls none none 9 4 log).1
        ≡ Result.ok (rc, "no such file"))
      × (is_zero rc ≡ true)))
    × ((fail (some agent) "one" 120000 ls none 9 4 log).1 ≡ Result.ok "no such file" ↔ (
        (rc : Code) × ((execute (some agent) "one" 120000 ls none none 9 4 log).1
          ≡ Result.ok (rc, "no such file"))
        × (is_zero rc ≡ false)))
succeed_or_fail_sample = succeed_or_fail (some agent) "one" 120000 ls none 9 4 log "no such file"

-- A unit that is active in the second round.
abbrev polls : ℕ → Poll
polls zero = record { state = Reply.replied "activating"; took = 3 }
polls (suc _) = record { state = Reply.replied "active"; took = 3 }

wait_for_unit_returns_example :
    let end = wait_for_unit (suc (suc (2000 / 500))) polls 0 (0 + 2000) in
    (end ≢ UnitWait.out_of_rounds)
    × (end ≡ UnitWait.active
        → (k : ℕ) × (k < suc (suc (2000 / 500)))
          × Answers (polls k) "active"
          × ((j : ℕ) → j < k → Undecided (polls j)))
    × (end ≡ UnitWait.failed_unit
        → (k : ℕ) × (k < suc (suc (2000 / 500)))
          × Answers (polls k) "failed"
          × ((j : ℕ) → j < k → Undecided (polls j)))
wait_for_unit_returns_example = wait_for_unit_returns 2000 0 polls

unit-active : wait_for_unit 6 polls 0 2000 ≡ UnitWait.active
unfolding wait_for_unit
unit-active = refl

-- "4K"
memory_bytes_reads_sample : memory_bytes (decimal 4 ++ (75 ∷ [])) ≡ some (4 * 1024)
memory_bytes_reads_sample = memory_bytes_reads 4 75 1024 refl

abbrev entries : List Entry
entries = Entry.entry true false 4096 8 ∷ Entry.unreadable ∷ Entry.entry true true 4096 2 ∷ []

host_memory_kib_exact_sample :
    (host_memory_kib PidSource.own_pid (52 ∷ 75 ∷ []) entries
      ≡ found_or (or_else (first_memfd 4096 entries) (last_other 4096 entries)))
    × (host_memory_kib (PidSource.pid_file true) (52 ∷ 75 ∷ []) entries
        ≡ host_memory_kib PidSource.own_pid (52 ∷ 75 ∷ []) entries)
unfolding decimal
host_memory_kib_exact_sample =
    host_memory_kib_exact (52 ∷ 75 ∷ []) 4096 entries memory_bytes_reads_sample

-- A refusal in two datagrams, then an answer.
abbrev turns : List (Chars × ConsoleReply)
turns =
    (
      99 ∷ [],
      record {
        parts = record { err = 1; more = true; text = 110 ∷ [] } ∷ [];
        end = record { err = 0; more = false; text = 111 ∷ [] };
      },
    )
    ∷ (104 ∷ [], record { parts = []; end = record { err = 0; more = false; text = 107 ∷ [] } })
    ∷ []

requests_in_step_example :
    requests ((99 ∷ []) ∷ (104 ∷ []) ∷ []) (all_datagrams turns) ≡ map (λ t. answer_of t.1) turns
requests_in_step_example = requests_in_step turns refl

balloon_size_reads_sample : memory_bytes (balloon_size 5000) ≡ some ((5000 / 1024) * 1024)
balloon_size_reads_sample = balloon_size_reads 5000

-- A guest that has what is wanted at once.
abbrev queries : ℕ → Query
queries _ = record { actual = 100000000; took = 5 }

balloon_returns_example :
    let end = balloon (suc (suc (60000 / 200))) queries 0 60000 108000000 (Delta.less 8000000) in
    let target = target_of 108000000 (Delta.less 8000000) in
    (end ≢ Ballooned.out_of_rounds)
    × ((n : ℕ)
        → end ≡ Ballooned.arrived n
        → (k : ℕ) × ((queries k).actual ≡ n) × (distance n target ≤ slack))
    × ((n : ℕ)
        → end ≡ Ballooned.stalled n
        → (k : ℕ) × ((queries k).actual ≡ n) × (slack < distance n target))
balloon_returns_example = balloon_returns queries 0 60000 108000000 (Delta.less 8000000)
