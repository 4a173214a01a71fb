-- ===== src/Tests/Evals.antt =====
-- The evaluation server on a small run.
use user_mode_nixos.Prelude.{
  ◌≤◌, String, true, false, Option, none, some, List, [], ◌∷◌, ◌++◌, if◌then◌else◌, length, take,
  any, join, ◌≡◌, refl, Memᴰ,
}
use user_mode_nixos.Eval.Argv.{
  Start, run_argv, argv_head, argv_options, argv_pytest, repeated, split_attr, Known, parse,
}
use user_mode_nixos.Eval.Argv.Arrives.{pytest_args_arrive}
use user_mode_nixos.Eval.Channel.{Event, Pushed}
use user_mode_nixos.Eval.Watch.{
  is_terminal, Monitor, Run, offer_all, push, connect, pushes, Round, exited_event, watch,
}
use user_mode_nixos.Eval.Watch.Monitors.{Step, Reach, new_run, monitor_follows}
use user_mode_nixos.Eval.Watch.Follows.{until_terminal}
use user_mode_nixos.Eval.Watch.Departures.{departing_monitor_blocks}
use user_mode_nixos.Eval.Watch.Verdict.{is_verdict, lines_read, watch_exact}
use user_mode_nixos.Eval.Select.{Query, matches, matching, select}
use user_mode_nixos.Eval.Select as Select
use user_mode_nixos.Eval.Select.Suffix.{select_suffix}
use user_mode_nixos.Eval.Exit.{is_failure, why_it_exited}
use user_mode_nixos.Eval.Exit.Shown.{why_it_exited_shows}

abbrev lan : Start
lan = record {
  out = "/tmp/o";
  attr = some ("lan" ∷ "qemu" ∷ []);
  spec = none;
  file = ".";
  breaks = "two" ∷ [];
  break_on_failure = true;
  only = [];
  offline = false;
  pytest_args = "-k" ∷ "etcd" ∷ [];
  runner = none;
  kernel = none;
}

abbrev lan_words : List String
lan_words = "run" ∷ "lan.qemu" ∷ "--file" ∷ "." ∷ []

abbrev lan_known : Known
lan_known = record {
  command = "run";
  file = ".";
  attr = "lan" ∷ "qemu" ∷ [];
  unknown = "--out" ∷ "/tmp/o" ∷ [];
}

abbrev knows : List String → Option Known
knows words = some lan_known

pytest_args_arrive_sample :
    (argv : List String) × (run_argv "/bin" "/bin/python" lan ≡ some ("/bin/uml-eval" ∷ argv))
    × (parse knows argv
        ≡ some (record {
          command = "run";
          file = ".";
          attr = "lan" ∷ "qemu" ∷ [];
          rest = ("--out" ∷ "/tmp/o" ∷ []) ++ argv_pytest ("-k" ∷ "etcd" ∷ []);
        }))
unfolding argv_head argv_options split_attr repeated join
pytest_args_arrive_sample =
    pytest_args_arrive "/bin" "/bin/python" lan knows lan_known "/bin/uml-eval" lan_words refl refl
      refl refl

abbrev finished : Pushed
finished = ("run passed", ("run", "x") ∷ ("event", "finished") ∷ [])

-- A monitor connects, an event is pushed, and it is sent.
abbrev one_monitor : Run
one_monitor = push finished (connect new_run)

abbrev watching : Monitor
watching = record { sent = []; todo = []; queue = finished ∷ []; over = false; listed = true }

one_monitor-Reach : Reach one_monitor
unfolding connect
one_monitor-Reach =
    Reach.next (connect new_run) _ (Reach.next new_run _ Reach.start (Step.connected new_run))
      (Step.pushed (connect new_run) finished refl)

monitor_follows_example :
    ((rest : List Pushed) × (watching.sent ++ rest ≡ one_monitor.backlog))
    × (until_terminal watching.sent ≡ watching.sent)
    × (one_monitor.failed ≡ false
        → watching.over ≡ false
        → watching.todo ≡ []
        → watching.queue ≡ []
        → watching.sent ≡ one_monitor.backlog)
unfolding push offer_all connect
monitor_follows_example = monitor_follows one_monitor watching one_monitor-Reach (Memᴰ.head refl)

-- A monitor that has its last event leaves, and another one waits behind it.
abbrev leaving : Monitor
leaving = record { sent = finished ∷ []; todo = []; queue = []; over = true; listed = true }

abbrev waiting : Monitor
waiting = record { sent = []; todo = []; queue = []; over = false; listed = true }

abbrev two_monitors : Run
two_monitors = record { backlog = []; monitors = leaving ∷ waiting ∷ []; failed = false }

departing_monitor_blocks_example :
    ((push finished two_monitors).failed ≡ true)
    × ((push finished two_monitors).backlog ≡ finished ∷ [])
    × ((push finished two_monitors).monitors ≡ leaving ∷ waiting ∷ [])
departing_monitor_blocks_example =
    departing_monitor_blocks finished leaving [] (waiting ∷ []) two_monitors refl refl refl

-- A line is the kind of its event.
abbrev loads : String → Option Event
loads l = some (record {
  kind = l;
  phase = "boot";
  seconds = 2500;
  reason = none;
  state = "passed";
  error = "";
  passed = true;
  states = [];
})

abbrev as_is : String → String
as_is s = s

abbrev rounds : List Round
rounds =
    record { lines = "phase_started" ∷ []; ended = false }
    ∷ record { lines = []; ended = true }
    ∷ []

watch_exact_example :
    let pushed = watch loads as_is "x" "1" "killed" false rounds in
    (pushed
      ≡ pushes loads as_is "x" (lines_read rounds)
        ++ (if any (is_verdict loads) (lines_read rounds)
            then []
            else exited_event "x" "1" "killed" ∷ []))
    × (any is_terminal pushed ≡ true)
watch_exact_example = watch_exact loads as_is "x" "1" "killed" rounds refl

abbrev parsed : String → Option Select.Event
parsed l =
    some (record {
      kind = some "case";
      machine = none;
      phase = none;
      unit = none;
      case = l;
      text = "";
    })

abbrev query : Query
query = record {
  kind = some "case";
  machine = none;
  unit = none;
  phase = none;
  case = some "etcd";
  contains = none;
}

abbrev three : List String
three = "test_etcd" ∷ "test_boot" ∷ "etcd_again" ∷ []

select_suffix_sample :
    let found = matching parsed query three in
    let answer = select parsed query 1 three in
    ((front : List Select.Event) × (front ++ answer ≡ found))
    × (1 ≤ 1 → length answer ≤ 1)
    × (length found ≤ 1 → answer ≡ found)
    × ((e : Select.Event)
        → Memᴰ e answer
        → ((l : String) × Memᴰ l three × (parsed l ≡ some e)) × (matches query e ≡ true))
select_suffix_sample = select_suffix parsed query 1 three

select-sample : length (matching parsed query three) ≡ 2
unfolding matching matches
select-sample = refl

why_it_exited_shows_sample :
    ((before : List String) (line : String) (after : List String)
      → any is_failure before ≡ false
      → is_failure line ≡ true
      → why_it_exited 15 (before ++ (line ∷ after)) ≡ line ∷ take 3 after)
    × ((lines : List String)
        → any is_failure lines ≡ false
        → ((front : List String) × (front ++ why_it_exited 15 lines ≡ lines))
          × (length (why_it_exited 15 lines) ≤ 15)
          × (length lines ≤ 15 → why_it_exited 15 lines ≡ lines))
why_it_exited_shows_sample = why_it_exited_shows 14
