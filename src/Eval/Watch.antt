-- ===== src/Eval/Watch.antt =====
-- `Runs.push`, `_watch` and `_monitor` of pkgs/uml-eval/uml_eval/server.py: the events of a run, and
-- the monitors that are sent them. `json.loads` and `str.strip` are parameters.
pub mod Follows
pub mod Monitors
pub mod Departures
pub mod Verdict
use Prim.Native.String.{◌++◌ as ◌<>◌}
use user_mode_nixos.Prelude.{
  ℕ, zero, suc, String, ◌==◌, Bool, true, false, Option, none, some, List, [], ◌∷◌, ◌++◌, ◌||◌,
  ◌&&◌, not, any, if◌then◌else◌, Dict, lookup,
}
use user_mode_nixos.Eval.Channel.{Event, Pushed, channel_event}

-- `event.get("event") in TERMINAL`
unfoldable pub is_terminal : Pushed → Bool
unfolding lookup
is_terminal event = elim (lookup "event" event.1) [
  | none ↦ false
  | some e ↦ (e == "finished") || (e == "exited")
]

-- A monitor: what it was sent, what is left of the copy of the backlog, its stream of events, whether
-- its loops are over, so that `receive` is closed, and whether its `send` is among the watchers.
pub record Monitor : Type 0 where
  pub sent : List Pushed
  pub todo : List Pushed
  pub queue : List Pushed
  pub over : Bool
  pub listed : Bool

-- `Run`: its backlog, the monitors that ever connected, and whether a push raised. Nothing but
-- `_watch` pushes, and it does not go on behind that.
pub record Run : Type 0 where
  pub backlog : List Pushed
  pub monitors : List Monitor
  pub failed : Bool

-- `watcher.send_nowait(event)`, where the watcher's stream is open.
abbrev pub offer : Pushed → Monitor → Monitor
offer event m =
    if m.listed
    then record {
      sent = m.sent;
      todo = m.todo;
      queue = m.queue ++ (event ∷ []);
      over = m.over;
      listed = true;
    }
    else m

-- A watcher that nobody receives for: `send_nowait` raises.
abbrev pub is_broken : Monitor → Bool
is_broken m = m.over && m.listed

-- The loop over the watchers, which a broken one ends.
unfoldable pub offer_all : Pushed → List Monitor → List Monitor
offer_all event [] = []
offer_all event (m ∷ ms) =
    let later = offer_all event ms in if is_broken m then m ∷ ms else offer event m ∷ later

-- `Runs.push`
unfoldable pub push : Pushed → Run → Run
unfolding offer_all
push event r = record {
  backlog = r.backlog ++ (event ∷ []);
  monitors = offer_all event r.monitors;
  failed = any is_broken r.monitors;
}

-- `_monitor`, up to its first `send`.
unfoldable pub connect : Run → Run
connect r = record {
  backlog = r.backlog;
  monitors =
      r.monitors
      ++ (record { sent = []; todo = r.backlog; queue = []; over = false; listed = true } ∷ []);
  failed = r.failed;
}

-- One turn of the loops of `_monitor`: the next event is sent, and ends it where it is terminal.
unfoldable pub turn : Monitor → Monitor
unfolding is_terminal
turn m = if m.over then m else elim m.todo [
  | e ∷ later ↦ record {
    sent = m.sent ++ (e ∷ []);
    todo = later;
    queue = m.queue;
    over = is_terminal e;
    listed = m.listed;
  }
  | [] ↦ elim m.queue [
    | e ∷ later ↦ record {
      sent = m.sent ++ (e ∷ []);
      todo = [];
      queue = later;
      over = is_terminal e;
      listed = m.listed;
    }
    | [] ↦ m
  ]
]

-- The monitor went away: a send of `_monitor` raises.
unfoldable pub hang_up : Monitor → Monitor
hang_up m = record { sent = m.sent; todo = m.todo; queue = m.queue; over = true; listed = m.listed }

-- `finally` of `_monitor`, which comes behind the wait in which its stream is closed.
unfoldable pub unlist : Monitor → Monitor
unlist m = record {
  sent = m.sent;
  todo = m.todo;
  queue = m.queue;
  over = m.over;
  listed = m.listed && not m.over;
}

-- The monitor at a place.
unfoldable pub at_place : ℕ → (Monitor → Monitor) → List Monitor → List Monitor
at_place n f [] = []
at_place zero f (m ∷ ms) = f m ∷ ms
at_place (suc n) f (m ∷ ms) = m ∷ at_place n f ms

unfoldable pub advance : ℕ → Run → Run
unfolding at_place turn
advance n r = record {
  backlog = r.backlog;
  monitors = at_place n turn r.monitors;
  failed = r.failed;
}

unfoldable pub leave : ℕ → Run → Run
unfolding at_place hang_up
leave n r = record {
  backlog = r.backlog;
  monitors = at_place n hang_up r.monitors;
  failed = r.failed;
}

unfoldable pub depart : ℕ → Run → Run
unfolding at_place unlist
depart n r = record {
  backlog = r.backlog;
  monitors = at_place n unlist r.monitors;
  failed = r.failed;
}

-- What one line of the event stream does to `finished`, and what is pushed for it.
abbrev pub sees : Option Event → Bool → Bool
sees none finished = finished
sees (some e) finished = finished || (e.kind == "run_finished")

unfoldable pub pushes :
    (String → Option Event) → (String → String) → String → List String → List Pushed
unfolding channel_event
pushes loads strip run [] = []
pushes loads strip run (l ∷ ls) =
    let later = pushes loads strip run ls in
    elim (loads l) [
      | none ↦ later
      | some e ↦ elim (channel_event strip e run) [ none ↦ later | some p ↦ p ∷ later ]
    ]

unfoldable pub finishes : (String → Option Event) → Bool → List String → Bool
finishes loads finished [] = finished
finishes loads finished (l ∷ ls) = finishes loads (sees (loads l) finished) ls

-- A round of `_watch`: the lines that were read, and whether the process is then seen to have ended.
pub record Round : Type 0 where
  pub lines : List String
  pub ended : Bool

-- The push of a run that ended without a verdict: its exit code and the end of its output.
unfoldable pub exited_event : String → String → String → Pushed
exited_event run exit_code tail = (
  "run exited " <> (exit_code <> (" without a verdict:\n" <> tail)),
  ("run", run) ∷ ("event", "exited") ∷ [],
)

-- `_watch`: what is pushed over its rounds.
unfoldable pub watch :
    (String → Option Event)
    → (String → String)
    → (run exit_code tail : String) → Bool
    → List Round
    → List Pushed
unfolding pushes finishes exited_event
watch loads strip run exit_code tail finished [] = []
watch loads strip run exit_code tail finished (r ∷ rounds) =
    let here = pushes loads strip run r.lines in
    let seen = finishes loads finished r.lines in
    let later = watch loads strip run exit_code tail seen rounds in
    if r.ended
    then here ++ (if seen then [] else exited_event run exit_code tail ∷ [])
    else here ++ later
