-- ===== src/Tests/Segments.antt =====
-- The control socket, a segment, and a test's process.
use user_mode_nixos.Prelude.{
  Bytes, ℕ, ◌+◌, ◌*◌, ◌≤◌, Bool, true, false, none, some, List, [], ◌∷◌, ◌++◌, if◌then◌else◌,
  nat_eq, length, any, ◌≡◌, refl,
}
use user_mode_nixos.Control.{Op, Field, Line, Parsed, Reply, Server, parse_request, arrive, sent}
use user_mode_nixos.Control.Requests.{request_line, request_roundtrip}
use user_mode_nixos.Control.Resume.{resumed_by_another}
use user_mode_nixos.Lan.{Lan, Received, burst, others, flood}
use user_mode_nixos.Lan.Flood.{to_port, flood_accounts}
use user_mode_nixos.Machine.Lifecycle.{Process, Machine, Launch}
use user_mode_nixos.Machine.Lifecycle.Released.{Released}
use user_mode_nixos.Harness.{Guest}

request_roundtrip_sample :
    parse_request (request_line Op.exec "1 + 1") ≡ Parsed.request Op.exec "1 + 1"
request_roundtrip_sample = request_roundtrip Op.exec "1 + 1"

-- A paused run that no client talks to.
abbrev paused : Server
paused = record {
  controller = record { paused = true; resumed = false; asked = false };
  replying = [];
}

abbrev ask_state : Line
ask_state = request_line Op.state ""

resumed_by_another_example :
    let asking = arrive (Line.object (Field.text "continue") (Field.text "")) paused in
    let other = sent (length asking.replying) (arrive ask_state asking) in
    (other.controller.resumed ≡ true)
    × (other.replying ≡ paused.replying ++ (Reply.continuing ∷ []))
resumed_by_another_example = resumed_by_another "" ask_state paused refl

abbrev hub : Lan
hub = record {
  fds = [];
  dropped = 0;
  guest_ends = [];
  ports = 0 ∷ 2 ∷ 4 ∷ [];
  reading = 0 ∷ 2 ∷ 4 ∷ [];
}

-- One port is congested.
abbrev takes : ℕ → Bytes → Bool
takes port f = if nat_eq port 2 then false else true

abbrev arrived : List Received
arrived = Received.frame (1 ∷ []) ∷ Received.frame (2 ∷ []) ∷ Received.ended ∷ []

flood_accounts_sample :
    let r = flood takes 0 arrived hub in
    (any (to_port 0) r.1 ≡ false)
    × ((frames : ℕ) × (frames ≤ burst)
        × (length r.1 + r.0.dropped ≡ 0 + frames * length (others 0 hub.ports)))
flood_accounts_sample = flood_accounts takes 0 arrived hub

abbrev launch : Launch
launch = record { helpers = []; cleanup = "/tmp/uml" ∷ []; memory = true; spare_fds = [] }

abbrev stays : Process → Process
stays p = p

abbrev one : Guest
one = record {
  name = "one";
  rundir = "/tmp/run";
  launch = some launch;
  pid = 5;
  up = true;
  fault = none;
  alive = true;
  after_power_off = stays;
  ends_on_term = true;
  ends_on_kill = true;
}

-- A guest that the host cannot start.
abbrev two : Guest
two = record {
  name = "two";
  rundir = "/tmp/run2";
  launch = none;
  pid = 6;
  up = true;
  fault = none;
  alive = false;
  after_power_off = stays;
  ends_on_term = true;
  ends_on_kill = true;
}
