-- ===== src/Control/Resume.antt =====
-- When a paused run goes on.
use user_mode_nixos.Prelude.{
  ℕ, String, Bool, true, false, not, List, [], ◌∷◌, ◌++◌, if◌then◌else◌, ◌≡◌, not-eq-true, refl, ap,
  length, inl, inr, Bool-cases, arith,
}
use user_mode_nixos.Control.{
  Op, Field, Line, Parsed, Reply, Controller, Server, parse_request, pause, wake, handle, answer,
  after_reply, arrive, without, sent,
}

-- A line that asks to go on.
abbrev pub is_continue : Parsed → Bool
is_continue (Parsed.request Op.continue_op _) = true
is_continue _ = false

abbrev pub continues : Line → Bool
continues line = is_continue (parse_request line)

-- What happens to a server whose clients send lines of one kind: the drive pauses, and goes on once
-- the event is set; a line is handled, a reply sent. A reply that cannot be sent ends the drive with an error.
pub data Steps (allowed : Line → Bool) : Server → Type 0 where
  start : Steps allowed (record {
    controller = record { paused = false; resumed = false; asked = false };
    replying = [];
  })
  pausing :
      (s : Server)
      → Steps allowed s
      → s.controller.paused ≡ false
      → Steps allowed (record { controller = pause s.controller; replying = s.replying })
  waking :
      (s : Server)
      → Steps allowed s
      → s.controller.resumed ≡ true
      → Steps allowed (record { controller = wake s.controller; replying = s.replying })
  arriving :
      (s : Server) (line : Line)
      → Steps allowed s
      → allowed line ≡ true
      → Steps allowed (arrive line s)
  sending : (s : Server) (n : ℕ) → Steps allowed s → Steps allowed (sent n s)

abbrev pub Quiet : Controller → Type 0
Quiet c = (c.asked ≡ false) × (c.resumed ≡ false)

first_either :
    (b : Bool) (c : Controller) (r q : Reply)
    → (if◌then◌else◌ {A = Controller × Reply} b (c, r) (c, q)).0 ≡ c
first_either true c r q = refl
first_either false c r q = refl

-- What no request to go on changes.
answer_same : (p : Parsed) (c : Controller) → is_continue p ≡ false → (answer p c).0 ≡ c
answer_same (Parsed.bad e) c h = refl
answer_same (Parsed.request Op.state arg) c h = refl
answer_same (Parsed.request Op.exec arg) c h = first_either c.paused c _ _
answer_same (Parsed.request Op.inject arg) c h = first_either c.paused c _ _
answer_same (Parsed.request Op.run arg) c h = first_either c.paused c _ _
answer_same (Parsed.request Op.pytest arg) c h = first_either c.paused c _ _
answer_same (Parsed.request Op.continue_op arg) c h = cc

continue-asked :
    (p : Parsed) (c : Controller)
    → is_continue p ≡ true
    → c.paused ≡ true
    → ((answer p c).0.paused ≡ true) × ((answer p c).0.asked ≡ true)
continue-asked (Parsed.request Op.continue_op arg) c y h = rw h (refl, refl)
continue-asked (Parsed.request Op.state arg) c y h = cc
continue-asked (Parsed.request Op.exec arg) c y h = cc
continue-asked (Parsed.request Op.inject arg) c y h = cc
continue-asked (Parsed.request Op.run arg) c y h = cc
continue-asked (Parsed.request Op.pytest arg) c y h = cc
continue-asked (Parsed.bad e) c y h = cc

answer-asked :
    (p : Parsed) (c : Controller)
    → c.paused ≡ true
    → c.asked ≡ true
    → ((answer p c).0.paused ≡ true) × ((answer p c).0.asked ≡ true)
answer-asked p c h k = elim (Bool-cases (is_continue p)) [
  | inr n ↦ rw (answer_same p c n) (h, k)
  | inl y ↦ continue-asked p c y h
]

handle-Quiet :
    (line : Line) (c : Controller) → not (continues line) ≡ true → Quiet c → Quiet (handle line c).0
unfolding handle
handle-Quiet line c h q = rw (answer_same (parse_request line) c (not-eq-true _ h)) q

-- As long as no client asks to go on, a pause lasts.
pub pause_lasts :
    (s : Server)
    → Steps (λ line. not (continues line)) s
    → (s.controller.asked ≡ false) × (s.controller.resumed ≡ false)
unfolding pause wake arrive sent after_reply
pause_lasts s Steps.start = (refl, refl)
pause_lasts s (Steps.pausing t before p) = ((pause_lasts t before).0, refl)
pause_lasts s (Steps.waking t before r) = ((pause_lasts t before).0, refl)
pause_lasts s (Steps.arriving t line before a) =
    handle-Quiet line t.controller a (pause_lasts t before)
pause_lasts s (Steps.sending t n before) =
    let (a, r) = pause_lasts t before in (ground arith, ground arith)

without-last : (rs : List Reply) (r : Reply) → without (length rs) (rs ++ (r ∷ [])) ≡ rs
unfolding without
without-last [] r = refl
without-last (a ∷ rs) r = ap (λ l. a ∷ l) (without-last rs r)

-- The next client to be answered lets a paused run go on that was asked to.
next_resumes :
    (line : Line) (t : Server)
    → t.controller.paused ≡ true
    → t.controller.asked ≡ true
    → let u = sent (length t.replying) (arrive line t) in
      (u.controller.resumed ≡ true) × (u.replying ≡ t.replying)
unfolding arrive sent after_reply handle
next_resumes line t h k =
    let (p, a) = answer-asked (parse_request line) t.controller h k in
    (rw (a, p) refl, without-last t.replying _)

-- A client that asks a paused run to go on is handled.
asked_of :
    (arg : String) (s : Server)
    → s.controller.paused ≡ true
    → arrive (Line.object (Field.text "continue") (Field.text arg)) s ≡ record {
      controller = record { paused = true; resumed = s.controller.resumed; asked = true };
      replying = s.replying ++ (Reply.continuing ∷ []);
    }
unfolding arrive handle parse_request
asked_of arg s p = rw p refl

-- The event that lets a paused run go on is set behind the reply of whichever client is answered
-- next: a second client that is handled meanwhile and answered first, whatever it asks, lets the run
-- go on while the one that asked still waits for its reply.
pub resumed_by_another :
    (arg : String) (line : Line) (s : Server)
    → s.controller.paused ≡ true
    → let asking = arrive (Line.object (Field.text "continue") (Field.text arg)) s in
      let other = sent (length asking.replying) (arrive line asking) in
      (other.controller.resumed ≡ true) × (other.replying ≡ s.replying ++ (Reply.continuing ∷ []))
resumed_by_another arg line s p =
    let asking : Server = record {
      controller = record { paused = true; resumed = s.controller.resumed; asked = true };
      replying = s.replying ++ (Reply.continuing ∷ []);
    } in
    rw (asked_of arg s p) (next_resumes line asking refl refl)
