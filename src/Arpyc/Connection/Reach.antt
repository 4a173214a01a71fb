-- ===== src/Arpyc/Connection/Reach.antt =====
-- The states an endpoint reaches while calls, cancellations, messages and its end interleave.
use user_mode_nixos.Prelude.{
  ℕ, ◌<◌, String, Bool, true, false, not, ◌&&◌, ◌||◌, Option, none, some, if◌then◌else◌, nat_eq,
  ltb, [], ◌≡◌, ◌⊎◌, refl, inl, inr, Bool-cases, arith,
}
use user_mode_nixos.Arpyc.Boxes.{Obj}
use user_mode_nixos.Arpyc.Connection.{
  Answer, Outcome, Frame, Message, Endpoint, endpoint, has, answer_of, close, put, call, cancel,
  dispatch, settle, respond, accept, serve_one,
}
use user_mode_nixos.Arpyc.Connection.Answers.{
  answered, answered-eq, answered-resolve, answered-end_all, has-filter,
}

-- A message that the peer of this program sends: its content can be rebuilt.
abbrev pub readable : Message → Bool
readable (Message.request_message _ _ _) = true
readable (Message.reply_message _ (some _)) = true
readable (Message.reply_message _ none) = false
readable (Message.exception_message _ (some _)) = true
readable (Message.exception_message _ none) = false
readable (Message.other_message _) = false

-- One turn of the event loop, where messages of one kind come. A write on a closed channel may raise
-- or go through, and a message that was read before the end may be served behind it.
pub data Step (dumpable : Obj → Bool) (exposed : String → Obj → Obj → Outcome)
    (allowed : Message → Bool) : Endpoint → Endpoint → Type 0 where
  called :
      (e : Endpoint) (wrote : Bool) (method : String) (args kwargs : Obj)
      → Step dumpable exposed allowed e (call dumpable wrote method args kwargs e)
  cancelled :
      (e : Endpoint) (q : ℕ) → has q e.waiting ≡ true → Step dumpable exposed allowed e (cancel q e)
  served :
      (e : Endpoint) (wrote : Bool) (m : Message)
      → allowed m ≡ true
      → Step dumpable exposed allowed e (serve_one dumpable exposed wrote m e)
  ended : (e : Endpoint) → Step dumpable exposed allowed e (close e)

-- Any number of turns.
pub data Steps (dumpable : Obj → Bool) (exposed : String → Obj → Obj → Outcome)
    (allowed : Message → Bool) (from : Endpoint) : Endpoint → Type 0 where
  start : Steps dumpable exposed allowed from from
  next :
      (e f : Endpoint)
      → Steps dumpable exposed allowed from e
      → Step dumpable exposed allowed e f
      → Steps dumpable exposed allowed from f

-- A call that waits has its answer, or its future is pending.
abbrev pub tracked : ℕ → Endpoint → Bool
tracked q e = not (has q e.waiting) || (answered q e.answers || has q e.pending)

-- A number that a future is known by was given out.
abbrev pub given : ℕ → Endpoint → Bool
given q e = not (has q e.waiting || (answered q e.answers || has q e.pending)) || ltb q e.seq

-- The end was told the service, and closed the channel, exactly once.
abbrev pub told : Endpoint → Bool
told e =
    nat_eq e.disconnects (if e.closed then 1 else 0)
    && (if e.closed then not e.channel_open else e.channel_open)

pub record Sound (e : Endpoint) : Type 0 where
  tracks : (q : ℕ) → tracked q e ≡ true
  gives : (q : ℕ) → given q e ≡ true
  tells : told e ≡ true

close-Sound : (e : Endpoint) → Sound e → Sound (close e)
unfolding close
close-Sound e s = elim (Bool-cases e.closed) [
  | inl h ↦ record {
    tracks = λ q. ground (arith, s.tracks q);
    gives = λ q. ground (arith, s.gives q);
    tells = ground (arith, s.tells);
  }
  | inr h ↦ record {
    tracks = λ q. ground (arith, s.tracks q, answered-end_all q e.pending e.answers);
    gives = λ q. ground (arith, s.gives q, answered-end_all q e.pending e.answers);
    tells = ground (arith, s.tells);
  }
]

put-Sound : (f : Frame) (e : Endpoint) → Sound e → Sound (put f e)
unfolding put
put-Sound f e s = record { tracks = s.tracks; gives = s.gives; tells = s.tells }

settle-Sound : (q : ℕ) (a : Answer) (e : Endpoint) → Sound e → Sound (settle q (some a) e)
unfolding settle
settle-Sound q a e s = record {
  tracks =
      λ p. ground (arith, s.tracks p, answered-resolve p q a e.answers, has-filter p q e.pending);
  gives =
      λ p. ground (arith, s.gives p, answered-resolve p q a e.answers, has-filter p q e.pending);
  tells = s.tells;
}

call-Sound :
    (dumpable : Obj → Bool) (wrote : Bool) (m : String) (args kwargs : Obj) (e : Endpoint)
    → Sound e
    → Sound (call dumpable wrote m args kwargs e)
unfolding call
call-Sound dumpable true m args kwargs e s = record {
  tracks = λ q. ground (arith, s.tracks q);
  gives = λ q. ground (arith, s.gives q);
  tells = s.tells;
}
call-Sound dumpable false m args kwargs e s = record {
  tracks = λ q. ground (arith, s.tracks q);
  gives = λ q. ground (arith, s.gives q);
  tells = s.tells;
}

cancel-Sound : (q : ℕ) (e : Endpoint) → has q e.waiting ≡ true → Sound e → Sound (cancel q e)
unfolding cancel
cancel-Sound q e h s = record {
  tracks = λ p. ground (arith, s.tracks p, answered-resolve p q Answer.cancelled e.answers);
  gives =
      λ p. ground (arith, s.gives p, s.gives q, answered-resolve p q Answer.cancelled e.answers);
  tells = s.tells;
}

respond-Sound :
    (wrote : Bool) (f : Option Frame) (e : Endpoint) → Sound e → Sound (respond wrote f e)
unfolding respond
respond-Sound wrote none e s = close-Sound e s
respond-Sound true (some f) e s = put-Sound f e s
respond-Sound false (some f) e s = close-Sound e s

serve_one-Sound :
    (dumpable : Obj → Bool) (exposed : String → Obj → Obj → Outcome) (wrote : Bool) (m : Message)
    (e : Endpoint)
    → readable m ≡ true
    → Sound e
    → Sound (serve_one dumpable exposed wrote m e)
unfolding serve_one accept
serve_one-Sound dumpable exposed wrote (Message.request_message q handler boxed) e h s =
    respond-Sound wrote (dispatch dumpable exposed q handler boxed) e s
serve_one-Sound dumpable exposed wrote (Message.reply_message q (some o)) e h s =
    settle-Sound q (Answer.value o) e s
serve_one-Sound dumpable exposed wrote (Message.reply_message q none) e h s = cc
serve_one-Sound dumpable exposed wrote (Message.exception_message q (some t)) e h s =
    settle-Sound q (Answer.raised t) e s
serve_one-Sound dumpable exposed wrote (Message.exception_message q none) e h s = cc
serve_one-Sound dumpable exposed wrote (Message.other_message q) e h s = cc

module _ (dumpable : Obj → Bool) (exposed : String → Obj → Obj → Outcome) where
  step-Sound : {e f : Endpoint} → Step dumpable exposed readable e f → Sound e → Sound f
  step-Sound (Step.called e wrote m args kwargs) s = call-Sound dumpable wrote m args kwargs e s
  step-Sound (Step.cancelled e q h) s = cancel-Sound q e h s
  step-Sound (Step.served e wrote m h) s = serve_one-Sound dumpable exposed wrote m e h s
  step-Sound (Step.ended e) s = close-Sound e s

  steps-Sound : {from e : Endpoint} → Steps dumpable exposed readable from e → Sound from → Sound e
  steps-Sound Steps.start s = s
  steps-Sound (Steps.next e f before step) s = step-Sound step (steps-Sound before s)

start-Sound : Sound endpoint
start-Sound = record { tracks = λ q. refl; gives = λ q. refl; tells = refl }

-- In every state that calls, cancellations, readable messages and the end lead to, in any order: when
-- the connection is closed, every call that waits has its answer from then on; in a closed one, a call
-- that waits has its answer, or was made behind the end and is still pending; every number that a
-- future is known by is below `_seq`, so that the next call gets a new one; and `on_disconnect` was
-- called once, and the channel closed, exactly where the connection is closed.
pub connection_sound :
    (dumpable : Obj → Bool) (exposed : String → Obj → Obj → Outcome) (e : Endpoint)
    → Steps dumpable exposed readable endpoint e
    → ((q : ℕ)
        → e.closed ≡ false
        → has q e.waiting ≡ true
        → ((a : Answer) × (answer_of q (close e).answers ≡ some a)) × ((close e).pending ≡ []))
      × ((q : ℕ)
          → e.closed ≡ true
          → has q e.waiting ≡ true
          → ((a : Answer) × (answer_of q e.answers ≡ some a)) ⊎ (has q e.pending ≡ true))
      × ((q : ℕ) → has q e.pending ≡ true → q < e.seq)
      × (e.disconnects ≡ (if e.closed then 1 else 0))
      × (e.channel_open ≡ not e.closed)
unfolding close
connection_sound dumpable exposed e steps =
    let s = steps-Sound dumpable exposed steps start-Sound in
    (
      λ q o w. (
        answered-eq q (close e).answers
            (ground (arith, s.tracks q, answered-end_all q e.pending e.answers)),
        rw o refl,
      ),
      λ q h w. elim (Bool-cases (answered q e.answers)) [
        | inl a ↦ inl (answered-eq q e.answers a)
        | inr n ↦ inr (ground (arith, s.tracks q))
      ],
      λ q h. ground (arith, s.gives q),
      ground (arith, s.tells),
      ground (arith, s.tells),
    )
