-- ===== src/Arpyc/Connection.antt =====
-- `AsyncConnection` of pkgs/uml-runner/uml_runner/arpyc.py: one endpoint, which serves requests and
-- makes calls. What `brine.dumpable` says, and what the exposed methods do, are parameters.
pub mod Answers
pub mod Reach
pub mod Exchange
use Prim.Native.String.{◌++◌ as ◌<>◌}
use user_mode_nixos.Prelude.{
  show, ℕ, zero, suc, ◌+◌, String, Bool, true, false, not, ◌||◌, Option, none, some, List, [], ◌∷◌,
  ◌++◌, if◌then◌else◌, nat_eq, filter,
}
use user_mode_nixos.Arpyc.Boxes.{Obj, Items, Package, box, unbox}

-- How a future is done: by a reply, by an exception of the peer, by the end of the connection, or
-- because its caller was cancelled.
pub data Answer : Type 0 where
  value : Obj → Answer
  raised : String → Answer
  connection_closed cancelled : Answer

-- What an exposed method does: it returns, or it raises.
pub data Outcome : Type 0 where
  returned : Obj → Outcome
  failed : String → Outcome

-- The frames this side writes.
pub data Frame : Type 0 where
  request_frame : ℕ → Package → Frame
  reply_frame : ℕ → Package → Frame
  exception_frame : ℕ → String → Frame

-- What a request asks for: `HANDLE_METHOD`, `HANDLE_PING`, `HANDLE_CLOSE`, or any other number.
pub data Handler : Type 0 where
  method_handle ping_handle close_handle : Handler
  unknown_handle : ℕ → Handler

-- What is received. The content of a reply or an exception is none where it cannot be rebuilt; and
-- a message of any other type is `other`.
pub data Message : Type 0 where
  request_message : ℕ → Handler → Package → Message
  reply_message : ℕ → Option Obj → Message
  exception_message : ℕ → Option String → Message
  other_message : ℕ → Message

-- The endpoint: `_seq`, the keys of `_pending`, the futures that are done, `_closed`, the calls
-- that wait for their future, how often `on_disconnect` was called, whether the channel is open,
-- and what was written to it.
pub record Endpoint : Type 0 where
  pub seq : ℕ
  pub pending : List ℕ
  pub answers : List (ℕ × Answer)
  pub closed : Bool
  pub waiting : List ℕ
  pub disconnects : ℕ
  pub channel_open : Bool
  pub sent : List Frame

-- `__init__`
abbrev pub endpoint : Endpoint
endpoint = record {
  seq = 0;
  pending = [];
  answers = [];
  closed = false;
  waiting = [];
  disconnects = 0;
  channel_open = true;
  sent = [];
}

abbrev pub has : ℕ → List ℕ → Bool
has q [] = false
has q (p ∷ ps) = nat_eq q p || has q ps

-- The answer that a call's future is done with.
abbrev pub answer_of : ℕ → List (ℕ × Answer) → Option Answer
answer_of q [] = none
answer_of q ((p, a) ∷ later) = if nat_eq q p then some a else answer_of q later

-- `if not fut.done(): fut.set_result(…)`
unfoldable pub resolve : ℕ → Answer → List (ℕ × Answer) → List (ℕ × Answer)
resolve q a answers = elim (answer_of q answers) [ none ↦ (q, a) ∷ answers | some _ ↦ answers ]

-- The loop of `close`.
unfoldable pub end_all : List ℕ → List (ℕ × Answer) → List (ℕ × Answer)
end_all [] answers = answers
end_all (q ∷ qs) answers = end_all qs (resolve q Answer.connection_closed answers)

-- `close`
unfoldable pub close : Endpoint → Endpoint
close e = if e.closed then e else record {
  seq = e.seq;
  pending = [];
  answers = end_all e.pending e.answers;
  closed = true;
  waiting = e.waiting;
  disconnects = suc e.disconnects;
  channel_open = false;
  sent = e.sent;
}

-- `_send`, where the write goes through.
unfoldable pub put : Frame → Endpoint → Endpoint
put f e = record {
  seq = e.seq;
  pending = e.pending;
  answers = e.answers;
  closed = e.closed;
  waiting = e.waiting;
  disconnects = e.disconnects;
  channel_open = e.channel_open;
  sent = e.sent ++ (f ∷ []);
}

-- What `call` boxes.
unfoldable pub arguments : String → Obj → Obj → Obj
arguments method args kwargs =
    Obj.tuple (Items.cons (Obj.atom method) (Items.cons args (Items.cons kwargs Items.nil)))

-- `call`, up to the wait for its future, given whether its write goes through. Where it raises,
-- the future stays in `_pending`, and nobody waits for it.
unfoldable pub call : (Obj → Bool) → Bool → String → Obj → Obj → Endpoint → Endpoint
unfolding arguments
call dumpable wrote method args kwargs e =
    if wrote
    then record {
      seq = suc e.seq;
      pending = e.seq ∷ e.pending;
      answers = e.answers;
      closed = e.closed;
      waiting = e.seq ∷ e.waiting;
      disconnects = e.disconnects;
      channel_open = e.channel_open;
      sent =
          e.sent ++ (Frame.request_frame e.seq (box dumpable (arguments method args kwargs)) ∷ []);
    }
    else record {
      seq = suc e.seq;
      pending = e.seq ∷ e.pending;
      answers = e.answers;
      closed = e.closed;
      waiting = e.waiting;
      disconnects = e.disconnects;
      channel_open = e.channel_open;
      sent = e.sent;
    }

-- A caller that is cancelled cancels its future.
unfoldable pub cancel : ℕ → Endpoint → Endpoint
cancel q e = record {
  seq = e.seq;
  pending = e.pending;
  answers = resolve q Answer.cancelled e.answers;
  closed = e.closed;
  waiting = e.waiting;
  disconnects = e.disconnects;
  channel_open = e.channel_open;
  sent = e.sent;
}

-- What a request of a method does: its name, arguments and keywords are unpacked and looked up.
-- Where they cannot be unpacked, the text of the error is its name here.
unfoldable pub invoke : (String → Obj → Obj → Outcome) → Obj → Outcome
invoke exposed
      (Obj.tuple (Items.cons (Obj.atom m) (Items.cons args (Items.cons kwargs Items.nil)))) =
    exposed m args kwargs
invoke exposed _ = Outcome.failed "ValueError"

-- The `else` and the `except` of `_dispatch`.
abbrev pub answer_frame : (Obj → Bool) → ℕ → Outcome → Frame
answer_frame dumpable seq (Outcome.returned result) = Frame.reply_frame seq (box dumpable result)
answer_frame dumpable seq (Outcome.failed error) = Frame.exception_frame seq error

-- `_dispatch`: the frame that answers, or none where the request closes the connection.
unfoldable pub dispatch :
    (Obj → Bool) → (String → Obj → Obj → Outcome) → ℕ → Handler → Package → Option Frame
unfolding invoke
dispatch dumpable exposed seq Handler.method_handle boxed =
    some (answer_frame dumpable seq (invoke exposed (unbox boxed)))
dispatch dumpable exposed seq Handler.ping_handle boxed =
    some (Frame.reply_frame seq (box dumpable (unbox boxed)))
dispatch dumpable exposed seq Handler.close_handle boxed = none
dispatch dumpable exposed seq (Handler.unknown_handle n) boxed =
    some (Frame.exception_frame seq ("unknown handler " <> show n))

-- `self._pending.pop(seq, None)`, and the future set, where there is one that is not done.
unfoldable pub settle : ℕ → Option Answer → Endpoint → Endpoint
settle q answer e = record {
  seq = e.seq;
  pending = filter (λ p. not (nat_eq q p)) e.pending;
  answers =
      if has q e.pending
      then elim answer [ none ↦ e.answers | some a ↦ resolve q a e.answers ]
      else e.answers;
  closed = e.closed;
  waiting = e.waiting;
  disconnects = e.disconnects;
  channel_open = e.channel_open;
  sent = e.sent;
}

abbrev pub as_answer {ℓ} : {A : Type ℓ} → (A → Answer) → Option A → Option Answer
as_answer f none = none
as_answer f (some a) = some (f a)

-- An answer to a request goes out; or the write raises, and serving ends.
unfoldable pub respond : Bool → Option Frame → Endpoint → Endpoint
respond wrote none e = close e
respond wrote (some f) e = if wrote then put f e else close e

-- A reply is set; where its content cannot be rebuilt, and there was a future to set, the error
-- ends serving.
unfoldable pub accept : ℕ → Option Answer → Endpoint → Endpoint
accept q (some a) e = settle q (some a) e
accept q none e =
    if has q e.pending
    then elim (answer_of q e.answers) [ none ↦ close (settle q none e) | some _ ↦ settle q none e ]
    else settle q none e

-- `_serve_one`, and the end of `serve_forever` where it raises.
unfoldable pub serve_one :
    (Obj → Bool) → (String → Obj → Obj → Outcome) → Bool → Message → Endpoint → Endpoint
unfolding respond accept
serve_one dumpable exposed wrote (Message.request_message seq handler boxed) e =
    respond wrote (dispatch dumpable exposed seq handler boxed) e
serve_one dumpable exposed wrote (Message.reply_message seq args) e =
    accept seq (as_answer Answer.value args) e
serve_one dumpable exposed wrote (Message.exception_message seq args) e =
    accept seq (as_answer Answer.raised args) e
serve_one dumpable exposed wrote (Message.other_message seq) e = settle seq none e
