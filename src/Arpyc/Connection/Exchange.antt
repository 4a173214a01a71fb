-- ===== src/Arpyc/Connection/Exchange.antt =====
-- What a call gets: which message answers it, that an answer stays, and what of the arguments and
-- the result arrives.
use user_mode_nixos.Prelude.{
  ℕ, String, Bool, true, false, not, Option, none, some, nat_eq, filter, ◌≡◌, ◌≢◌, refl, ap, ◌∙◌,
  inl, inr, Bool-cases, arith,
}
use user_mode_nixos.Arpyc.Boxes.{Obj, Package, box, unbox}
use user_mode_nixos.Arpyc.Boxes.RoundTrip.{as_tuples, as_tuples_items, box_roundtrip}
use user_mode_nixos.Arpyc.Connection.{
  Answer, Outcome, Frame, Handler, Message, Endpoint, has, answer_of, close, put, call, cancel,
  invoke, arguments, answer_frame, dispatch, settle, respond, accept, serve_one,
}
use user_mode_nixos.Arpyc.Connection.Answers.{
  answer_of-resolve, resolve-kept, answered-end_all, end_all-kept, has-filter,
}
use user_mode_nixos.Arpyc.Connection.Reach.{Step, Steps}

close-kept :
    (q : ℕ) (a : Answer) (e : Endpoint)
    → answer_of q e.answers ≡ some a
    → answer_of q (close e).answers ≡ some a
unfolding close
close-kept q a e h = elim (Bool-cases e.closed) [
  | inl c ↦ ground arith
  | inr c ↦ ground (arith, end_all-kept q a e.pending e.answers h)
]

settle-kept :
    (q p : ℕ) (a : Answer) (b : Option Answer) (e : Endpoint)
    → answer_of q e.answers ≡ some a
    → answer_of q (settle p b e).answers ≡ some a
unfolding settle
settle-kept q p a none e h = ground arith
settle-kept q p a (some b) e h = ground (arith, resolve-kept q p b a e.answers h)

accept-kept :
    (q p : ℕ) (a : Answer) (b : Option Answer) (e : Endpoint)
    → answer_of q e.answers ≡ some a
    → answer_of q (accept p b e).answers ≡ some a
unfolding accept
accept-kept q p a (some b) e h = settle-kept q p a (some b) e h
accept-kept q p a none e h = ground (
  arith,
  settle-kept q p a none e h,
  close-kept q a (settle p none e) (settle-kept q p a none e h),
)

respond-kept :
    (q : ℕ) (a : Answer) (wrote : Bool) (f : Option Frame) (e : Endpoint)
    → answer_of q e.answers ≡ some a
    → answer_of q (respond wrote f e).answers ≡ some a
unfolding respond put
respond-kept q a wrote none e h = close-kept q a e h
respond-kept q a true (some f) e h = h
respond-kept q a false (some f) e h = close-kept q a e h

module _ (dumpable : Obj → Bool) (exposed : String → Obj → Obj → Outcome)
    (allowed : Message → Bool) where
  serve_one-kept :
      (q : ℕ) (a : Answer) (wrote : Bool) (m : Message) (e : Endpoint)
      → answer_of q e.answers ≡ some a
      → answer_of q (serve_one dumpable exposed wrote m e).answers ≡ some a
  unfolding serve_one
  serve_one-kept q a wrote (Message.request_message p handler boxed) e h =
      respond-kept q a wrote (dispatch dumpable exposed p handler boxed) e h
  serve_one-kept q a wrote (Message.reply_message p args) e h = accept-kept q p a _ e h
  serve_one-kept q a wrote (Message.exception_message p args) e h = accept-kept q p a _ e h
  serve_one-kept q a wrote (Message.other_message p) e h = settle-kept q p a none e h

  step-kept :
      (q : ℕ) (a : Answer) {e f : Endpoint}
      → Step dumpable exposed allowed e f
      → answer_of q e.answers ≡ some a
      → answer_of q f.answers ≡ some a
  unfolding call cancel
  step-kept q a (Step.called e true m args kwargs) h = h
  step-kept q a (Step.called e false m args kwargs) h = h
  step-kept q a (Step.cancelled e p c) h = resolve-kept q p Answer.cancelled a e.answers h
  step-kept q a (Step.served e wrote m c) h = serve_one-kept q a wrote m e h
  step-kept q a (Step.ended e) h = close-kept q a e h

-- An answer that a call has got stays its answer, whatever calls, cancellations, messages of any kind
-- and ends come after.
pub answer_kept :
    (dumpable : Obj → Bool) (exposed : String → Obj → Obj → Outcome) (allowed : Message → Bool)
    (q : ℕ) (a : Answer) (e f : Endpoint)
    → answer_of q e.answers ≡ some a
    → Steps dumpable exposed allowed e f
    → answer_of q f.answers ≡ some a
answer_kept dumpable exposed allowed q a e f h Steps.start = h
answer_kept dumpable exposed allowed q a e f h (Steps.next g _ before step) =
    step-kept dumpable exposed allowed q a step
      (answer_kept dumpable exposed allowed q a e g h before)

-- A reply to a call that is pending and has no answer yet becomes the answer of that call, and of
-- no other; the call is no longer pending, every other call is as it was, and nothing is written.
pub reply_resolves :
    (dumpable : Obj → Bool) (exposed : String → Obj → Obj → Outcome) (wrote : Bool) (q : ℕ)
    (o : Obj) (e : Endpoint)
    → has q e.pending ≡ true
    → answer_of q e.answers ≡ none
    → let f = serve_one dumpable exposed wrote (Message.reply_message q (some o)) e in
      (answer_of q f.answers ≡ some (Answer.value o))
      × (has q f.pending ≡ false)
      × ((p : ℕ)
          → p ≢ q
          → (answer_of p f.answers ≡ answer_of p e.answers) × (has p f.pending ≡ has p e.pending))
      × (f.sent ≡ e.sent)
unfolding serve_one accept settle
reply_resolves dumpable exposed wrote q o e h n = (
  ground (arith, answer_of-resolve q q (Answer.value o) e.answers),
  ground (arith, has-filter q q e.pending),
  λ p d. (
    ground (arith, answer_of-resolve p q (Answer.value o) e.answers),
    ground (arith, has-filter p q e.pending),
  ),
  refl,
)

-- A reply whose content cannot be rebuilt closes the connection, and the call that it was for gets
-- no answer: its future was taken out of the pending ones before.
pub unreadable_reply_lost :
    (dumpable : Obj → Bool) (exposed : String → Obj → Obj → Outcome) (wrote : Bool) (q : ℕ)
    (e : Endpoint)
    → e.closed ≡ false
    → has q e.pending ≡ true
    → answer_of q e.answers ≡ none
    → let f = serve_one dumpable exposed wrote (Message.reply_message q none) e in
      (f.closed ≡ true) × (answer_of q f.answers ≡ none) × (has q f.pending ≡ false)
unfolding serve_one accept settle close
unreadable_reply_lost dumpable exposed wrote q e c h n =
    let rest = filter (λ p. not (nat_eq q p)) e.pending in
    (
      ground arith,
      ground (arith, answered-end_all q rest e.answers, has-filter q q e.pending),
      ground arith,
    )

-- A call reaches the exposed method of its name with its arguments and keywords, and the frame that
-- goes back holds what the method returned, each with its lists turned into tuples, if what `brine`
-- takes whole holds no list.
pub call_exchanged :
    (dumpable : Obj → Bool) (exposed : String → Obj → Obj → Outcome) (q : ℕ) (m : String)
    (args kwargs result : Obj)
    → ((p : Obj) → dumpable p ≡ true → as_tuples p ≡ p)
    → exposed m (as_tuples args) (as_tuples kwargs) ≡ Outcome.returned result
    → (back : Package) × (dispatch dumpable exposed q Handler.method_handle
          (box dumpable (arguments m args kwargs))
        ≡ some (Frame.reply_frame q back))
      × (unbox back ≡ as_tuples result)
unfolding dispatch invoke arguments as_tuples as_tuples_items
call_exchanged dumpable exposed q m args kwargs result plain h =
    let sent = arguments m args kwargs in
    (
      box dumpable result,
      ap (λ o. some (answer_frame dumpable q (invoke exposed o)))
            (box_roundtrip dumpable sent plain)
          ∙ ap (λ r. some (answer_frame dumpable q r)) h,
      box_roundtrip dumpable result plain,
    )
