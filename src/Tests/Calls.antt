-- ===== src/Tests/Calls.antt =====
-- Frames, objects and calls over a connection.
use user_mode_nixos.Prelude.{
  Bytes, ℕ, String, Bool, true, false, not, ◌<◌, none, some, [], ◌∷◌, ◌++◌, if◌then◌else◌, ◌≡◌, ◌≢◌,
  ◌⊎◌, refl, arith, ◌==◌,
}
use user_mode_nixos.Arpyc.Frames.{send, recv, Written, write}
use user_mode_nixos.Arpyc.Frames.RoundTrip.{frame_roundtrip, write_whole}
use user_mode_nixos.Arpyc.Boxes.{Obj, Items, Package, box, unbox}
use user_mode_nixos.Arpyc.Boxes.RoundTrip.{as_tuples, as_tuples_items, box_roundtrip}
use user_mode_nixos.Arpyc.Connection.{
  Answer, Outcome, Frame, Handler, Message, Endpoint, endpoint, has, answer_of, arguments, dispatch,
  call, cancel, resolve, serve_one, close, end_all,
}
use user_mode_nixos.Arpyc.Connection.Reach.{Step, Steps, readable, connection_sound}
use user_mode_nixos.Arpyc.Connection.Exchange.{
  answer_kept, reply_resolves, unreadable_reply_lost, call_exchanged,
}

-- No payload here is compressed.
abbrev as_is : Bytes → Bytes
as_is bytes = bytes

frame_roundtrip_example :
    (frame : Bytes) × (send (7 ∷ 8 ∷ []) ≡ some frame)
    × (recv as_is (frame ++ 1 ∷ []) ≡ some (7 ∷ 8 ∷ [], 1 ∷ []))
frame_roundtrip_example = frame_roundtrip as_is (7 ∷ 8 ∷ []) (1 ∷ []) (omega arith)

write_whole_sample :
    (rest : Bytes) × ((write (1 ∷ 2 ∷ []) (7 ∷ 8 ∷ 9 ∷ [])).0 ++ rest ≡ 7 ∷ 8 ∷ 9 ∷ [])
    × ((write (1 ∷ 2 ∷ []) (7 ∷ 8 ∷ 9 ∷ [])).1 ≡ Written.done → rest ≡ [])
write_whole_sample = write_whole (1 ∷ 2 ∷ []) (7 ∷ 8 ∷ 9 ∷ [])

write-sample : (write (1 ∷ 2 ∷ []) (7 ∷ 8 ∷ 9 ∷ [])).1 ≡ Written.done
unfolding write
write-sample = refl

-- Atoms, and pairs of an atom, are taken whole.
abbrev atoms : Obj → Bool
atoms (Obj.atom _) = true
atoms (Obj.tuple Items.nil) = true
atoms _ = false

atoms_plain : (o : Obj) → atoms o ≡ true → as_tuples o ≡ o
unfolding as_tuples as_tuples_items
atoms_plain (Obj.atom a) h = refl
atoms_plain (Obj.tuple Items.nil) h = refl
atoms_plain (Obj.tuple (Items.cons x xs)) h = cc
atoms_plain (Obj.list xs) h = cc
atoms_plain (Obj.dict es) h = cc

abbrev argv : Obj
argv = Obj.list (Items.cons (Obj.atom "ls") (Items.cons (Obj.atom "/") Items.nil))

abbrev no_keywords : Obj
no_keywords = Obj.tuple Items.nil

box_roundtrip_sample : unbox (box atoms argv) ≡ as_tuples argv
box_roundtrip_sample = box_roundtrip atoms argv atoms_plain

-- An agent with one method.
abbrev agent : String → Obj → Obj → Outcome
agent m args kwargs = if m == "exec" then Outcome.returned args else Outcome.failed "AttributeError"

call_exchanged_example :
    (back : Package) × (dispatch atoms agent 0 Handler.method_handle
        (box atoms (arguments "exec" argv no_keywords))
      ≡ some (Frame.reply_frame 0 back))
    × (unbox back ≡ as_tuples (as_tuples argv))
call_exchanged_example =
    call_exchanged atoms agent 0 "exec" argv no_keywords (as_tuples argv) atoms_plain refl

-- One call waits.
abbrev calling : Endpoint
calling = call atoms true "exec" argv no_keywords endpoint

calling-Steps : Steps atoms agent readable endpoint (close calling)
calling-Steps =
    Steps.next calling _
      (Steps.next endpoint _ Steps.start (Step.called endpoint true "exec" argv no_keywords))
      (Step.ended calling)

connection_sound_example :
    ((q : ℕ)
      → (close calling).closed ≡ false
      → has q (close calling).waiting ≡ true
      → ((a : Answer) × (answer_of q (close (close calling)).answers ≡ some a))
        × ((close (close calling)).pending ≡ []))
    × ((q : ℕ)
        → (close calling).closed ≡ true
        → has q (close calling).waiting ≡ true
        → ((a : Answer) × (answer_of q (close calling).answers ≡ some a))
          ⊎ (has q (close calling).pending ≡ true))
    × ((q : ℕ) → has q (close calling).pending ≡ true → q < (close calling).seq)
    × ((close calling).disconnects ≡ (if (close calling).closed then 1 else 0))
    × ((close calling).channel_open ≡ not (close calling).closed)
connection_sound_example = connection_sound atoms agent (close calling) calling-Steps

calling-close : answer_of 0 (close calling).answers ≡ some Answer.connection_closed
unfolding call close end_all resolve
calling-close = refl

answer_kept_example : answer_of 0 (close (cancel 0 calling)).answers ≡ some Answer.cancelled
unfolding cancel resolve call
answer_kept_example =
    answer_kept atoms agent (λ m. true) 0 Answer.cancelled (cancel 0 calling)
      (close (cancel 0 calling)) refl
      (Steps.next (cancel 0 calling) _ Steps.start (Step.ended (cancel 0 calling)))

reply_resolves_example :
    let f = serve_one atoms agent true (Message.reply_message 0 (some argv)) calling in
    (answer_of 0 f.answers ≡ some (Answer.value argv))
    × (has 0 f.pending ≡ false)
    × ((p : ℕ)
        → p ≢ 0
        → (answer_of p f.answers ≡ answer_of p calling.answers)
          × (has p f.pending ≡ has p calling.pending))
    × (f.sent ≡ calling.sent)
unfolding call
reply_resolves_example = reply_resolves atoms agent true 0 argv calling refl refl

unreadable_reply_lost_example :
    let f = serve_one atoms agent true (Message.reply_message 0 none) calling in
    (f.closed ≡ true) × (answer_of 0 f.answers ≡ none) × (has 0 f.pending ≡ false)
unfolding call
unreadable_reply_lost_example = unreadable_reply_lost atoms agent true 0 calling refl refl refl
