-- ===== src/Eval/Watch/Verdict.antt =====
-- When the server pushes a run's end.
use user_mode_nixos.Prelude.{
  String, ◌==◌, Bool, true, false, Option, none, some, List, [], ◌∷◌, ◌++◌, ◌||◌, ◌&&◌,
  if◌then◌else◌, lookup, any, any-append, ◌≡◌, refl, sym, ap, ◌∙◌, inl, inr, Bool-cases,
  Option-cases, arith, eq_iff, &&-eq-true,
}
use mathlib.Core.List.{append_assoc}
use user_mode_nixos.Eval.Channel.{
  Event, Pushed, channel_event, paused_event, other_event, started_event, passed_event,
  failed_event, finished_event,
}
use user_mode_nixos.Eval.Watch.{is_terminal, sees, pushes, finishes, Round, exited_event, watch}

-- Whether a line holds the verdict of the run.
abbrev pub is_verdict : (String → Option Event) → String → Bool
is_verdict loads l = elim (loads l) [ none ↦ false | some e ↦ e.kind == "run_finished" ]

-- The lines that were read by the round that saw the process ended.
abbrev pub lines_read : List Round → List String
lines_read [] = []
lines_read (r ∷ rounds) = if r.ended then r.lines else r.lines ++ lines_read rounds

abbrev pub ends : List Round → Bool
ends = any (λ r. r.ended)

finishes-eq :
    (loads : String → Option Event) (finished : Bool) (ls : List String)
    → finishes loads finished ls ≡ (finished || any (is_verdict loads) ls)
unfolding finishes
finishes-eq loads finished [] = ground arith
finishes-eq loads finished (l ∷ ls) = ground (arith, finishes-eq loads (sees (loads l) finished) ls)

abbrev ends_run : Option Pushed → Bool
ends_run none = false
ends_run (some p) = is_terminal p

paused-terminal :
    (run : String) (reason : Option String) → ends_run (paused_event run reason) ≡ false
unfolding paused_event is_terminal lookup
paused-terminal run none = refl
paused-terminal run (some r) = refl

started-terminal : (run : String) (e : Event) → is_terminal (started_event run e) ≡ false
unfolding started_event is_terminal lookup
started-terminal run e = refl

passed-terminal : (run : String) (e : Event) → is_terminal (passed_event run e) ≡ false
unfolding passed_event is_terminal lookup
passed-terminal run e = refl

failed-terminal :
    (strip : String → String) (run : String) (e : Event)
    → is_terminal (failed_event strip run e) ≡ false
unfolding failed_event is_terminal lookup
failed-terminal strip run e = refl

finished-terminal : (run : String) (e : Event) → is_terminal (finished_event run e) ≡ true
unfolding finished_event is_terminal lookup
finished-terminal run e = refl

-- Of four guarded events of which the last alone is terminal.
guarded-terminal :
    (a b c d : Bool) (s p f v : Pushed)
    → is_terminal s ≡ false
    → is_terminal p ≡ false
    → is_terminal f ≡ false
    → is_terminal v ≡ true
    → (a ≡ true → d ≡ false)
    → (b ≡ true → d ≡ false)
    → (c ≡ true → d ≡ false)
    → ends_run (
        if a
        then some s
        else if b
        then some p
        else if c
        then some f
        else if d
        then some v
        else none)
      ≡ d
guarded-terminal true b c d s p f v hs hp hf hv ha hb hc = hs ∙ sym (ha refl)
guarded-terminal false true c d s p f v hs hp hf hv ha hb hc = hp ∙ sym (hb refl)
guarded-terminal false false true d s p f v hs hp hf hv ha hb hc = hf ∙ sym (hc refl)
guarded-terminal false false false true s p f v hs hp hf hv ha hb hc = hv
guarded-terminal false false false false s p f v hs hp hf hv ha hb hc = refl

-- A text is equal to one of two texts at most.
other_text : (t a b : String) → (a == b) ≡ false → (t == a) ≡ true → (t == b) ≡ false
other_text t a b h k = let e : t ≡ a = (eq_iff t a).0 k in rw e h

other-terminal :
    (strip : String → String) (e : Event) (run : String)
    → ends_run (other_event strip e run) ≡ (e.kind == "run_finished")
unfolding other_event
other-terminal strip e run =
    guarded-terminal (e.kind == "phase_started")
      ((e.kind == "phase_finished") && (e.state == "passed"))
      ((e.kind == "phase_finished") && (e.state == "failed")) (e.kind == "run_finished")
      (started_event run e) (passed_event run e) (failed_event strip run e) (finished_event run e)
      (started-terminal run e) (passed-terminal run e) (failed-terminal strip run e)
      (finished-terminal run e) (λ h. other_text e.kind "phase_started" "run_finished" refl h)
      (λ h. other_text e.kind "phase_finished" "run_finished" refl (&&-eq-true _ _ h).0)
      (λ h. other_text e.kind "phase_finished" "run_finished" refl (&&-eq-true _ _ h).0)

paused_or :
    (p other : Option Pushed)
    → ends_run p ≡ false
    → ends_run other ≡ false
    → ends_run (elim p [ some q ↦ some q | none ↦ other ]) ≡ false
paused_or none other h k = k
paused_or (some q) other h k = h

-- Of a run's own events, the verdict alone is pushed as a terminal one.
channel_event-terminal :
    (strip : String → String) (e : Event) (run : String)
    → ends_run (channel_event strip e run) ≡ (e.kind == "run_finished")
unfolding channel_event
channel_event-terminal strip e run = elim (Bool-cases (e.kind == "note")) [
  | inl n ↦
      let never = other_text e.kind "note" "run_finished" refl n in
      rw n (
        paused_or (paused_event run e.reason) (other_event strip e run)
          (paused-terminal run e.reason) (other-terminal strip e run ∙ never)
        ∙ sym never)
  | inr n ↦ rw n (other-terminal strip e run)
]

pushes-append :
    (loads : String → Option Event) (strip : String → String) (run : String) (xs ys : List String)
    → pushes loads strip run (xs ++ ys) ≡ pushes loads strip run xs ++ pushes loads strip run ys
unfolding pushes
pushes-append loads strip run [] ys = refl
pushes-append loads strip run (l ∷ xs) ys = elim (Option-cases (loads l)) [
  | inl e ↦ ground (arith, pushes-append loads strip run xs ys)
  | inr (v, e) ↦ ground (arith, pushes-append loads strip run xs ys)
]

pushes-terminal :
    (loads : String → Option Event) (strip : String → String) (run : String) (ls : List String)
    → any is_terminal (pushes loads strip run ls) ≡ any (is_verdict loads) ls
unfolding pushes
pushes-terminal loads strip run [] = refl
pushes-terminal loads strip run (l ∷ ls) = elim (Option-cases (loads l)) [
  | inl e ↦ ground (arith, pushes-terminal loads strip run ls)
  | inr (v, e) ↦
      ground (arith, pushes-terminal loads strip run ls, channel_event-terminal strip v run)
]

watch_from :
    (loads : String → Option Event) (strip : String → String) (run exit_code tail : String)
    (finished : Bool) (rounds : List Round)
    → ends rounds ≡ true
    → watch loads strip run exit_code tail finished rounds
      ≡ pushes loads strip run (lines_read rounds)
        ++ (if finished || any (is_verdict loads) (lines_read rounds)
            then []
            else exited_event run exit_code tail ∷ [])
unfolding watch
watch_from loads strip run exit_code tail finished [] h = cc
watch_from loads strip run exit_code tail finished (r ∷ rounds) h = elim (Bool-cases r.ended) [
  | inl e ↦ rw (e, finishes-eq loads finished r.lines) refl
  | inr e ↦
      let seen = finishes loads finished r.lines in
      let last =
        λ (b : Bool). if◌then◌else◌ {A = List Pushed} b [] (exited_event run exit_code tail ∷ []) in
      let rest = lines_read rounds in
      let verdicts : (seen || any (is_verdict loads) rest)
          ≡ (finished || any (is_verdict loads) (r.lines ++ rest)) =
        ground
          (arith, finishes-eq loads finished r.lines, any-append (is_verdict loads) r.lines rest) in
      let later = watch_from loads strip run exit_code tail seen rounds (ground arith) in
      rw e (
        ap (λ l. pushes loads strip run r.lines ++ l) later
        ∙ (sym (
              append_assoc (pushes loads strip run r.lines) (pushes loads strip run rest)
                (last (seen || any (is_verdict loads) rest)))
            ∙ (ap (λ l. l ++ last (seen || any (is_verdict loads) rest))
                  (sym (pushes-append loads strip run r.lines rest))
                ∙ ap (λ b. pushes loads strip run (r.lines ++ rest) ++ last b) verdicts)))
]

exited-terminal :
    (run exit_code tail : String) → is_terminal (exited_event run exit_code tail) ≡ true
unfolding exited_event is_terminal lookup
exited-terminal run exit_code tail = refl

-- Once the process is seen to have ended: what was pushed is what the lines read by then give, and
-- behind them the exit without a verdict exactly where no line read by then holds the verdict,
-- whatever the run wrote after that read; and in either case a terminal event was pushed.
pub watch_exact :
    (loads : String → Option Event) (strip : String → String) (run exit_code tail : String)
    (rounds : List Round)
    → ends rounds ≡ true
    → let pushed = watch loads strip run exit_code tail false rounds in
      (pushed
        ≡ pushes loads strip run (lines_read rounds)
          ++ (if any (is_verdict loads) (lines_read rounds)
              then []
              else exited_event run exit_code tail ∷ []))
      × (any is_terminal pushed ≡ true)
watch_exact loads strip run exit_code tail rounds h =
    let all_of_it = watch_from loads strip run exit_code tail false rounds h in
    let own = pushes loads strip run (lines_read rounds) in
    (
      all_of_it,
      ap (any is_terminal) all_of_it
          ∙ ground (
            arith,
            any-append is_terminal own (exited_event run exit_code tail ∷ []),
            any-append is_terminal own [],
            pushes-terminal loads strip run (lines_read rounds),
            exited-terminal run exit_code tail,
          ),
    )
