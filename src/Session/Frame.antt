-- ===== src/Session/Frame.antt =====
-- What `emit`, `drain` and `settle` of pkgs/uml/uml/session.py leave alone.
use user_mode_nixos.Prelude.{
  ℕ, String, ◌≡◌, refl, ◌∙◌, Bool, true, false, Option, none, some, List, [], ◌∷◌, arith,
  if◌then◌else◌, all, elem,
}
use user_mode_nixos.Spec.{is_none}
use user_mode_nixos.Events.{Event}
use user_mode_nixos.Journal.{Entry}
use user_mode_nixos.Session.{
  Session, Guest, Reads, emit, command, take_entry, take_entries, drain, asked, ask, tokens,
  settle_loop, settle,
}

-- From `s` to `t` only events, the tokens seen and the files read were added.
pub record IsQuiet (s t : Session) : Type 0 where
  pub phases : t.phases ≡ s.phases
  pub vms : t.vms ≡ s.vms
  pub state : t.state ≡ s.state
  pub errors : t.errors ≡ s.errors
  pub running : t.running ≡ s.running
  pub report : t.report ≡ s.report

abbrev pub quiet : (s : Session) → IsQuiet s s
quiet s = record {
  phases = refl;
  vms = refl;
  state = refl;
  errors = refl;
  running = refl;
  report = refl;
}

pub IsQuiet-trans : {s t u : Session} → IsQuiet s t → IsQuiet t u → IsQuiet s u
IsQuiet-trans h k = record {
  phases = k.phases ∙ h.phases;
  vms = k.vms ∙ h.vms;
  state = k.state ∙ h.state;
  errors = k.errors ∙ h.errors;
  running = k.running ∙ h.running;
  report = k.report ∙ h.report;
}

pub IsQuiet-if :
    {s : Session} (b : Bool) (t u : Session)
    → IsQuiet s t
    → IsQuiet s u
    → IsQuiet s (if b then t else u)
IsQuiet-if true t u h k = h
IsQuiet-if false t u h k = k

pub emit-IsQuiet : (e : Event) (s : Session) → IsQuiet s (emit e s)
unfolding emit
emit-IsQuiet e s = ground arith

pub command-IsQuiet :
    (machine what : String) (n : ℕ) (s : Session) → IsQuiet s (command machine what n s)
unfolding command
command-IsQuiet machine what n s = ground arith

take_entry-IsQuiet :
    (machine : String) (e : Option Entry) (s : Session) → IsQuiet s (take_entry machine e s)
unfolding take_entry
take_entry-IsQuiet machine none s = quiet s
take_entry-IsQuiet machine (some e) s = ground arith

take_entries-IsQuiet :
    (machine : String) (es : List (Option Entry)) (s : Session)
    → IsQuiet s (take_entries machine es s)
unfolding take_entries
take_entries-IsQuiet machine [] s = quiet s
take_entries-IsQuiet machine (e ∷ es) s =
    IsQuiet-trans (take_entry-IsQuiet machine e s) (take_entries-IsQuiet machine es _)

pub drain-IsQuiet : (reads : Reads) (s : Session) → IsQuiet s (drain reads s)
unfolding drain
drain-IsQuiet [] s = quiet s
drain-IsQuiet ((machine, es) ∷ rest) s =
    IsQuiet-trans (take_entries-IsQuiet machine es s) (drain-IsQuiet rest _)

ask-IsQuiet : (guests : List Guest) (s : Session) → IsQuiet s (ask guests s)
unfolding ask
ask-IsQuiet [] s = quiet s
ask-IsQuiet (g ∷ gs) s = IsQuiet-trans (command-IsQuiet _ _ _ s) (ask-IsQuiet gs _)

settle_loop-IsQuiet :
    (wanted : List String) (rounds : List Reads) (s : Session)
    → IsQuiet s (settle_loop wanted rounds s)
unfolding settle_loop
settle_loop-IsQuiet wanted [] s = quiet s
settle_loop-IsQuiet wanted (reads ∷ later) s =
    IsQuiet-if (all (λ t. elem t s.settled) wanted) _ _ (quiet s)
      (IsQuiet-trans (drain-IsQuiet reads s) (settle_loop-IsQuiet wanted later (drain reads s)))

pub settle-IsQuiet :
    (nodes : Option (List String)) (guests : List Guest) (rounds : List Reads) (last : Reads)
    (s : Session)
    → IsQuiet s (settle nodes guests rounds last s)
unfolding settle
settle-IsQuiet nodes guests rounds last s =
    let sent = asked nodes guests in
    IsQuiet-if (is_none s.vms) _ _ (quiet s) (
      IsQuiet-trans (ask-IsQuiet sent s) (
        IsQuiet-trans (settle_loop-IsQuiet (tokens sent) rounds (ask sent s))
          (drain-IsQuiet last (settle_loop (tokens sent) rounds (ask sent s)))))
