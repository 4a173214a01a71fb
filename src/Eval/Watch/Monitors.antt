-- ===== src/Eval/Watch/Monitors.antt =====
-- What the monitors of a run are sent, against the list of everything pushed for it.
use user_mode_nixos.Prelude.{
  ℕ, zero, suc, Bool, true, false, List, [], ◌∷◌, ◌++◌, any, Memᴰ, ◌≡◌, refl, sym, ap, subst, ◌∙◌,
  inl, inr, Bool-cases,
}
use mathlib.Core.List.{append-nil}
use user_mode_nixos.Eval.Channel.{Pushed}
use user_mode_nixos.Eval.Watch.{
  Monitor, Run, offer, is_broken, offer_all, push, connect, turn, hang_up, unlist, at_place,
  advance, leave, depart,
}
use user_mode_nixos.Eval.Watch.Follows.{
  until_terminal, Follows, offer-Follows, miss-Follows, turn-Follows, hang_up-Follows,
  unlist-Follows,
}

-- One push, one monitor that connects, one event sent to a monitor, one that goes away, or one that is
-- taken out of the watchers.
pub data Step : Run → Run → Type 0 where
  pushed : (r : Run) (event : Pushed) → r.failed ≡ false → Step r (push event r)
  connected : (r : Run) → Step r (connect r)
  advanced : (r : Run) (n : ℕ) → Step r (advance n r)
  left : (r : Run) (n : ℕ) → Step r (leave n r)
  departed : (r : Run) (n : ℕ) → Step r (depart n r)

abbrev pub new_run : Run
new_run = record { backlog = []; monitors = []; failed = false }

pub data Reach : Run → Type 0 where
  start : Reach new_run
  next : (r s : Run) → Reach r → Step r s → Reach s

abbrev AllFollow : Bool → List Pushed → List Monitor → Type 0
AllFollow failed backlog ms = (m : Monitor) → Memᴰ m ms → Follows failed backlog m

cons-AllFollow :
    (failed : Bool) (backlog : List Pushed) (k : Monitor) (ms : List Monitor)
    → Follows failed backlog k
    → AllFollow failed backlog ms
    → AllFollow failed backlog (k ∷ ms)
cons-AllFollow failed backlog k ms f a m (Memᴰ.head e) = rw e f
cons-AllFollow failed backlog k ms f a m (Memᴰ.tail i) = a m i

push-AllFollow :
    (event : Pushed) (backlog : List Pushed) (ms : List Monitor)
    → AllFollow false backlog ms
    → AllFollow (any is_broken ms) (backlog ++ (event ∷ [])) (offer_all event ms)
unfolding offer_all
push-AllFollow event backlog [] a = λ m i. elim i [ ]
push-AllFollow event backlog (k ∷ ms) a = elim (Bool-cases (is_broken k)) [
  | inl b ↦ rw b (λ m i. miss-Follows event backlog m (a m i))
  | inr b ↦ rw b (
      cons-AllFollow (any is_broken ms) (backlog ++ (event ∷ [])) (offer event k)
        (offer_all event ms)
        (offer-Follows (any is_broken ms) event backlog k (a k (Memᴰ.head refl)))
        (push-AllFollow event backlog ms (λ l j. a l (Memᴰ.tail j))))
]

at_place-AllFollow :
    (failed : Bool) (backlog : List Pushed) (n : ℕ) (f : Monitor → Monitor) (ms : List Monitor)
    → ((m : Monitor) → Follows failed backlog m → Follows failed backlog (f m))
    → AllFollow failed backlog ms
    → AllFollow failed backlog (at_place n f ms)
unfolding at_place
at_place-AllFollow failed backlog zero f [] h a = λ m i. elim i [ ]
at_place-AllFollow failed backlog (suc n) f [] h a = λ m i. elim i [ ]
at_place-AllFollow failed backlog zero f (k ∷ ms) h a =
    cons-AllFollow failed backlog (f k) ms (h k (a k (Memᴰ.head refl))) (λ l j. a l (Memᴰ.tail j))
at_place-AllFollow failed backlog (suc n) f (k ∷ ms) h a =
    cons-AllFollow failed backlog k (at_place n f ms) (a k (Memᴰ.head refl))
      (at_place-AllFollow failed backlog n f ms h (λ l j. a l (Memᴰ.tail j)))

append-AllFollow :
    (failed : Bool) (backlog : List Pushed) (ms : List Monitor) (new : Monitor)
    → AllFollow failed backlog ms
    → Follows failed backlog new
    → AllFollow failed backlog (ms ++ (new ∷ []))
append-AllFollow failed backlog [] new a f = cons-AllFollow failed backlog new [] f a
append-AllFollow failed backlog (k ∷ ms) new a f =
    cons-AllFollow failed backlog k (ms ++ (new ∷ [])) (a k (Memᴰ.head refl))
      (append-AllFollow failed backlog ms new (λ l j. a l (Memᴰ.tail j)) f)

new-Follows :
    (failed : Bool) (backlog : List Pushed)
    → Follows failed backlog
        (record { sent = []; todo = backlog; queue = []; over = false; listed = true })
new-Follows failed backlog = record {
  rest = backlog;
  missed = [];
  front = refl;
  ends = refl;
  live = λ n. refl;
  watches = λ n. refl;
  left_over = λ n. sym (append-nil (backlog ++ []) ∙ append-nil backlog);
  none_missed = λ n. refl;
}

step-AllFollow :
    {r s : Run}
    → Step r s
    → AllFollow r.failed r.backlog r.monitors
    → AllFollow s.failed s.backlog s.monitors
unfolding push connect advance leave depart
step-AllFollow (Step.pushed r event o) a =
    push-AllFollow event r.backlog r.monitors (subst (λ b. AllFollow b r.backlog r.monitors) o a)
step-AllFollow (Step.connected r) a =
    append-AllFollow r.failed r.backlog r.monitors _ a (new-Follows r.failed r.backlog)
step-AllFollow (Step.advanced r n) a =
    at_place-AllFollow r.failed r.backlog n turn r.monitors (turn-Follows r.failed r.backlog) a
step-AllFollow (Step.left r n) a =
    at_place-AllFollow r.failed r.backlog n hang_up r.monitors (hang_up-Follows r.failed r.backlog)
      a
step-AllFollow (Step.departed r n) a =
    at_place-AllFollow r.failed r.backlog n unlist r.monitors (unlist-Follows r.failed r.backlog) a

start-AllFollow : AllFollow false [] []
start-AllFollow m i = elim i [ ]

reach-AllFollow : {r : Run} → Reach r → AllFollow r.failed r.backlog r.monitors
reach-AllFollow Reach.start = start-AllFollow
reach-AllFollow (Reach.next r s before step) = step-AllFollow step (reach-AllFollow before)

-- However pushes, connections, sends and departures interleave, and whenever a monitor connected: what
-- it was sent is the front of everything pushed, in order and each event once, with nothing behind a
-- terminal event; and as long as no push has raised, one that is not over and has nothing left to be
-- sent was sent everything.
pub monitor_follows :
    (r : Run) (m : Monitor)
    → Reach r
    → Memᴰ m r.monitors
    → ((rest : List Pushed) × (m.sent ++ rest ≡ r.backlog))
      × (until_terminal m.sent ≡ m.sent)
      × (r.failed ≡ false → m.over ≡ false → m.todo ≡ [] → m.queue ≡ [] → m.sent ≡ r.backlog)
monitor_follows r m reached i =
    let f = reach-AllFollow reached m i in
    (
      (f.rest, f.front),
      f.ends,
      λ g o t q.
          let none_left : f.rest ≡ [] =
            f.left_over o
            ∙ (ap (λ l. (l ++ m.queue) ++ f.missed) t
                ∙ (ap (λ l. l ++ f.missed) q ∙ f.none_missed g)) in
          sym (append-nil m.sent) ∙ (ap (λ l. m.sent ++ l) (sym none_left) ∙ f.front),
    )
