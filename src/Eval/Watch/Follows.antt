-- ===== src/Eval/Watch/Follows.antt =====
-- One monitor of a run, against the list of everything pushed for the run.
use user_mode_nixos.Prelude.{
  Bool, true, false, List, [], ◌∷◌, ◌++◌, if◌then◌else◌, any, any-append, ◌≡◌, refl, sym, ap, ◌∙◌,
  inl, inr, Bool-cases, arith,
}
use mathlib.Core.List.{append_assoc, append-nil}
use user_mode_nixos.Eval.Channel.{Pushed}
use user_mode_nixos.Eval.Watch.{is_terminal, Monitor, offer, turn, hang_up, unlist}

-- The events up to the first terminal one, and that one.
abbrev pub until_terminal : List Pushed → List Pushed
until_terminal [] = []
until_terminal (e ∷ es) = if is_terminal e then e ∷ [] else e ∷ until_terminal es

-- What a monitor was sent is the front of what was pushed, and ends at a terminal event. One whose
-- loops go on is a watcher, and its rest is what it still has to be sent, and what it missed.
pub record Follows (failed : Bool) (backlog : List Pushed) (m : Monitor) : Type 0 where
  pub rest : List Pushed
  pub missed : List Pushed
  pub front : m.sent ++ rest ≡ backlog
  pub ends : until_terminal m.sent ≡ m.sent
  pub live : m.over ≡ false → any is_terminal m.sent ≡ false
  pub watches : m.over ≡ false → m.listed ≡ true
  pub left_over : m.over ≡ false → rest ≡ (m.todo ++ m.queue) ++ missed
  pub none_missed : failed ≡ false → missed ≡ []

until_terminal-append :
    (es : List Pushed) (e : Pushed)
    → any is_terminal es ≡ false
    → until_terminal (es ++ (e ∷ [])) ≡ es ++ (e ∷ [])
until_terminal-append [] e h = elim (Bool-cases (is_terminal e)) [
  | inl t ↦ rw t refl
  | inr t ↦ rw t refl
]
until_terminal-append (d ∷ es) e h =
    let here : is_terminal d ≡ false = ground arith in
    rw here (ap (λ l. d ∷ l) (until_terminal-append es e (ground arith)))

more-front :
    (event : Pushed) (sent rest backlog : List Pushed)
    → sent ++ rest ≡ backlog
    → sent ++ (rest ++ (event ∷ [])) ≡ backlog ++ (event ∷ [])
more-front event sent rest backlog h =
    sym (append_assoc sent rest (event ∷ [])) ∙ ap (λ l. l ++ (event ∷ [])) h

-- A push that reaches a monitor.
pub offer-Follows :
    (failed : Bool) (event : Pushed) (backlog : List Pushed) (m : Monitor)
    → Follows false backlog m
    → Follows failed (backlog ++ (event ∷ [])) (offer event m)
offer-Follows failed event backlog m f = elim (Bool-cases m.listed) [
  | inl o ↦ rw o (record {
    rest = f.rest ++ (event ∷ []);
    missed = [];
    front = more-front event m.sent f.rest backlog f.front;
    ends = f.ends;
    live = f.live;
    watches = λ n. refl;
    left_over = λ n.
        let all_queued : f.rest ≡ m.todo ++ m.queue =
          f.left_over n
          ∙ (ap (λ l. (m.todo ++ m.queue) ++ l) (f.none_missed refl)
              ∙ append-nil (m.todo ++ m.queue)) in
        ap (λ l. l ++ (event ∷ [])) all_queued
        ∙ (append_assoc m.todo m.queue (event ∷ []) ∙ sym (append-nil _));
    none_missed = λ n. refl;
  })
  | inr o ↦ rw o (record {
    rest = f.rest ++ (event ∷ []);
    missed = [];
    front = more-front event m.sent f.rest backlog f.front;
    ends = f.ends;
    live = f.live;
    watches = λ n. (let bad : false ≡ true = sym o ∙ f.watches n in cc);
    left_over = λ n. (let bad : false ≡ true = sym o ∙ f.watches n in cc);
    none_missed = λ n. refl;
  })
]

-- A push that raised before it reached a monitor.
pub miss-Follows :
    (event : Pushed) (backlog : List Pushed) (m : Monitor)
    → Follows false backlog m
    → Follows true (backlog ++ (event ∷ [])) m
miss-Follows event backlog m f = record {
  rest = f.rest ++ (event ∷ []);
  missed = f.missed ++ (event ∷ []);
  front = more-front event m.sent f.rest backlog f.front;
  ends = f.ends;
  live = f.live;
  watches = f.watches;
  left_over = λ n.
      ap (λ l. l ++ (event ∷ [])) (f.left_over n)
      ∙ append_assoc (m.todo ++ m.queue) f.missed (event ∷ []);
  none_missed = λ n. cc;
}

-- One event more was sent.
sent-Follows :
    (failed : Bool) (backlog : List Pushed) (m : Monitor) (e : Pushed) (todo queue : List Pushed)
    → m.over ≡ false
    → m.todo ++ m.queue ≡ e ∷ (todo ++ queue)
    → Follows failed backlog m
    → Follows failed backlog (record {
      sent = m.sent ++ (e ∷ []);
      todo = todo;
      queue = queue;
      over = is_terminal e;
      listed = m.listed;
    })
sent-Follows failed backlog m e todo queue o h f = record {
  rest = (todo ++ queue) ++ f.missed;
  missed = f.missed;
  front =
      append_assoc m.sent (e ∷ []) ((todo ++ queue) ++ f.missed)
      ∙ (ap (λ l. m.sent ++ l) (sym (f.left_over o ∙ ap (λ l. l ++ f.missed) h)) ∙ f.front);
  ends = until_terminal-append m.sent e (f.live o);
  live = λ n. any-append is_terminal m.sent (e ∷ []) ∙ ground (arith, f.live o);
  watches = λ n. f.watches o;
  left_over = λ n. refl;
  none_missed = f.none_missed;
}

turn_of :
    (failed : Bool) (backlog sent todo queue : List Pushed) (over listed : Bool)
    → let m : Monitor = record {
      sent = sent;
      todo = todo;
      queue = queue;
      over = over;
      listed = listed;
    } in
      Follows failed backlog m → Follows failed backlog (turn m)
unfolding turn
turn_of failed backlog sent todo queue true listed f = f
turn_of failed backlog sent (e ∷ todo) queue false listed f =
    sent-Follows failed backlog _ e todo queue refl refl f
turn_of failed backlog sent [] (e ∷ queue) false listed f =
    sent-Follows failed backlog _ e [] queue refl refl f
turn_of failed backlog sent [] [] false listed f = f

pub turn-Follows :
    (failed : Bool) (backlog : List Pushed) (m : Monitor)
    → Follows failed backlog m
    → Follows failed backlog (turn m)
turn-Follows failed backlog m f = turn_of failed backlog m.sent m.todo m.queue m.over m.listed f

pub hang_up-Follows :
    (failed : Bool) (backlog : List Pushed) (m : Monitor)
    → Follows failed backlog m
    → Follows failed backlog (hang_up m)
unfolding hang_up
hang_up-Follows failed backlog m f = record {
  rest = f.rest;
  missed = f.missed;
  front = f.front;
  ends = f.ends;
  live = λ n. cc;
  watches = λ n. cc;
  left_over = λ n. cc;
  none_missed = f.none_missed;
}

pub unlist-Follows :
    (failed : Bool) (backlog : List Pushed) (m : Monitor)
    → Follows failed backlog m
    → Follows failed backlog (unlist m)
unfolding unlist
unlist-Follows failed backlog m f = record {
  rest = f.rest;
  missed = f.missed;
  front = f.front;
  ends = f.ends;
  live = f.live;
  watches = λ n. rw (n, f.watches n) refl;
  left_over = f.left_over;
  none_missed = f.none_missed;
}
