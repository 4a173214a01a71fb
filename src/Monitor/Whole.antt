-- ===== src/Monitor/Whole.antt =====
-- A watcher sees the same run however the stream is cut.
use user_mode_nixos.Prelude.{
  Bytes, ℕ, String, ◌≡◌, refl, sym, ap, ◌∙◌, inl, inr, false, Option, none, some, List, [], ◌∷◌,
  ◌++◌, nat_eq, Bool-cases, Dict,
}
use mathlib.Core.List.{append-nil, append_assoc}
use user_mode_nixos.Journal.Lines.{attach, pieces}
use user_mode_nixos.Journal.Lines.Chunks.{pieces-append}
use user_mode_nixos.Monitor.{Ending, status, ending, scan, stop_at, visit, or_later, follow}

attach-nil : (b : ℕ) (cut : List Bytes × Bytes) → cut.0 ≡ [] → (attach b cut).0 ≡ []
attach-nil b ([], rest) h = refl
attach-nil b (l ∷ ls, rest) h = cc

-- What is left behind the last newline has no newline.
attach-rest :
    (b : ℕ) (cut : List Bytes × Bytes)
    → nat_eq b 10 ≡ false
    → (pieces cut.1).0 ≡ []
    → (pieces (attach b cut).1).0 ≡ []
unfolding pieces
attach-rest b (l ∷ ls, rest) h k = k
attach-rest b ([], rest) h k = rw h (attach-nil b (pieces rest) k)

pieces-rest : (bs : Bytes) → (pieces (pieces bs).1).0 ≡ []
unfolding pieces
pieces-rest [] = refl
pieces-rest (b ∷ bs) = elim (Bool-cases (nat_eq b 10)) [
  | inl h ↦ rw h (pieces-rest bs)
  | inr h ↦ rw h (attach-rest b (pieces bs) h (pieces-rest bs))
]

-- The end of a scan, 3 where the stream closed first.
abbrev pub closed : List (Dict String) × Option Ending → List (Dict String) × Ending
closed seen = or_later seen ([], Ending.code 3)

-- An event printed before the others.
or_later-cons :
    (event : Dict String) (seen : List (Dict String) × Option Ending)
    (later : List (Dict String) × Ending)
    → or_later (event ∷ seen.0, seen.1) later
      ≡ (event ∷ (or_later seen later).0, (or_later seen later).1)
or_later-cons event (printed, none) later = refl
or_later-cons event (printed, some stop) later = refl

-- An equation about what follows an event holds of the event with it.
stop_at-later :
    (event : Dict String) (end : Option Ending) (whole front : List (Dict String) × Option Ending)
    (back : List (Dict String) × Ending)
    → closed whole ≡ or_later front back
    → closed (stop_at event end whole) ≡ or_later (stop_at event end front) back
stop_at-later event none whole front back h =
    or_later-cons event whole ([], Ending.code 3)
    ∙ (ap (λ r. (event ∷ r.0, r.1)) h ∙ sym (or_later-cons event front back))
stop_at-later event (some stop) whole front back h = refl

visit-later :
    (l : Bytes) (o : Option (Dict String)) (whole front : List (Dict String) × Option Ending)
    (back : List (Dict String) × Ending)
    → closed whole ≡ or_later front back
    → closed (visit l o whole) ≡ or_later (visit l o front) back
visit-later l none whole front back h = refl
visit-later l (some event) whole front back h =
    stop_at-later event (ending (status event)) whole front back h

scan-append :
    (loads : Bytes → Option (Dict String)) (xs ys : List Bytes)
    → closed (scan loads (xs ++ ys)) ≡ or_later (scan loads xs) (closed (scan loads ys))
unfolding scan
scan-append loads [] ys = refl
scan-append loads (x ∷ xs) ys =
    visit-later x (loads x) (scan loads (xs ++ ys)) (scan loads xs) (closed (scan loads ys))
      (scan-append loads xs ys)

-- All of the chunks.
abbrev pub joined : List Bytes → Bytes
joined [] = []
joined (c ∷ cs) = c ++ joined cs

follow_from :
    (loads : Bytes → Option (Dict String)) (buffer : Bytes) (chunks : List Bytes)
    → (pieces buffer).0 ≡ []
    → follow loads buffer chunks ≡ closed (scan loads (pieces (buffer ++ joined chunks)).0)
unfolding follow scan
follow_from loads buffer [] h = rw (append-nil buffer, h) refl
follow_from loads buffer (c ∷ cs) h =
    let cut = pieces (buffer ++ c) in
    let later = follow_from loads cut.1 cs (pieces-rest (buffer ++ c)) in
    rw (later, sym (append_assoc buffer c (joined cs)), pieces-append (buffer ++ c) (joined cs))
      (sym (scan-append loads cut.0 (pieces (cut.1 ++ joined cs)).0))

-- A watcher prints the events of the complete lines up to the first verdict, or the first line that
-- is no JSON, and ends with it, whatever pieces the lines arrived in; without one it ends with 3.
pub follow_whole :
    (loads : Bytes → Option (Dict String)) (chunks : List Bytes)
    → follow loads [] chunks ≡ closed (scan loads (pieces (joined chunks)).0)
unfolding pieces
follow_whole loads chunks = follow_from loads [] chunks refl
