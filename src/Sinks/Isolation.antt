-- ===== src/Sinks/Isolation.antt =====
-- No sink stands in the way of another.
use user_mode_nixos.Prelude.{
  Bool, true, false, Option, none, some, ◌≡◌, refl, ◌∙◌, ap, List, [], ◌∷◌, map, if◌then◌else◌,
  arith,
}
use user_mode_nixos.Events.{Event}
use user_mode_nixos.Sinks.{Listener, tell, broadcast, broadcast_all}

-- What the events make of a memory up to the first at which the sink raises, and whether there is one.
abbrev pub taken : {A : Type 0} → (Event → A → Option A) → List Event → A → A × Bool
taken handler [] memory = (memory, false)
taken handler (e ∷ es) memory = elim (handler e memory) [
  | none ↦ (memory, true)
  | some m ↦ taken handler es m
]

-- What a sink is after a run: one that was broken before is as it was.
abbrev pub after : {A : Type 0} → List Event → Listener A → Listener A
after es l = if l.broken then l else record {
  handler = l.handler;
  memory = (taken l.handler es l.memory).0;
  broken = (taken l.handler es l.memory).1;
}

broadcast-map : {A : Type 0} (e : Event) (ls : List (Listener A)) → broadcast e ls ≡ map (tell e) ls
unfolding broadcast
broadcast-map e [] = refl
broadcast-map e (l ∷ ls) = ap (λ r. tell e l ∷ r) (broadcast-map e ls)

-- One event first, then the others.
after-tell :
    {A : Type 0} (e : Event) (es : List Event) (l : Listener A)
    → after es (tell e l) ≡ after (e ∷ es) l
unfolding tell
after-tell e es l = ground arith

map-after :
    {A : Type 0} (e : Event) (es : List Event) (ls : List (Listener A))
    → map (after es) (map (tell e) ls) ≡ map (after (e ∷ es)) ls
map-after e es [] = refl
map-after e es (l ∷ ls) = rw (after-tell e es l, map-after e es ls) refl

map-start : {A : Type 0} (ls : List (Listener A)) → ls ≡ map (after []) ls
map-start [] = refl
map-start (l ∷ ls) = rw (← map-start ls) (ap (λ r. r ∷ ls) (after-nil l))
  where
    after-nil : {A : Type 0} (l : Listener A) → l ≡ after [] l
    after-nil l = ground arith

-- After the events of a run, a sink that was not broken has made of its memory what it makes of the
-- events up to the first at which it raises, and none of those behind, and is broken exactly if it
-- raised; one that was broken is untouched; and no sink changes what another gets.
pub broadcast_isolates :
    {A : Type 0} (es : List Event) (ls : List (Listener A))
    → broadcast_all es ls ≡ map (after es) ls
unfolding broadcast_all
broadcast_isolates [] ls = map-start ls
broadcast_isolates (e ∷ es) ls =
    broadcast_isolates es (broadcast e ls)
    ∙ (ap (map (after es)) (broadcast-map e ls) ∙ map-after e es ls)
