-- ===== src/Phases/Launch.antt =====
-- `claims` and `launchable` of pkgs/uml/uml/phases.py: which phases may run at once.
mod Loop
pub use Loop.{IsExclusive}
use user_mode_nixos.Prelude.{
  String, ◌≡◌, refl, sym, ◌∙◌, ◌⊎◌, inl, inr, Bool, true, false, List, [], ◌∷◌, ◌++◌, Memᴰ, arith,
  Bool-cases, filter, elem, union, overlap, elem-union, overlap-eq-true, overlap_of, ||-eq-true,
}
use mathlib.Core.List.Memᴰ
use mathlib.Core.List.{Sublistᴰ}
use user_mode_nixos.Spec.{PhaseSpec}
use user_mode_nixos.Phases.{claims, held_by, launch_loop, launchable}
use user_mode_nixos.Phases.Launch.Loop.{
  ApartAll, loop_clear, overlap_mono, ApartAll-of, IsExclusive, elem-held_by, held_by-Covers,
  loop-IsExclusive, IsExclusive-append, loop_maximal, loop-sublist,
}

module _ (every : List String) (keep : PhaseSpec → Bool) where
  ApartAll-filter :
      (p : PhaseSpec) (ps : List PhaseSpec)
      → ApartAll every p ps
      → ApartAll every p (filter keep ps)
  ApartAll-filter p [] h = tt
  ApartAll-filter p (q ∷ ps) h = elim (Bool-cases (keep q)) [
    | inl k ↦ rw k (h.0, ApartAll-filter p ps h.1)
    | inr k ↦ rw k (ApartAll-filter p ps h.1)
  ]

pub IsExclusive-filter :
    (every : List String) (keep : PhaseSpec → Bool) (ps : List PhaseSpec)
    → IsExclusive every ps
    → IsExclusive every (filter keep ps)
IsExclusive-filter every keep [] h = tt
IsExclusive-filter every keep (p ∷ ps) h = elim (Bool-cases (keep p)) [
  | inl k ↦ rw k (ApartAll-filter every keep p ps h.0, IsExclusive-filter every keep ps h.1)
  | inr k ↦ rw k (IsExclusive-filter every keep ps h.1)
]

-- Beside phases of which no two claim one guest, what is launched claims no guest of theirs, and
-- no two phases launched together share a guest either.
pub launchable-IsExclusive :
    (waiting running : List PhaseSpec) (every : List String)
    → IsExclusive every running
    → IsExclusive every (running ++ launchable waiting running every)
unfolding launchable
launchable-IsExclusive waiting running every h =
    let held = held_by every [] running in
    IsExclusive-append every running (launch_loop every held waiting) h
      (loop-IsExclusive every held waiting)
      (λ p m. ApartAll-of every p _ (λ q k.
        overlap_mono every (claims p every) held (claims q every)
          (λ x i. held_by-Covers every [] running p x m i) (loop_clear every held waiting q k)))

-- Nothing that could start is left waiting: a ready phase that is not launched claims a guest
-- that a running phase, or one launched now, claims too.
pub launchable_maximal :
    (waiting running : List PhaseSpec) (every : List String) (p : PhaseSpec)
    → Memᴰ p waiting
    → Memᴰ p (launchable waiting running every)
      ⊎ ((x : String) × (elem x (claims p every) ≡ true)
          × ((q : PhaseSpec) × (Memᴰ q running ⊎ Memᴰ q (launchable waiting running every))
              × (elem x (claims q every) ≡ true)))
unfolding launchable
launchable_maximal waiting running every p m =
    elim (loop_maximal every (held_by every [] running) waiting p m) [
      | inl chosen ↦ inl chosen
      | inr (x, mine, inr (q, k, theirs)) ↦ inr (x, mine, (q, inr k, theirs))
      | inr (x, mine, inl held) ↦ elim (elem-held_by every [] running x held) [
        | inl none_held ↦ cc
        | inr (q, k, theirs) ↦ inr (x, mine, (q, inl k, theirs))
      ]
    ]

-- The phases launched are a sublist of those that are ready: their order is kept.
pub launchable-sublist :
    (waiting running : List PhaseSpec) (every : List String)
    → Sublistᴰ (launchable waiting running every) waiting
unfolding launchable
launchable-sublist waiting running every = loop-sublist every (held_by every [] running) waiting

-- Beside nothing, the first ready phase is launched.
pub launchable_first :
    (p : PhaseSpec) (ps : List PhaseSpec) (every : List String)
    → (rest : List PhaseSpec) × (launchable (p ∷ ps) [] every ≡ p ∷ rest)
unfolding launchable launch_loop held_by
launchable_first p ps every = (launch_loop every (union [] (claims p every)) ps, refl)

mem-sublist : {p : PhaseSpec} (xs ys : List PhaseSpec) → Sublistᴰ xs ys → Memᴰ p xs → Memᴰ p ys
mem-sublist xs ys Sublistᴰ.slnil m = m
mem-sublist xs ys (Sublistᴰ.cons {l₁} {l₂} s) m = Memᴰ.tail (mem-sublist l₁ l₂ s m)
mem-sublist xs ys (Sublistᴰ.cons-cons {l₁} {l₂} e s) m = elim (Memᴰ.cases_cons m) [
  | inl k ↦ Memᴰ.head (k ∙ e)
  | inr k ↦ Memᴰ.tail (mem-sublist l₁ l₂ s k)
]

-- Only ready phases are launched.
pub mem-launchable :
    (waiting running : List PhaseSpec) (every : List String) {p : PhaseSpec}
    → Memᴰ p (launchable waiting running every)
    → Memᴰ p waiting
mem-launchable waiting running every m =
    mem-sublist _ waiting (launchable-sublist waiting running every) m
