-- ===== src/Phases/Launch/Loop.antt =====
-- The loop of `launchable` of pkgs/uml/uml/phases.py, guest by guest.
use user_mode_nixos.Prelude.{
  String, ◌≡◌, refl, sym, ◌∙◌, ◌⊎◌, inl, inr, true, false, List, [], ◌∷◌, ◌++◌, Memᴰ, arith,
  Bool-cases, elem, union, overlap, elem-union, overlap-eq-true, overlap_of, ||-eq-true,
}
use mathlib.Core.List.Memᴰ
use mathlib.Core.List.{Sublistᴰ}
use user_mode_nixos.Spec.{PhaseSpec}
use user_mode_nixos.Phases.{claims, held_by, launch_loop}

module _ (every : List String) where
  -- No guest is claimed by both.
  abbrev pub Apart : PhaseSpec → PhaseSpec → Type 0
  Apart p q = overlap (claims p every) (claims q every) ≡ false

  abbrev pub ApartAll : PhaseSpec → List PhaseSpec → Type 0
  ApartAll p [] = Unit {0}
  ApartAll p (q ∷ qs) = Apart p q × ApartAll p qs

  -- No two phases of the list, at different places, claim one guest.
  abbrev pub IsExclusive : List PhaseSpec → Type 0
  IsExclusive [] = Unit {0}
  IsExclusive (p ∷ ps) = ApartAll p ps × IsExclusive ps

  -- Every claim of the list is held.
  abbrev pub Covers : List String → List PhaseSpec → Type 0
  Covers held ps =
      (p : PhaseSpec) (x : String) → Memᴰ p ps → elem x (claims p every) ≡ true → elem x held ≡ true

  pub elem-held_by :
      (held : List String) (ps : List PhaseSpec) (x : String)
      → elem x (held_by every held ps) ≡ true
      → (elem x held ≡ true) ⊎ ((p : PhaseSpec) × Memᴰ p ps × (elem x (claims p every) ≡ true))
  unfolding held_by
  elem-held_by held [] x h = inl h
  elem-held_by held (p ∷ ps) x h = elim (elem-held_by (union held (claims p every)) ps x h) [
    | inl k ↦ elim (||-eq-true _ _ (sym (elem-union x held (claims p every)) ∙ k)) [
      | inl old ↦ inl old
      | inr new ↦ inr (p, Memᴰ.head refl, new)
    ]
    | inr (q, m, k) ↦ inr (q, Memᴰ.tail m, k)
  ]

  held_by_keeps :
      (held : List String) (ps : List PhaseSpec) (x : String)
      → elem x held ≡ true
      → elem x (held_by every held ps) ≡ true
  unfolding held_by
  held_by_keeps held [] x h = h
  held_by_keeps held (p ∷ ps) x h =
      held_by_keeps (union held (claims p every)) ps x
        (ground (arith, elem-union x held (claims p every)))

  pub held_by-Covers :
      (held : List String) (ps : List PhaseSpec) → Covers (held_by every held ps) ps
  unfolding held_by
  held_by-Covers held [] p x m h = elim m [ ]
  held_by-Covers held (q ∷ ps) p x (Memᴰ.head e) h =
      held_by_keeps (union held (claims q every)) ps x
        (ground (arith, elem-union x held (claims q every)))
  held_by-Covers held (q ∷ ps) p x (Memᴰ.tail m) h =
      held_by-Covers (union held (claims q every)) ps p x m h

  pub overlap_mono :
      (a b c : List String)
      → ((x : String) → elem x a ≡ true → elem x b ≡ true)
      → overlap b c ≡ false
      → overlap a c ≡ false
  overlap_mono a b c sub h = elim (Bool-cases (overlap a c)) [
    | inl k ↦ let (x, in_a, in_c) = overlap-eq-true a c k in cc (overlap_of x b c (sub x in_a) in_c)
    | inr k ↦ k
  ]

  -- What is chosen is clear of all that is held.
  pub loop_clear :
      (held : List String) (ps : List PhaseSpec) (q : PhaseSpec)
      → Memᴰ q (launch_loop every held ps)
      → overlap held (claims q every) ≡ false
  unfolding launch_loop
  loop_clear held [] q m = elim m [ ]
  loop_clear held (p ∷ ps) q m = elim (Bool-cases (overlap held (claims p every))) [
    | inl h ↦ loop_clear held ps q (let k : Memᴰ q (launch_loop every held ps) = rw h at m in k)
    | inr h ↦
        let k : Memᴰ q (p ∷ launch_loop every (union held (claims p every)) ps) = rw h at m in
        elim (Memᴰ.cases_cons k) [
          | inl e ↦ rw e h
          | inr later ↦
              overlap_mono held (union held (claims p every)) (claims q every)
                (λ x i. ground (arith, elem-union x held (claims p every)))
                (loop_clear (union held (claims p every)) ps q later)
        ]
  ]

  pub ApartAll-of :
      (p : PhaseSpec) (qs : List PhaseSpec)
      → ((q : PhaseSpec) → Memᴰ q qs → Apart p q)
      → ApartAll p qs
  ApartAll-of p [] h = tt
  ApartAll-of p (q ∷ qs) h = (h q (Memᴰ.head refl), ApartAll-of p qs (λ r m. h r (Memᴰ.tail m)))

  pub loop-IsExclusive :
      (held : List String) (ps : List PhaseSpec) → IsExclusive (launch_loop every held ps)
  unfolding launch_loop
  loop-IsExclusive held [] = tt
  loop-IsExclusive held (p ∷ ps) = elim (Bool-cases (overlap held (claims p every))) [
    | inl h ↦ rw h (loop-IsExclusive held ps)
    | inr h ↦
        let next = union held (claims p every) in
        rw h (
          ApartAll-of p (launch_loop every next ps) (λ q m.
              overlap_mono (claims p every) next (claims q every)
                (λ x i. ground (arith, elem-union x held (claims p every)))
                (loop_clear next ps q m)),
          loop-IsExclusive next ps,
        )
  ]

  ApartAll-append :
      (p : PhaseSpec) (qs rs : List PhaseSpec)
      → ApartAll p qs
      → ApartAll p rs
      → ApartAll p (qs ++ rs)
  ApartAll-append p [] rs h k = k
  ApartAll-append p (q ∷ qs) rs h k = (h.0, ApartAll-append p qs rs h.1 k)

  pub IsExclusive-append :
      (ps qs : List PhaseSpec)
      → IsExclusive ps
      → IsExclusive qs
      → ((p : PhaseSpec) → Memᴰ p ps → ApartAll p qs)
      → IsExclusive (ps ++ qs)
  IsExclusive-append [] qs h k apart = k
  IsExclusive-append (p ∷ ps) qs h k apart = (
    ApartAll-append p ps qs h.0 (apart p (Memᴰ.head refl)),
    IsExclusive-append ps qs h.1 k (λ q m. apart q (Memᴰ.tail m)),
  )

  pub loop_maximal :
      (held : List String) (ps : List PhaseSpec) (p : PhaseSpec)
      → Memᴰ p ps
      → Memᴰ p (launch_loop every held ps)
        ⊎ ((x : String) × (elem x (claims p every) ≡ true)
            × ((elem x held ≡ true)
                ⊎ ((q : PhaseSpec) × Memᴰ q (launch_loop every held ps)
                    × (elem x (claims q every) ≡ true))))
  unfolding launch_loop
  loop_maximal held [] p m = elim m [ ]
  loop_maximal held (q ∷ ps) p (Memᴰ.head e) = elim (Bool-cases (overlap held (claims q every))) [
    | inl h ↦
        let (x, in_held, in_claims) = overlap-eq-true held (claims q every) h in
        inr (x, rw e in_claims, inl in_held)
    | inr h ↦ inl (rw (h) (Memᴰ.head e))
  ]
  loop_maximal held (q ∷ ps) p (Memᴰ.tail m) = elim (Bool-cases (overlap held (claims q every))) [
    | inl h ↦ rw h (loop_maximal held ps p m)
    | inr h ↦
        let next = union held (claims q every) in
        rw h (elim (loop_maximal next ps p m) [
          | inl chosen ↦ inl (Memᴰ.tail chosen)
          | inr (x, mine, inr (r, k, theirs)) ↦ inr (x, mine, inr (r, Memᴰ.tail k, theirs))
          | inr (x, mine, inl k) ↦
              elim (||-eq-true _ _ (sym (elem-union x held (claims q every)) ∙ k)) [
                | inl old ↦ inr (x, mine, inl old)
                | inr new ↦ inr (x, mine, inr (q, Memᴰ.head refl, new))
              ]
        ])
  ]

  pub loop-sublist :
      (held : List String) (ps : List PhaseSpec) → Sublistᴰ (launch_loop every held ps) ps
  unfolding launch_loop
  loop-sublist held [] = Sublistᴰ.slnil
  loop-sublist held (p ∷ ps) = elim (Bool-cases (overlap held (claims p every))) [
    | inl h ↦ rw h (Sublistᴰ.cons (loop-sublist held ps))
    | inr h ↦ rw h (Sublistᴰ.cons-cons refl (loop-sublist (union held (claims p every)) ps))
  ]
