-- ===== src/Phases/Dependents.antt =====
-- `dependents` of pkgs/uml/uml/phases.py against the relation "a failure of one phase takes
-- another with it", and that its rounds are enough.
use user_mode_nixos.Prelude.{
  ℕ, zero, suc, ◌<◌, String, ◌≡◌, refl, sym, ◌≢◌, ◌↔◌, ◌⊎◌, inl, inr, Bool, true, false, not, ◌&&◌,
  List, [], ◌∷◌, map, Memᴰ, ◌∙◌, arith, eq_iff, ◌==◌, Bool-cases, &&-eq-true, not-eq-true,
  ||-eq-true, length, filter, all, mem-filter, mem-filter_of, all-eq-true, all-eq-false, all_of,
  length-filter-le, length-filter-lt, elem, overlap, elem-union, elem-discard, elem→Memᴰ, Memᴰ→elem,
  overlap-eq-true, overlap_of,
}
use mathlib.Core.List.Memᴰ
use user_mode_nixos.Spec.{PhaseSpec}
use user_mode_nixos.Phases.{grown, same_set, dependents_loop, dependents}

-- `m` is `name`, or a phase that is not `always` and comes after a phase taken already.
pub data Taken (phases : List PhaseSpec) (name : String) : String → Type 0 where
  itself : Taken phases name name
  after :
      {m d : String} (p : PhaseSpec)
      → Taken phases name d
      → Memᴰ p phases
      → p.always ≡ false
      → elem d p.after ≡ true
      → p.name ≡ m
      → Taken phases name m

module _ (phases : List PhaseSpec) (name : String) where
  abbrev picks : List String → PhaseSpec → Bool
  picks found p = not p.always && overlap found p.after

  abbrev missing : List String → PhaseSpec → Bool
  missing found p = not (elem p.name found)

  -- Each name found is taken.
  abbrev IsSound : List String → Type 0
  IsSound found = (m : String) → elem m found ≡ true → Taken phases name m

  -- No phase is left to find.
  abbrev IsClosed : List String → Type 0
  IsClosed found = (p : PhaseSpec) → Memᴰ p phases → picks found p ≡ true → elem p.name found ≡ true

  elem-grown :
      (found : List String) (m : String)
      → elem m (grown found phases) ≡ true
      → (elem m found ≡ true)
        ⊎ ((p : PhaseSpec) × Memᴰ p phases × (picks found p ≡ true) × (p.name ≡ m))
  unfolding grown
  elem-grown found m h =
      let new = map (λ (p : PhaseSpec). p.name) (filter (picks found) phases) in
      elim (||-eq-true (elem m found) (elem m new) (sym (elem-union m found new) ∙ h)) [
        | inl old ↦ inl old
        | inr k ↦
            let (p, q, e) = Memᴰ.of_map (λ (p : PhaseSpec). p.name) _ (elem→Memᴰ m new k) in
            let (q', t) = mem-filter (picks found) phases q in inr (p, q', t, e)
      ]

  grown_keeps :
      (found : List String) (m : String) → elem m found ≡ true → elem m (grown found phases) ≡ true
  unfolding grown
  grown_keeps found m h =
      elem-union m found (map (λ (p : PhaseSpec). p.name) (filter (picks found) phases))
      ∙ (rw h refl)

  grown_finds :
      (found : List String) (p : PhaseSpec)
      → Memᴰ p phases
      → picks found p ≡ true
      → elem p.name (grown found phases) ≡ true
  unfolding grown
  grown_finds found p q h =
      let new = map (λ (p : PhaseSpec). p.name) (filter (picks found) phases) in
      let k : elem p.name new ≡ true =
        Memᴰ→elem p.name new
          (Memᴰ.map (λ (p : PhaseSpec). p.name) (mem-filter_of (picks found) phases q h)) in
      ground (arith, elem-union p.name found new)

  grown-IsSound : (found : List String) → IsSound found → IsSound (grown found phases)
  grown-IsSound found sound m h = elim (elem-grown found m h) [
    | inl old ↦ sound m old
    | inr (p, q, t, e) ↦
        let (plain, meets) = &&-eq-true (not p.always) (overlap found p.after) t in
        let (x, in_found, in_after) = overlap-eq-true found p.after meets in
        after p (sound x in_found) q (not-eq-true p.always plain) in_after e
  ]

  IsClosed-of_same :
      (found : List String) → same_set (grown found phases) found ≡ true → IsClosed found
  IsClosed-of_same found h p q t =
      let next = grown found phases in
      all-eq-true (λ x. elem x found) next (&&-eq-true _ _ h).0
        (elem→Memᴰ p.name next (grown_finds found p q t))

  -- A round that changes the set finds the name of a phase.
  missing-grown-lt :
      (found : List String)
      → same_set (grown found phases) found ≡ false
      → length (filter (missing (grown found phases)) phases)
        < length (filter (missing found) phases)
  missing-grown-lt found h =
      let next = grown found phases in
      let kept : all (λ x. elem x next) found ≡ true =
        all_of (λ x. elem x next) found (λ x m. grown_keeps found x (Memᴰ→elem x found m)) in
      let lost : all (λ x. elem x found) next ≡ false = ground arith in
      let (x, x_next, x_new) = all-eq-false (λ x. elem x found) next lost in
      elim (elem-grown found x (Memᴰ→elem x next x_next)) [
        | inl old ↦ absurd (cc)
        | inr (p, q, t, e) ↦
            length-filter-lt (missing next) (missing found) phases
              (λ b k. ground (arith, grown_keeps found b.name)) q
              (ground (arith, grown_finds found p q t)) (ground arith)
      ]

  Taken→elem :
      (found : List String) {m : String}
      → elem name found ≡ true
      → IsClosed found
      → Taken phases name m
      → elem m found ≡ true
  Taken→elem found start closed itself = start
  Taken→elem found start closed (after {d} p t q a in_after e) = rw (← e) (
      closed p q
        (ground (arith, overlap_of d found p.after (Taken→elem found start closed t) in_after)))

  loop_exact :
      (rounds : ℕ) (found : List String)
      → elem name found ≡ true
      → IsSound found
      → length (filter (missing found) phases) < rounds
      → (m : String)
      → (elem m (dependents_loop rounds name phases found) ≡ true)
        ↔ ((m ≢ name) × Taken phases name m)
  unfolding dependents_loop
  loop_exact zero found start sound h m = absurd (omega arith)
  loop_exact (suc rounds) found start sound h m =
      elim (Bool-cases (same_set (grown found phases) found)) [
        | inl stop ↦
            rw (stop, elem-discard m name found)
              (
                (λ k. (λ e. ground (arith, eq_iff name m), sound m (&&-eq-true _ _ k).0)),
                (λ (ne, t).
                    ground (
                      arith,
                      eq_iff name m,
                      Taken→elem found start (IsClosed-of_same found stop) t,
                    )),
              )
        | inr go ↦ rw go (
            loop_exact rounds (grown found phases) (grown_keeps found name start)
              (grown-IsSound found sound) (omega (arith, missing-grown-lt found go)) m)
      ]

-- A phase name is in `dependents(name, phases)` exactly when it is another name than `name` and a
-- chain of `after` entries leads to it from `name`, each link of it a phase that is not `always`.
-- The rounds given to the loop are enough for this, whatever the order of the phases.
pub dependents_exact :
    (name : String) (phases : List PhaseSpec) (m : String)
    → (elem m (dependents name phases) ≡ true) ↔ ((m ≢ name) × Taken phases name m)
unfolding dependents
dependents_exact name phases =
    loop_exact phases name (suc (length phases)) (name ∷ []) (ground (arith, eq_iff name name))
      (λ m h. elim (Bool-cases (m == name)) [
        | inl e ↦ rw ((eq_iff m name).0 e) itself
        | inr e ↦ (let k : ⊥ = ground arith in absurd k)
      ])
      (omega (arith, length-filter-le (missing phases name (name ∷ [])) phases))
