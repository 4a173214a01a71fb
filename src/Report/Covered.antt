-- ===== src/Report/Covered.antt =====
-- What `_toplevel` counts, against the time that some step covers.
use user_mode_nixos.Prelude.{
  ℕ, zero, suc, ◌+◌, ◌-◌, ◌*◌, ◌≤◌, ◌<◌, Bool, true, false, not, ◌&&◌, ◌||◌, Option, List, [], ◌∷◌,
  String, if◌then◌else◌, ltb, leb, nat_eq, any, all, sorted, in_order, sorted-order, any-sorted,
  all-sorted, all-eq-true, not-eq-true, Memᴰ, ◌≡◌, refl, sym, ap, ◌∙◌, inl, inr, Bool-cases,
  round_to-le, arith,
}
use user_mode_nixos.Report.{Step, Report, starts_below, outermost, toplevel, write, share}

abbrev pub end_of : Step → ℕ
end_of s = s.at + s.seconds

-- Whether a step goes on in a millisecond, and whether any does.
abbrev pub covers : ℕ → Step → Bool
covers t s = leb s.at t && ltb t (end_of s)

abbrev pub covered : List Step → ℕ → Bool
covered steps t = any (covers t) steps

-- How many of the `n` milliseconds from `a` on pass a test.
abbrev pub ticks : (ℕ → Bool) → ℕ → ℕ → ℕ
ticks p a zero = 0
ticks p a (suc n) = (if p a then 1 else 0) + ticks p (suc a) n

-- Of two steps, one is inside the other, or one ends before the other begins.
abbrev pub nested : Step → Step → Bool
nested s t =
    (ltb (end_of s) t.at || ltb (end_of t) s.at)
    || ((leb s.at t.at && leb (end_of t) (end_of s))
        || (leb t.at s.at && leb (end_of s) (end_of t)))

ticks-split : (p : ℕ → Bool) (a m n : ℕ) → ticks p a (m + n) ≡ ticks p a m + ticks p (a + m) n
ticks-split p a zero n = ground (
  arith,
  ap (λ b. ticks p b n) (let e : a ≡ a + 0 = omega arith in e),
  ap (λ k. ticks p a k) (let e : 0 + n ≡ n = omega arith in e),
)
ticks-split p a (suc m) n = ground (
  arith,
  ticks-split p (suc a) m n,
  ap (λ b. ticks p b n) (let e : suc a + m ≡ a + suc m = omega arith in e),
  ap (λ k. ticks p a k) (let e : suc m + n ≡ suc (m + n) = omega arith in e),
)

ticks-all : (p : ℕ → Bool) (a n : ℕ) → ((t : ℕ) → a ≤ t → t < a + n → p t ≡ true) → ticks p a n ≡ n
ticks-all p a zero h = refl
ticks-all p a (suc n) h =
    let here : p a ≡ true = h a (omega arith) (omega arith) in
    ground (arith, ticks-all p (suc a) n (λ t l u. h t (omega arith) (omega arith)))

ticks-ext :
    (p q : ℕ → Bool) (a n : ℕ)
    → ((t : ℕ) → a ≤ t → t < a + n → p t ≡ q t)
    → ticks p a n ≡ ticks q a n
ticks-ext p q a zero h = refl
ticks-ext p q a (suc n) h =
    let here : p a ≡ q a = h a (omega arith) (omega arith) in
    ground (arith, ticks-ext p q (suc a) n (λ t l u. h t (omega arith) (omega arith)))

ticks-none : (a n : ℕ) → ticks (λ t. false) a n ≡ 0
ticks-none a zero = refl
ticks-none a (suc n) = omega (arith, ticks-none (suc a) n)

-- No step covers a time before all of them begin.
covered-before :
    (t : ℕ) (steps : List Step) → ((s : Step) → Memᴰ s steps → t < s.at) → covered steps t ≡ false
covered-before t [] h = refl
covered-before t (s ∷ steps) h =
    let first : t < s.at = h s (Memᴰ.head refl) in
    ground (arith, covered-before t steps (λ r m. h r (Memᴰ.tail m)))

outermost-le :
    (end total : ℕ) (steps : List Step)
    → end ≤ total
    → all (λ s. leb (end_of s) total) steps ≡ true
    → end + outermost end steps ≤ total
outermost-le end total [] h k = omega arith
outermost-le end total (s ∷ steps) h k = elim (Bool-cases (leb end s.at)) [
  | inl e ↦ rw e (ground (arith, outermost-le (end_of s) total steps (ground arith) (ground arith)))
  | inr e ↦ rw e (outermost-le end total steps h (ground arith))
]

toplevel-le :
    (total : ℕ) (steps : List Step)
    → all (λ s. leb (end_of s) total) steps ≡ true
    → toplevel steps ≤ total
unfolding toplevel
toplevel-le total steps h = omega (
  arith,
  outermost-le 0 total (sorted starts_below steps) (omega arith)
      (all-sorted starts_below (λ s. leb (end_of s) total) steps ∙ h),
)

-- A time that nothing covers, then one that all of it covers, then the rest.
ticks-three :
    (p : ℕ → Bool) (a b k m n : ℕ)
    → a ≤ b
    → n ≡ (b - a) + (k + m)
    → ((t : ℕ) → t < b → p t ≡ false)
    → ((t : ℕ) → b ≤ t → t < b + k → p t ≡ true)
    → ticks p a n ≡ k + ticks p (b + k) m
ticks-three p a b k m n h e before inside =
    let gap = b - a in
    let start : a + gap ≡ b = omega arith in
    ground (
      arith,
      ap (λ j. ticks p a j) e,
      ticks-split p a gap (k + m),
      ticks-ext p (λ t. false) a gap (λ t l u. before t (omega arith)),
      ticks-none a gap,
      ap (λ c. ticks p c (k + m)) start,
      ticks-split p b k m,
      ticks-all p b k inside,
    )

-- The steps behind one in the order.
not_before :
    (s : Step) (steps : List Step)
    → in_order starts_below (s ∷ steps) ≡ true
    → (t : Step) → Memᴰ t steps
    → starts_below t s ≡ false
not_before s steps o t m =
    let behind : all (λ r. not (starts_below r s)) steps ≡ true = ground arith in
    not-eq-true (starts_below t s) (all-eq-true (λ r. not (starts_below r s)) steps behind m)

starts_after :
    (s : Step) (steps : List Step)
    → in_order starts_below (s ∷ steps) ≡ true
    → (t : Step) → Memᴰ t (s ∷ steps)
    → s.at ≤ t.at
starts_after s steps o t (Memᴰ.head e) = rw e (omega arith)
starts_after s steps o t (Memᴰ.tail m) = let n = not_before s steps o t m in ground arith

-- A step that begins inside an outermost one ends inside it.
inside_outermost :
    (s t : Step)
    → starts_below t s ≡ false
    → nested s t ≡ true
    → t.at < end_of s
    → end_of t ≤ end_of s
inside_outermost s t o l h = ground arith

outermost-ticks :
    (end n : ℕ) (steps : List Step)
    → in_order starts_below steps ≡ true
    → ((s t : Step) → Memᴰ s steps → Memᴰ t steps → nested s t ≡ true)
    → ((s : Step) → Memᴰ s steps → s.at < end → end_of s ≤ end)
    → ((s : Step) → Memᴰ s steps → end_of s ≤ end + n)
    → outermost end steps ≡ ticks (covered steps) end n
outermost-ticks end n [] o l b f = sym (ticks-none end n)
outermost-ticks end n (s ∷ steps) o l b f = elim (Bool-cases (leb end s.at)) [
  | inl e ↦
      let m = (end + n) - end_of s in
      let fits : end_of s ≤ end + n = f s (Memᴰ.head refl) in
      let rest : outermost (end_of s) steps ≡ ticks (covered steps) (end_of s) m =
        outermost-ticks (end_of s) m steps (ground arith)
          (λ t r i j. l t r (Memᴰ.tail i) (Memᴰ.tail j))
          (λ t i.
            inside_outermost s t (not_before s steps o t i) (l s t (Memᴰ.head refl) (Memᴰ.tail i)))
          (λ t i. let g = f t (Memᴰ.tail i) in omega arith) in
      let same =
        ticks-ext (covered steps) (covered (s ∷ steps)) (end_of s) m (λ t u v. ground arith) in
      let three =
        ticks-three (covered (s ∷ steps)) end s.at s.seconds m n (ground arith) (ground arith)
          (λ t u.
            covered-before t (s ∷ steps) (λ r i. let a = starts_after s steps o r i in omega arith))
          (λ t u v. ground arith) in
      rw e (ap (λ k. s.seconds + k) (rest ∙ same) ∙ sym three)
  | inr e ↦
      let rest =
        outermost-ticks end n steps (ground arith) (λ t r i j. l t r (Memᴰ.tail i) (Memᴰ.tail j))
          (λ t i. b t (Memᴰ.tail i)) (λ t i. f t (Memᴰ.tail i)) in
      let inside : end_of s ≤ end = b s (Memᴰ.head refl) (ground arith) in
      rw e (rest ∙ ticks-ext (covered steps) (covered (s ∷ steps)) end n (λ t u v. ground arith))
]

starts_asym : (s t : Step) → starts_below s t ≡ true → starts_below t s ≡ false
starts_asym s t h = ground arith

starts_trans :
    (r s t : Step) → starts_below s r ≡ false → starts_below t s ≡ false → starts_below t r ≡ false
starts_trans r s t h k = ground arith

-- What holds of all pairs of a list holds of all pairs of it sorted.
pairs-sorted :
    (p : Step → Step → Bool) (steps : List Step)
    → all (λ s. all (p s) steps) steps ≡ true
    → (s t : Step) → Memᴰ s (sorted starts_below steps)
    → Memᴰ t (sorted starts_below steps)
    → p s t ≡ true
pairs-sorted p steps h s t i j =
    let row =
      all-eq-true (λ s. all (p s) steps) (sorted starts_below steps)
        (all-sorted starts_below (λ s. all (p s) steps) steps ∙ h) i in
    all-eq-true (p s) (sorted starts_below steps) (all-sorted starts_below (p s) steps ∙ row) j

-- The recorded time is the number of milliseconds that some step covers, if of every two steps one
-- is inside the other or ends at least a millisecond before the other begins, and all of them end
-- within the time looked at.
pub recorded_is_covered :
    (total : ℕ) (steps : List Step)
    → all (λ s. all (nested s) steps) steps ≡ true
    → all (λ s. leb (end_of s) total) steps ≡ true
    → toplevel steps ≡ ticks (covered steps) 0 total
unfolding toplevel
recorded_is_covered total steps l f =
    let order = sorted starts_below steps in
    let ends = all-sorted starts_below (λ s. leb (end_of s) total) steps ∙ f in
    outermost-ticks 0 total order (sorted-order starts_below starts_asym starts_trans steps)
      (pairs-sorted nested steps l) (λ s i u. absurd (let no : ⊥ = omega arith in no))
      (λ s i. let g = all-eq-true (λ s. leb (end_of s) total) order ends i in ground arith)
    ∙ ticks-ext (covered order) (covered steps) 0 total
        (λ t u v. any-sorted starts_below (covers t) steps)

-- The recorded and the unrecorded time of a report add up to its total, and the percentage shown is
-- at most 100, if every step ends by then.
pub recorded_within_total :
    (total : ℕ) (passed : Bool) (error : Option String) (r : Report)
    → all (λ s. leb (end_of s) total) r.steps ≡ true
    → let body = write total passed error r in
      (body.recorded_seconds + body.unrecorded_seconds ≡ body.total_seconds) × (share total r ≤ 100)
unfolding write share
recorded_within_total total passed error r h = (
  omega (arith, toplevel-le total r.steps h),
  elim (Bool-cases (nat_eq total 0)) [
    | inl z ↦ ground arith
    | inr z ↦ ground (
      arith,
      toplevel-le total r.steps h,
      round_to-le total (100 * toplevel r.steps) (ground arith)
          (let t = toplevel-le total r.steps h in omega arith),
    )
  ],
)

-- Of two steps of which the second begins inside the first and ends after it, only the first is
-- recorded, which is less than the time the two cover.
pub partial_overlap_uncounted :
    (s t : Step)
    → s.at < t.at
    → t.at < end_of s
    → end_of s < end_of t
    → (toplevel (s ∷ t ∷ []) ≡ s.seconds) × (s.seconds < ticks (covered (s ∷ t ∷ [])) 0 (end_of t))
unfolding toplevel
partial_overlap_uncounted s t h k e =
    let all_of_it =
      ticks-three (covered (s ∷ t ∷ [])) 0 s.at (end_of t - s.at) 0 (end_of t) (omega arith)
        (omega arith) (λ u v. ground arith) (λ u v w. ground arith) in
    (ground arith, omega (arith, all_of_it))
