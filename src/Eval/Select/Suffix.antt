-- ===== src/Eval/Select/Suffix.antt =====
-- What a query answers.
use user_mode_nixos.Prelude.{
  ℕ, zero, suc, ◌-◌, ◌≤◌, String, true, Option, none, some, List, [], ◌∷◌, ◌++◌, length, take, drop,
  take-drop, length-drop, Memᴰ, ◌≡◌, ◌⊎◌, refl, sym, ap, inl, inr, Bool-cases, arith,
}
use mathlib.Core.List.Memᴰ
use user_mode_nixos.Eval.Select.{Event, Query, matches, keep, matching, select}

-- Where an event that is kept comes from.
mem-keep :
    (q : Query) (o : Option Event) (rest : List Event) (e : Event)
    → Memᴰ e (keep q o rest)
    → ((o ≡ some e) × (matches q e ≡ true)) ⊎ (Memᴰ e rest)
unfolding keep
mem-keep q none rest e m = inr m
mem-keep q (some v) rest e m = elim (Bool-cases (matches q v)) [
  | inl k ↦ elim (Memᴰ.cases_cons (let i : Memᴰ e (v ∷ rest) = rw k at m in i)) [
    | inl g ↦ inl (ap some (sym g), rw g k)
    | inr i ↦ inr i
  ]
  | inr k ↦ inr (let i : Memᴰ e rest = rw k at m in i)
]

mem-matching :
    (loads : String → Option Event) (q : Query) (lines : List String) (e : Event)
    → Memᴰ e (matching loads q lines)
    → ((l : String) × Memᴰ l lines × (loads l ≡ some e)) × (matches q e ≡ true)
unfolding matching
mem-matching loads q [] e m = elim m [ ]
mem-matching loads q (l ∷ lines) e m = elim (mem-keep q (loads l) (matching loads q lines) e m) [
  | inl (g, h) ↦ ((l, Memᴰ.head refl, g), h)
  | inr i ↦ let ((k, j, g), h) = mem-matching loads q lines e i in ((k, Memᴰ.tail j, g), h)
]

mem_drop {ℓ} : {A : Type ℓ} {a : A} (n : ℕ) (xs : List A) → Memᴰ a (drop n xs) → Memᴰ a xs
mem_drop zero xs m = m
mem_drop (suc n) [] m = m
mem_drop (suc n) (x ∷ xs) m = Memᴰ.tail (mem_drop n xs m)

-- What `select` answers is the end of the events that match, in their order, and as many as the
-- limit or all of them; each of them matches, and is one of the lines.
pub select_suffix :
    (loads : String → Option Event) (q : Query) (limit : ℕ) (lines : List String)
    → let found = matching loads q lines in
      let answer = select loads q limit lines in
      ((front : List Event) × (front ++ answer ≡ found))
      × (1 ≤ limit → length answer ≤ limit)
      × (length found ≤ limit → answer ≡ found)
      × ((e : Event)
          → Memᴰ e answer
          → ((l : String) × Memᴰ l lines × (loads l ≡ some e)) × (matches q e ≡ true))
unfolding select
select_suffix loads q zero lines = (
  ([], refl),
  λ h. absurd (let no : ⊥ = omega arith in no),
  λ h. refl,
  λ e m. mem-matching loads q lines e m,
)
select_suffix loads q (suc n) lines =
    let found = matching loads q lines in
    let cut = length found - suc n in
    (
      (take cut found, take-drop cut found),
      λ h. omega (arith, length-drop cut found),
      λ h. ap (λ k. drop k found) (let e : cut ≡ 0 = omega arith in e),
      λ e m. mem-matching loads q lines e (mem_drop cut found m),
    )
