-- ===== src/Arpyc/Connection/Answers.antt =====
-- What an endpoint's operations do to the futures of its calls.
use user_mode_nixos.Prelude.{
  ℕ, Bool, true, false, not, ◌&&◌, ◌||◌, none, some, List, [], ◌∷◌, if◌then◌else◌, nat_eq, filter,
  ◌≡◌, refl, inl, inr, Option-cases, arith,
}
use user_mode_nixos.Arpyc.Connection.{Answer, has, answer_of, resolve, end_all}

-- Whether a call's future is done.
abbrev pub answered : ℕ → List (ℕ × Answer) → Bool
answered q answers = elim (answer_of q answers) [ none ↦ false | some _ ↦ true ]

pub answered-eq :
    (q : ℕ) (answers : List (ℕ × Answer))
    → answered q answers ≡ true
    → (a : Answer) × (answer_of q answers ≡ some a)
answered-eq q answers h = elim (Option-cases (answer_of q answers)) [
  | inl e ↦ cc
  | inr (a, e) ↦ (a, e)
]

pub answer_of-resolve :
    (p q : ℕ) (a : Answer) (answers : List (ℕ × Answer))
    → answer_of p (resolve q a answers)
      ≡ (if nat_eq p q && not (answered p answers) then some a else answer_of p answers)
unfolding resolve
answer_of-resolve p q a answers = elim (Option-cases (answer_of q answers)) [
  | inl e ↦ ground arith
  | inr (b, e) ↦ ground arith
]

pub answered-resolve :
    (p q : ℕ) (a : Answer) (answers : List (ℕ × Answer))
    → answered p (resolve q a answers) ≡ (nat_eq p q || answered p answers)
answered-resolve p q a answers = ground (arith, answer_of-resolve p q a answers)

pub resolve-kept :
    (p q : ℕ) (a b : Answer) (answers : List (ℕ × Answer))
    → answer_of p answers ≡ some b
    → answer_of p (resolve q a answers) ≡ some b
resolve-kept p q a b answers h = ground (arith, answer_of-resolve p q a answers)

pub answered-end_all :
    (p : ℕ) (qs : List ℕ) (answers : List (ℕ × Answer))
    → answered p (end_all qs answers) ≡ (has p qs || answered p answers)
unfolding end_all
answered-end_all p [] answers = refl
answered-end_all p (q ∷ qs) answers = ground (
  arith,
  answered-end_all p qs (resolve q Answer.connection_closed answers),
  answered-resolve p q Answer.connection_closed answers,
)

pub end_all-kept :
    (p : ℕ) (b : Answer) (qs : List ℕ) (answers : List (ℕ × Answer))
    → answer_of p answers ≡ some b
    → answer_of p (end_all qs answers) ≡ some b
unfolding end_all
end_all-kept p b [] answers h = h
end_all-kept p b (q ∷ qs) answers h =
    end_all-kept p b qs (resolve q Answer.connection_closed answers)
      (resolve-kept p q Answer.connection_closed b answers h)

pub has-filter :
    (p q : ℕ) (ps : List ℕ)
    → has p (filter (λ r. not (nat_eq q r)) ps) ≡ (has p ps && not (nat_eq q p))
has-filter p q [] = refl
has-filter p q (r ∷ ps) = ground (arith, has-filter p q ps)
