-- ===== src/Journal/Lines/Chunks.antt =====
-- However a file is cut into reads, its lines are the same.
use user_mode_nixos.Prelude.{
  Bytes, take, drop, length-take, length-drop, ℕ, zero, suc, ◌+◌, ◌-◌, ◌≤◌, ◌≡◌, refl, sym, ap, ◌∙◌,
  false, inl, inr, some, List, [], ◌∷◌, ◌++◌, ltb, nat_eq, Bool-cases, length, filter, arith,
}
use mathlib.Core.List.{append-nil, append_assoc}
use user_mode_nixos.Journal.Lines.{attach, pieces, non_empty, split, Tail, untouched, read}

-- What follows an unfinished line is cut as if the line had come with it.
abbrev pub continued : List Bytes × Bytes → Bytes → List Bytes × Bytes
continued cut more = (cut.0 ++ (pieces (cut.1 ++ more)).0, (pieces (cut.1 ++ more)).1)

attach-continued :
    (b : ℕ) (cut : List Bytes × Bytes) (more : Bytes)
    → nat_eq b 10 ≡ false
    → attach b (continued cut more) ≡ continued (attach b cut) more
unfolding pieces
attach-continued b ([], rest) more h = rw h refl
attach-continued b (l ∷ ls, rest) more h = refl

pub pieces-append : (read more : Bytes) → pieces (read ++ more) ≡ continued (pieces read) more
unfolding pieces
pieces-append [] more = refl
pieces-append (b ∷ bs) more = elim (Bool-cases (nat_eq b 10)) [
  | inl h ↦ rw (h, pieces-append bs more) refl
  | inr h ↦ rw (h, pieces-append bs more) (attach-continued b (pieces bs) more h)
]

filter-append :
    (xs ys : List Bytes) → filter non_empty (xs ++ ys) ≡ filter non_empty xs ++ filter non_empty ys
filter-append [] ys = refl
filter-append (x ∷ xs) ys = ground (arith, filter-append xs ys)

pub split-append :
    (read more : Bytes)
    → split (read ++ more)
      ≡ ((split read).0 ++ (split ((split read).1 ++ more)).0, (split ((split read).1 ++ more)).1)
unfolding split
split-append read more =
    rw (pieces-append read more, filter-append (pieces read).0 (pieces ((pieces read).1 ++ more)).0)
      refl

take-nil : (n : ℕ) → take {A = ℕ} n [] ≡ []
take-nil zero = refl
take-nil (suc n) = refl

take-more : (m n : ℕ) (bs : Bytes) → m ≤ n → take n bs ≡ take m bs ++ take (n - m) (drop m bs)
take-more zero n bs h = ap (λ k. take k bs) (let e : n ≡ n - 0 = omega arith in e)
take-more (suc m) (suc n) [] h = sym (take-nil (suc n - suc m))
take-more (suc m) (suc n) (b ∷ bs) h =
    let e : n - m ≡ suc n - suc m = omega arith in
    ap (λ r. b ∷ r) (take-more m n bs (omega arith) ∙ ap (λ k. take m bs ++ take k (drop m bs)) e)
take-more (suc m) zero bs h = absurd (let no : ⊥ = omega arith in no)

-- A tail that has read the first `n` bytes of a file.
abbrev pub at : ℕ → Bytes → Tail
at n content = record { offset = n; rest = (split (take n content)).1 }

-- One read of a file that has grown to `n` bytes: the lines, with those of the reads before, are
-- the complete lines of all `n` bytes.
read_grown :
    (m n : ℕ) (content : Bytes)
    → m ≤ n
    → n ≤ length content
    → ((split (take m content)).0 ++ (read (some n) content (at m content)).0
        ≡ (split (take n content)).0)
      × ((read (some n) content (at m content)).1 ≡ at n content)
unfolding read
read_grown m n content h k =
    let piece = take (n - m) (drop m content) in
    let cut = pieces (take m content) in
    let long : m + length piece ≡ n =
      omega (arith, length-take (n - m) (drop m content) (omega (arith, length-drop m content))) in
    let not_less : ltb n m ≡ false = ground arith in
    elim (Bool-cases (nat_eq n m)) [
      | inl same ↦ let e : n ≡ m = ground arith in rw (not_less, same, e) (append-nil _, refl)
      | inr more ↦
          rw
            (
              not_less,
              more,
              take-more m n content h,
              pieces-append (take m content) piece,
              filter-append cut.0 (pieces (cut.1 ++ piece)).0,
              long,
            )
            (refl, refl)
    ]

-- The reads of a file as it grows to each of the sizes.
abbrev pub reads : List ℕ → Bytes → Tail → List Bytes × Tail
reads [] content t = ([], t)
reads (n ∷ ns) content t =
    let (lines, next) = read (some n) content t in
    let (more, last) = reads ns content next in (lines ++ more, last)

-- The sizes never fall, starting from the first number, and stay within the second.
abbrev pub IsGrowing : ℕ → List ℕ → ℕ → Type 0
IsGrowing m [] limit = m ≤ limit
IsGrowing m (n ∷ ns) limit = (m ≤ n) × IsGrowing n ns limit

abbrev pub last_size : ℕ → List ℕ → ℕ
last_size m [] = m
last_size m (n ∷ ns) = last_size n ns

size_bound : (m : ℕ) (sizes : List ℕ) (limit : ℕ) → IsGrowing m sizes limit → m ≤ limit
size_bound m [] limit h = h
size_bound m (n ∷ ns) limit (h, k) = omega (arith, size_bound n ns limit k)

-- The same from any size on.
reads-at :
    (content : Bytes) (m : ℕ) (sizes : List ℕ)
    → IsGrowing m sizes (length content)
    → ((split (take m content)).0 ++ (reads sizes content (at m content)).0
        ≡ (split (take (last_size m sizes) content)).0)
      × ((reads sizes content (at m content)).1 ≡ at (last_size m sizes) content)
reads-at content m [] h = (append-nil _, refl)
reads-at content m (n ∷ ns) (h, k) =
    let (lines, next) = read_grown m n content h (size_bound n ns (length content) k) in
    let (later, end) = reads-at content n ns k in
    rw next (
      sym (
            append_assoc (split (take m content)).0 (read (some n) content (at m content)).0
              (reads ns content (at n content)).0)
          ∙ (ap (λ r. r ++ (reads ns content (at n content)).0) lines ∙ later),
      end,
    )

-- A guest's journal is read in pieces while it grows. However the reads fall, even in the middle of
-- a line, together they give the complete lines of what there is at the last read, in order, each
-- once, and what is held back is the unfinished line behind them.
pub reads_whole :
    (content : Bytes) (sizes : List ℕ)
    → IsGrowing 0 sizes (length content)
    → ((reads sizes content untouched).0 ≡ (split (take (last_size 0 sizes) content)).0)
      × ((reads sizes content untouched).1 ≡ at (last_size 0 sizes) content)
unfolding split
reads_whole content sizes h = reads-at content 0 sizes h
