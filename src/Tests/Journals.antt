-- ===== src/Tests/Journals.antt =====
-- The reads of a journal at a concrete file.
use user_mode_nixos.Prelude.{Bytes, take, ◌≡◌, refl, [], ◌∷◌, arith}
use user_mode_nixos.Journal.Lines.{split, untouched}
use user_mode_nixos.Journal.Lines.Chunks.{at, reads, reads_whole}

-- `ab`, a newline, `c`, a newline, `d`.
abbrev file : Bytes
file = 97 ∷ 98 ∷ 10 ∷ 99 ∷ 10 ∷ 100 ∷ []

split-sample : split file ≡ ((97 ∷ 98 ∷ []) ∷ (99 ∷ []) ∷ [], 100 ∷ [])
unfolding split
split-sample = refl

reads_whole_example :
    ((reads (1 ∷ 4 ∷ 6 ∷ []) file untouched).0 ≡ (split (take 6 file)).0)
    × ((reads (1 ∷ 4 ∷ 6 ∷ []) file untouched).1 ≡ at 6 file)
reads_whole_example =
    reads_whole file (1 ∷ 4 ∷ 6 ∷ []) (omega arith, (omega arith, (omega arith, omega arith)))
