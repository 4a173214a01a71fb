-- ===== src/Journal/Lines.antt =====
-- `split` and `Tail` of pkgs/uml/uml/journal.py: the complete lines of a file that grows.
-- A byte is a number; a line is kept as its bytes, before it is decoded.
pub mod Chunks
use user_mode_nixos.Prelude.{
  Bytes, ℕ, suc, ◌+◌, ◌-◌, Bool, true, false, not, Option, none, some, List, [], ◌∷◌, ◌++◌,
  if◌then◌else◌, ltb, nat_eq, length, filter, take, drop,
}

-- A byte before the first newline of what `buffer.split(b"\n")` gave.
abbrev pub attach : ℕ → List Bytes × Bytes → List Bytes × Bytes
attach b ([], rest) = ([], b ∷ rest)
attach b (l ∷ ls, rest) = ((b ∷ l) ∷ ls, rest)

-- `*lines, rest = buffer.split(b"\n")`
unfoldable pub pieces : Bytes → List Bytes × Bytes
pieces [] = ([], [])
pieces (b ∷ bs) =
    let later = pieces bs in if nat_eq b 10 then ([] ∷ later.0, later.1) else attach b later

abbrev pub non_empty : Bytes → Bool
non_empty [] = false
non_empty (_ ∷ _) = true

-- `split`: an empty line is left out.
unfoldable pub split : Bytes → List Bytes × Bytes
unfolding pieces
split buffer = (filter non_empty (pieces buffer).0, (pieces buffer).1)

-- The fields of `Tail` that change: `_offset` and `_rest`.
pub record Tail : Type 0 where
  pub offset : ℕ
  pub rest : Bytes

abbrev pub untouched : Tail
untouched = record { offset = 0; rest = [] }

-- `Tail.streaming`
unfoldable pub streaming : Tail → Bool
streaming t = ltb 0 t.offset

-- The bytes read, and what they complete.
abbrev advance : Bytes → Tail → List Bytes × Tail
unfolding split
advance new t =
    let (lines, rest) = split (t.rest ++ new) in
    (lines, record { offset = t.offset + length new; rest = rest })

-- A file shorter than what was read of it has been started again.
abbrev pub restarted : ℕ → Tail → Tail
restarted size t = if ltb size t.offset then untouched else t

abbrev read_from : ℕ → Bytes → Tail → List Bytes × Tail
read_from size content t =
    let lines = advance (take (size - t.offset) (drop t.offset content)) t in
    if nat_eq size t.offset then ([], t) else lines

-- `Tail.read`: the size that `stat` gave, none where the file is missing, and the content that is
-- there when the file is opened.
unfoldable pub read : Option ℕ → Bytes → Tail → List Bytes × Tail
unfolding split
read none content t = ([], t)
read (some size) content t = read_from size content (restarted size t)
