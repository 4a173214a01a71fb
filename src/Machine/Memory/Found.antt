-- ===== src/Machine/Memory/Found.antt =====
-- Which file is taken for a guest's memory, and what a size is read as.
use user_mode_nixos.Prelude.{
  Chars, ℕ, ◌*◌, ◌/◌, Bool, true, false, Option, none, some, List, [], ◌∷◌, ◌++◌, if◌then◌else◌,
  nat_eq, decimal, number-decimal, split_last-append, ◌≡◌, refl, arith,
}
use user_mode_nixos.Machine.Memory.{
  scale, memory_bytes, Entry, scan, PidSource, host_memory_kib, found_or,
}

-- A size written as a number and a letter is read as that number of its unit.
pub memory_bytes_reads :
    (n c unit : ℕ) → scale c ≡ some unit → memory_bytes (decimal n ++ (c ∷ [])) ≡ some (n * unit)
unfolding memory_bytes
memory_bytes_reads n c unit h = ground (arith, split_last-append (decimal n) c, h, number-decimal n)

-- A deleted file of exactly the guest's memory.
abbrev pub is_memory : ℕ → Entry → Bool
is_memory want Entry.unreadable = false
is_memory want (Entry.entry deleted memfd size blocks) = if deleted then nat_eq size want else false

-- The first of those that is a memfd, and the last of the others.
abbrev pub first_memfd : ℕ → List Entry → Option ℕ
first_memfd want [] = none
first_memfd want (Entry.unreadable ∷ entries) = first_memfd want entries
first_memfd want (Entry.entry deleted memfd size blocks ∷ entries) =
    let rest = first_memfd want entries in
    if is_memory want (Entry.entry deleted memfd size blocks)
    then (if memfd then some (blocks / 2) else rest)
    else rest

abbrev pub last_other : ℕ → List Entry → Option ℕ
last_other want [] = none
last_other want (Entry.unreadable ∷ entries) = last_other want entries
last_other want (Entry.entry deleted memfd size blocks ∷ entries) =
    let rest = last_other want entries in
    elim rest [
      | some n ↦ some n
      | none ↦
          if is_memory want (Entry.entry deleted memfd size blocks)
          then (if memfd then none else some (blocks / 2))
          else none
    ]

abbrev pub or_else : Option ℕ → Option ℕ → Option ℕ
or_else (some n) other = some n
or_else none other = other

scan-eq :
    (want : ℕ) (found : Option ℕ) (entries : List Entry)
    → scan want found entries
      ≡ or_else (first_memfd want entries) (or_else (last_other want entries) found)
unfolding scan
scan-eq want found [] = refl
scan-eq want found (Entry.unreadable ∷ entries) = scan-eq want found entries
scan-eq want found (Entry.entry deleted memfd size blocks ∷ entries) =
    ground (arith, scan-eq want found entries, scan-eq want (some (blocks / 2)) entries)

-- What a guest's memory costs the host, where its size can be read and the guest runs with its pid
-- known: the blocks of the first open memfd that is deleted and as long as the guest's memory, or
-- else of the last other such file; and an error where there is neither.
pub host_memory_kib_exact :
    (memory : Chars) (want : ℕ) (entries : List Entry)
    → memory_bytes memory ≡ some want
    → (host_memory_kib PidSource.own_pid memory entries
        ≡ found_or (or_else (first_memfd want entries) (last_other want entries)))
      × (host_memory_kib (PidSource.pid_file true) memory entries
          ≡ host_memory_kib PidSource.own_pid memory entries)
unfolding host_memory_kib
host_memory_kib_exact memory want entries h = (ground (arith, h, scan-eq want none entries), refl)
