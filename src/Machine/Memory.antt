-- ===== src/Machine/Memory.antt =====
-- `Machine.host_memory_kib`, `shrink`, `grow` and `_balloon`, with `memory_bytes` of
-- pkgs/uml-runner/uml_runner/backend.py: a guest's memory, in bytes and on the host.
pub mod Found
use user_mode_nixos.Prelude.{
  Chars, ℕ, zero, suc, ◌*◌, ◌/◌, ◌^◌, Bool, true, false, not, ◌||◌, Option, none, some, List, [],
  ◌∷◌, if◌then◌else◌, nat_eq, number, split_last,
}

-- The scale of a size's last letter: `k`, `m` or `g`, in either case.
abbrev pub scale : ℕ → Option ℕ
scale c =
    if nat_eq c 107 || nat_eq c 75
    then some 1024
    else if nat_eq c 109 || nat_eq c 77
    then some (1024 ^ 2)
    else if nat_eq c 103 || nat_eq c 71
    then some (1024 ^ 3)
    else none

-- `memory_bytes`; none where `int` raises.
unfoldable pub memory_bytes : Chars → Option ℕ
memory_bytes memory = elim (split_last memory) [
  | none ↦ none
  | some (front, c) ↦ elim (scale c) [
    | none ↦ number memory
    | some by ↦ elim (number front) [ none ↦ none | some n ↦ some (n * by) ]
  ]
]

-- An entry of `/proc/<pid>/fd`: one that cannot be read, or what it points to.
pub data Entry : Type 0 where
  unreadable : Entry
  entry : (deleted memfd : Bool) → (size blocks : ℕ) → Entry

-- The loop of `host_memory_kib`, behind what it found.
unfoldable pub scan : ℕ → Option ℕ → List Entry → Option ℕ
scan want found [] = found
scan want found (Entry.unreadable ∷ entries) = scan want found entries
scan want found (Entry.entry deleted memfd size blocks ∷ entries) =
    let fits = if deleted then nat_eq size want else false in
    let rest = scan want (if fits then some (blocks / 2) else found) entries in
    if fits then (if memfd then some (blocks / 2) else rest) else rest

-- Where the pid is read: the process's own, or the kernel's file, which may be missing.
pub data PidSource : Type 0 where
  no_process : PidSource
  own_pid : PidSource
  pid_file : Bool → PidSource

pub data HostMemory : Type 0 where
  not_running : HostMemory
  no_pid_file : HostMemory
  bad_size : HostMemory
  no_memory_file : HostMemory
  kib : ℕ → HostMemory

abbrev pub found_or : Option ℕ → HostMemory
found_or none = HostMemory.no_memory_file
found_or (some n) = HostMemory.kib n

abbrev measured : Chars → List Entry → HostMemory
unfolding memory_bytes scan
measured memory entries = elim (memory_bytes memory) [
  | none ↦ HostMemory.bad_size
  | some want ↦ found_or (scan want none entries)
]

-- `Machine.host_memory_kib`
unfoldable pub host_memory_kib : PidSource → Chars → List Entry → HostMemory
unfolding measured
host_memory_kib PidSource.no_process memory entries = HostMemory.not_running
host_memory_kib (PidSource.pid_file false) memory entries = HostMemory.no_pid_file
host_memory_kib (PidSource.pid_file true) memory entries = measured memory entries
host_memory_kib PidSource.own_pid memory entries = measured memory entries

-- A change of memory in bytes: less than nothing, or not.
pub data Delta : Type 0 where
  less : ℕ → Delta
  more : ℕ → Delta

-- `Machine.shrink` and `Machine.grow`: the change asked for.
unfoldable pub shrink : Chars → Option Delta
unfolding memory_bytes
shrink amount = elim (memory_bytes amount) [
  | none ↦ none
  | some zero ↦ some (Delta.more 0)
  | some (suc n) ↦ some (Delta.less (suc n))
]

unfoldable pub grow : Chars → Option Delta
unfolding memory_bytes
grow amount = elim (memory_bytes amount) [ none ↦ none | some n ↦ some (Delta.more n) ]
