-- ===== src/Arpyc/Frames.antt =====
-- `FdStream` and `Channel` of pkgs/uml-runner/uml_runner/arpyc.py: frames on a stream of bytes.
-- What `zlib.decompress` makes of bytes is a parameter.
pub mod RoundTrip
use user_mode_nixos.Prelude.{
  Bytes, ℕ, zero, suc, ◌+◌, ◌*◌, ◌/◌, ◌%◌, ◌^◌, Bool, true, false, Option, none, some, List, [],
  ◌∷◌, ◌++◌, ◌>>=◌, if◌then◌else◌, ltb, leb, nat_eq, length, take, drop,
}

-- `!L`: four bytes, the highest first. `struct.pack` raises where the number does not fit.
unfoldable pub pack_long : ℕ → Option Bytes
pack_long n =
    if ltb n (2 ^ 32)
    then some (n / 2 ^ 24 ∷ (n / 2 ^ 16) % 256 ∷ (n / 2 ^ 8) % 256 ∷ n % 256 ∷ [])
    else none

-- `_FRAME_HEADER.pack(length, 0)`
unfoldable pub pack_header : ℕ → Option Bytes
unfolding pack_long
pack_header n = do long ← pack_long n; some (long ++ 0 ∷ [])

-- `Channel.send`: the bytes written.
unfoldable pub send : Bytes → Option Bytes
send payload = do header ← pack_header (length payload); some (header ++ (payload ++ 10 ∷ []))

-- `FdStream.read`, on what has arrived: it waits until there are so many bytes.
unfoldable pub read_exactly : ℕ → Bytes → Option (Bytes × Bytes)
read_exactly count arrived =
    if leb count (length arrived) then some (take count arrived, drop count arrived) else none

-- `_FRAME_HEADER.unpack`: the length, and whether the payload is compressed.
abbrev pub unpack_header : Bytes → Option (ℕ × Bool)
unpack_header (a ∷ b ∷ c ∷ d ∷ flag ∷ []) =
    some (((a * 2 ^ 24 + b * 2 ^ 16) + c * 2 ^ 8) + d, if nat_eq flag 0 then false else true)
unpack_header _ = none

-- `Channel.recv`: the payload, and what has arrived behind the frame. The byte at its end is cut
-- off unread.
unfoldable pub recv : (Bytes → Bytes) → Bytes → Option (Bytes × Bytes)
recv decompress arrived = do
  (header, behind) ← read_exactly 5 arrived
  (size, compressed) ← unpack_header header
  (body, rest) ← read_exactly (size + 1) behind
  let payload = take size body
  some (if compressed then decompress payload else payload, rest)

-- How `FdStream.write` ends: with all bytes written, with `EOFError`, or still writing.
pub data Written : Type 0 where
  done broken writing : Written

abbrev none_left : Bytes → Bool
none_left [] = true
none_left (_ ∷ _) = false

-- `FdStream.write`, given how many bytes each `os.write` took: what was written, and the end.
unfoldable pub write : List ℕ → Bytes → Bytes × Written
write [] bytes = ([], if none_left bytes then Written.done else Written.writing)
write (n ∷ ns) bytes =
    let later = write ns (drop n bytes) in
    if none_left bytes
    then ([], Written.done)
    else if nat_eq n 0
    then ([], Written.broken)
    else (take n bytes ++ later.0, later.1)
