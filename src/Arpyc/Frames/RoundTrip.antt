-- ===== src/Arpyc/Frames/RoundTrip.antt =====
-- A frame that is sent is the frame that is received.
use user_mode_nixos.Prelude.{
  Bytes, ℕ, ◌+◌, ◌*◌, ◌/◌, ◌%◌, ◌^◌, ◌<◌, ◌≡◌, refl, ap, ◌∙◌, inl, inr, true, false, some, List, [],
  ◌∷◌, ◌++◌, leb, nat_eq, length, take, drop, length-append, take-append_length, drop-append_length,
  take-drop, Bool-cases, arith,
}
use mathlib.Core.List.{append_assoc}
use user_mode_nixos.Arpyc.Frames.{
  pack_header, send, read_exactly, unpack_header, recv, Written, write,
}

-- The number that the four bytes stand for.
unpack-pack :
    (n : ℕ)
    → n < 2 ^ 32
    → (((n / 2 ^ 24) * 2 ^ 24 + ((n / 2 ^ 16) % 256) * 2 ^ 16) + ((n / 2 ^ 8) % 256) * 2 ^ 8)
        + n % 256
      ≡ n
unpack-pack n h = omega arith

-- The header of a frame whose payload has `n` bytes.
abbrev header : ℕ → Bytes
header n = n / 2 ^ 24 ∷ (n / 2 ^ 16) % 256 ∷ (n / 2 ^ 8) % 256 ∷ n % 256 ∷ 0 ∷ []

pack_header-eq : (n : ℕ) → n < 2 ^ 32 → pack_header n ≡ some (header n)
unfolding pack_header
pack_header-eq n h = ground arith

unpack_header-header : (n : ℕ) → n < 2 ^ 32 → unpack_header (header n) ≡ some (n, false)
unpack_header-header n h = ap (λ k. some (k, false)) (unpack-pack n h)

read_exactly-append :
    (front rest : Bytes) (n : ℕ)
    → n ≡ length front
    → read_exactly n (front ++ rest) ≡ some (front, rest)
unfolding read_exactly
read_exactly-append front rest n h =
    let enough : leb n (length (front ++ rest)) ≡ true = ground (arith, length-append front rest) in
    rw (enough, take-append_length front rest n h, drop-append_length front rest n h) refl

recv-header :
    (decompress : Bytes → Bytes) (payload rest : Bytes)
    → length payload < 2 ^ 32
    → recv decompress (header (length payload) ++ ((payload ++ 10 ∷ []) ++ rest))
      ≡ some (payload, rest)
unfolding recv
recv-header decompress payload rest h =
    let n = length payload in
    let body = payload ++ 10 ∷ [] in
    let size : n + 1 ≡ length body = omega (arith, length-append payload (10 ∷ [])) in
    ground (
      arith,
      read_exactly-append (header n) (body ++ rest) 5 refl,
      unpack_header-header n h,
      read_exactly-append body rest (n + 1) size,
      take-append_length payload (10 ∷ []) n refl,
    )

-- What is sent as a frame is received as it was, whatever follows it, if its length fits in four
-- bytes.
pub frame_roundtrip :
    (decompress : Bytes → Bytes) (payload rest : Bytes)
    → length payload < 2 ^ 32
    → (frame : Bytes) × (send payload ≡ some frame)
      × (recv decompress (frame ++ rest) ≡ some (payload, rest))
unfolding send
frame_roundtrip decompress payload rest h = (
  header (length payload) ++ (payload ++ 10 ∷ []),
  rw (pack_header-eq (length payload) h) refl,
  recv-header decompress payload rest h,
)

-- Whatever pieces the kernel takes, what `write` has written is the front of the bytes, and all of
-- them where it is done.
pub write_whole :
    (counts : List ℕ) (bytes : Bytes)
    → (rest : Bytes) × ((write counts bytes).0 ++ rest ≡ bytes)
      × ((write counts bytes).1 ≡ Written.done → rest ≡ [])
unfolding write
write_whole [] [] = ([], refl, λ _. refl)
write_whole [] (b ∷ bs) = (b ∷ bs, refl, λ h. cc)
write_whole (n ∷ ns) [] = ([], refl, λ _. refl)
write_whole (n ∷ ns) (b ∷ bs) = elim (Bool-cases (nat_eq n 0)) [
  | inl stuck ↦ rw stuck (b ∷ bs, refl, λ h. cc)
  | inr took ↦
      let (rest, e, all) = write_whole ns (drop n (b ∷ bs)) in
      rw took (
        rest,
        append_assoc (take n (b ∷ bs)) (write ns (drop n (b ∷ bs))).0 rest
            ∙ (ap (λ r. take n (b ∷ bs) ++ r) e ∙ take-drop n (b ∷ bs)),
        all,
      )
]
