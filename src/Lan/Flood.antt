-- ===== src/Lan/Flood.antt =====
-- What becomes of the frames of a segment.
use user_mode_nixos.Prelude.{
  Bytes, ℕ, zero, suc, ◌+◌, ◌*◌, ◌≤◌, Bool, false, List, [], ◌∷◌, nat_eq, length, length-append,
  any, any-append, ◌≡◌, refl, ◌∙◌, inl, inr, Bool-cases, arith,
}
use user_mode_nixos.Lan.{Lan, Received, burst, others, copy, flood_loop, flood}

abbrev pub to_port : ℕ → ℕ × Bytes → Bool
to_port port (dst, _) = nat_eq dst port

copy-total :
    (takes : ℕ → Bytes → Bool) (f : Bytes) (rest : List ℕ)
    → length (copy takes f rest).0 + (copy takes f rest).1 ≡ length rest
unfolding copy
copy-total takes f [] = refl
copy-total takes f (d ∷ rest) = ground (arith, copy-total takes f rest)

copy-others :
    (takes : ℕ → Bytes → Bool) (f : Bytes) (src : ℕ) (ports : List ℕ)
    → any (to_port src) (copy takes f (others src ports)).0 ≡ false
unfolding copy others
copy-others takes f src [] = refl
copy-others takes f src (p ∷ ports) = elim (Bool-cases (nat_eq p src)) [
  | inl e ↦ rw e (copy-others takes f src ports)
  | inr e ↦ rw e (ground (arith, copy-others takes f src ports))
]

flood_loop-total :
    (takes : ℕ → Bytes → Bool) (rest : List ℕ) (n : ℕ) (reads : List Received)
    → let done = flood_loop takes rest n reads in
      (length done.delivered + done.dropped ≡ done.frames * length rest) × (done.frames ≤ n)
unfolding flood_loop
flood_loop-total takes rest zero reads = (omega arith, omega arith)
flood_loop-total takes rest (suc n) [] = (omega arith, omega arith)
flood_loop-total takes rest (suc n) (Received.blocked ∷ reads) = (omega arith, omega arith)
flood_loop-total takes rest (suc n) (Received.ended ∷ reads) = (omega arith, omega arith)
flood_loop-total takes rest (suc n) (Received.frame f ∷ reads) =
    let later = flood_loop takes rest n reads in
    let ih = flood_loop-total takes rest n reads in
    let here = copy takes f rest in
    (
      omega (arith, length-append here.0 later.delivered, copy-total takes f rest, ih.0),
      omega (arith, ih.1),
    )

flood_loop-others :
    (takes : ℕ → Bytes → Bool) (src : ℕ) (ports : List ℕ) (n : ℕ) (reads : List Received)
    → any (to_port src) (flood_loop takes (others src ports) n reads).delivered ≡ false
unfolding flood_loop
flood_loop-others takes src ports zero reads = refl
flood_loop-others takes src ports (suc n) [] = refl
flood_loop-others takes src ports (suc n) (Received.blocked ∷ reads) = refl
flood_loop-others takes src ports (suc n) (Received.ended ∷ reads) = refl
flood_loop-others takes src ports (suc n) (Received.frame f ∷ reads) =
    let here = (copy takes f (others src ports)).0 in
    let later = (flood_loop takes (others src ports) n reads).delivered in
    any-append (to_port src) here later
    ∙ ground (arith, copy-others takes f src ports, flood_loop-others takes src ports n reads)

-- Whatever is read from a port and whatever the others take, a callback reads at most 64 frames,
-- sends none back to the port it came from, and of the copies that the other ports should get each
-- is sent or counted as dropped.
pub flood_accounts :
    (takes : ℕ → Bytes → Bool) (src : ℕ) (reads : List Received) (l : Lan)
    → let r = flood takes src reads l in
      (any (to_port src) r.1 ≡ false)
      × ((frames : ℕ) × (frames ≤ burst)
          × (length r.1 + r.0.dropped ≡ l.dropped + frames * length (others src l.ports)))
unfolding flood
flood_accounts takes src reads l =
    let rest = others src l.ports in
    let (sum, few) = flood_loop-total takes rest burst reads in
    (
      flood_loop-others takes src l.ports burst reads,
      ((flood_loop takes rest burst reads).frames, few, omega (arith, sum)),
    )
