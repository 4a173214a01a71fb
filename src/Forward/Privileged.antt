-- ===== src/Forward/Privileged.antt =====
-- What `_remap` keeps of a rule, and when `resolve` finds an address.
use user_mode_nixos.Prelude.{
  ℕ, ◌+◌, ◌≤◌, ◌<◌, ◌≡◌, refl, ◌⊎◌, inl, inr, true, List, [], ◌∷◌, Memᴰ, leb, Bool-cases, arith,
  leb→le,
}
use mathlib.Core.List.Memᴰ
use user_mode_nixos.Forward.{PortMap, Rule, remap_ports}

-- A port map that a rule keeps: the asked one where the host binds it, and otherwise the one moved
-- up by the offset, if the rule moves.
abbrev pub Moved : Rule → ℕ → PortMap → PortMap → Type 0
Moved rule start p q =
    (p.guest ≡ q.guest)
    × (((start ≤ p.host) × (q.host ≡ p.host))
        ⊎ ((p.host < start)
            × (rule.remap_privileged ≡ true)
            × (q.host ≡ p.host + rule.privileged_offset)))

-- Each port that a rule keeps is one that was asked for, on its own host port where that needs no
-- privilege and moved up by the offset where it does, and reaches the guest port that was asked.
pub remap_ports_sound :
    (rule : Rule) (start : ℕ) (ports : List PortMap) (q : PortMap)
    → Memᴰ q (remap_ports rule start ports).0
    → (p : PortMap) × Memᴰ p ports × Moved rule start p q
unfolding remap_ports
remap_ports_sound rule start [] q m = elim m [ ]
remap_ports_sound rule start (p ∷ ps) q m =
    let moved : PortMap = record { host = p.host + rule.privileged_offset; guest = p.guest } in
    let later : Memᴰ q (remap_ports rule start ps).0
        → (r : PortMap) × Memᴰ r (p ∷ ps) × Moved rule start r q =
      λ k. let (r, n, kept) = remap_ports_sound rule start ps q k in (r, Memᴰ.tail n, kept) in
    elim (Bool-cases (leb start p.host)) [
      | inl free ↦
          let k : Memᴰ q (p ∷ (remap_ports rule start ps).0) = rw free at m in
          elim (Memᴰ.cases_cons k) [
            | inl e ↦ (p, Memᴰ.head refl, (rw e refl, inl (leb→le start p.host free, rw e refl)))
            | inr n ↦ later n
          ]
      | inr low ↦ elim (Bool-cases rule.remap_privileged) [
        | inl on ↦
            let k : Memᴰ q (moved ∷ (remap_ports rule start ps).0) = rw (low, on) at m in
            elim (Memᴰ.cases_cons k) [
              | inl e ↦ (p, Memᴰ.head refl, (rw e refl, inr (ground arith, on, rw e refl)))
              | inr n ↦ later n
            ]
        | inr off ↦ later (let k : Memᴰ q (remap_ports rule start ps).0 = rw (low, off) at m in k)
      ]
    ]

-- A port asked for is kept unless it needs privilege and the rule does not move.
pub remap_ports_complete :
    (rule : Rule) (start : ℕ) (ports : List PortMap) (p : PortMap)
    → Memᴰ p ports
    → (start ≤ p.host) ⊎ (rule.remap_privileged ≡ true)
    → (q : PortMap) × Memᴰ q (remap_ports rule start ports).0 × Moved rule start p q
unfolding remap_ports
remap_ports_complete rule start (p ∷ ps) r (Memᴰ.head e) h = elim (Bool-cases (leb start p.host)) [
  | inl free ↦
      (p, rw free (Memᴰ.head refl), (rw e refl, inl (rw e (leb→le start p.host free), rw e refl)))
  | inr low ↦
      let on : rule.remap_privileged ≡ true = elim h [
        | inl free ↦ (let f : start ≤ p.host = rw e at free in ground arith)
        | inr on ↦ on
      ] in
      (
        record { host = p.host + rule.privileged_offset; guest = p.guest },
        rw (low, on) (Memᴰ.head refl),
        (rw e refl, inr (rw e (ground arith), on, rw e refl)),
      )
]
remap_ports_complete rule start (p ∷ ps) r (Memᴰ.tail m) h =
    let (q, k, moved) = remap_ports_complete rule start ps r m h in
    elim (Bool-cases (leb start p.host)) [
      | inl free ↦ (q, rw free (Memᴰ.tail k), moved)
      | inr low ↦ elim (Bool-cases rule.remap_privileged) [
        | inl on ↦ (q, rw (low, on) (Memᴰ.tail k), moved)
        | inr off ↦ (q, rw (low, off) k, moved)
      ]
    ]
remap_ports_complete rule start [] r m h = elim m [ ]
