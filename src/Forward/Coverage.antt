-- ===== src/Forward/Coverage.antt =====
-- What the port specs of a rule forward, against what `reachable` tells.
use user_mode_nixos.Prelude.{
  ℕ, ◌+◌, ◌-◌, ◌≤◌, ◌<◌, ◌≡◌, refl, ◌⊎◌, inl, inr, Bool, true, false, not, ◌&&◌, List, [], ◌∷◌, map,
  Memᴰ, if◌then◌else◌, leb, nat_eq, Bool-cases, any, all, filter, arith, any-eq-true, any_of, subst,
  sym, ◌∙◌, ◌↔◌,
}
use user_mode_nixos.Forward.{PortMap, Ports, Rule}
use user_mode_nixos.Forward.Specs.{
  Item, PortSpec, specs, insert_sorted, sort, reach_wide, reach_ports, serves,
}

abbrev is_except : Item → Bool
is_except (Item.except _ _) = true
is_except _ = false

abbrev excludes : ℕ → Item → Bool
excludes port (Item.except low high) = leb low port && leb port high
excludes port _ = false

abbrev maps : ℕ → ℕ → Item → Bool
maps host guest (Item.one p) = nat_eq host p.host && nat_eq guest p.guest
maps host guest (Item.except _ _) = false
maps host guest (Item.moved first last _) =
    (leb first host && leb host last) && nat_eq (guest + first) (host + 1)

-- What a port spec denotes: exclusions alone stand for every other port, each reaching itself.
abbrev pub carries : ℕ → ℕ → PortSpec → Bool
carries host guest s =
    if all is_except s.items
    then nat_eq host guest && not (any (excludes host) s.items)
    else any (maps host guest) s.items

-- Some spec of the rule carries the host port to the guest port.
abbrev pub forwards : Rule → ℕ → ℕ × ℕ → ℕ → ℕ → Bool
forwards rule start ephemeral host guest = any (carries host guest) (specs rule start ephemeral)

-- The guest port has the number of a host port that stands for a privileged one.
abbrev pub IsShadowed : Rule → ℕ → ℕ → Type 0
IsShadowed rule start port =
    (rule.ports ≡ Ports.every)
    × (rule.remap_privileged ≡ true)
    × (rule.privileged_offset < port)
    × (port < rule.privileged_offset + start)
    × (start ≤ port)

-- Of a rule for every port that moves the privileged ones, `reachable` says of a guest port whose
-- number lies among the moved host ports that it is reached there; what is reached there is another
-- guest port, and nothing forwards this one.
pub reachable_shadowed :
    (rule : Rule) (start low high port : ℕ)
    → IsShadowed rule start port
    → (port < low) ⊎ (high < port)
    → (reach_ports rule port start (low, high) rule.ports ≡ port ∷ [])
      × (forwards rule start (low, high) port port ≡ false)
      × (forwards rule start (low, high) port (port - rule.privileged_offset) ≡ true)
unfolding specs reach_ports
reachable_shadowed rule start low high port (e, on, above, below, free) h =
    rw (e, on) (ground arith, ground arith, ground arith)

-- `host in ports`
abbrev among : ℕ → List ℕ → Bool
among host = any (λ p. nat_eq host p)

wide_sound :
    (rule : Rule) (start low high host port : ℕ)
    → rule.ports ≡ Ports.every
    → (IsShadowed rule start port → ⊥)
    → 0 < port
    → among host (reach_wide rule port start (low, high)) ≡ true
    → forwards rule start (low, high) host port ≡ true
unfolding specs reach_wide
wide_sound rule start low high host port e plain positive m =
    elim (Bool-cases rule.remap_privileged) [
      | inl on ↦
          let clear =
            λ (a : rule.privileged_offset < port) (b : port < rule.privileged_offset + start)
                (c : start ≤ port).
              plain (e, on, a, b, c) in
          rw e (ground (arith, clear))
      | inr off ↦ rw e (ground arith)
    ]

wide_complete :
    (rule : Rule) (start low high host port : ℕ)
    → rule.ports ≡ Ports.every
    → start ≤ low
    → start ≤ host
    → forwards rule start (low, high) host port ≡ true
    → among host (reach_wide rule port start (low, high)) ≡ true
unfolding specs reach_wide
wide_complete rule start low high host port e order free h = let k = rw e at h in ground arith

-- A port map of the list leads from the host port to the guest port.
abbrev listed : ℕ → ℕ → List PortMap → Bool
listed host guest = any (λ p. nat_eq host p.host && nat_eq guest p.guest)

listed-insert_sorted :
    (host guest : ℕ) (p : PortMap) (ps : List PortMap)
    → listed host guest (insert_sorted p ps) ≡ listed host guest (p ∷ ps)
listed-insert_sorted host guest p [] = refl
listed-insert_sorted host guest p (q ∷ qs) = ground (arith, listed-insert_sorted host guest p qs)

listed-sort :
    (host guest : ℕ) (ps : List PortMap) → listed host guest (sort ps) ≡ listed host guest ps
listed-sort host guest [] = refl
listed-sort host guest (p ∷ ps) =
    ground (arith, listed-insert_sorted host guest p (sort ps), listed-sort host guest ps)

listed-items :
    (host guest : ℕ) (ps : List PortMap)
    → any (maps host guest) (map (λ p. Item.one p) ps) ≡ listed host guest ps
listed-items host guest [] = refl
listed-items host guest (p ∷ ps) = ground (arith, listed-items host guest ps)

among-only :
    (host guest : ℕ) (ps : List PortMap)
    → among host (map (λ p. p.host) (filter (λ p. nat_eq p.guest guest) ps)) ≡ listed host guest ps
among-only host guest [] = refl
among-only host guest (p ∷ ps) = ground (arith, among-only host guest ps)

not_except :
    (p : PortMap) (ps : List PortMap)
    → all is_except (map (λ q. Item.one q) (insert_sorted p ps)) ≡ false
not_except p [] = refl
not_except p (q ∷ qs) = ground arith

only_forwards :
    (rule : Rule) (start : ℕ) (ephemeral : ℕ × ℕ) (host guest : ℕ) (p : PortMap) (ps : List PortMap)
    → rule.ports ≡ Ports.only (p ∷ ps)
    → forwards rule start ephemeral host guest ≡ listed host guest (p ∷ ps)
unfolding specs
only_forwards rule start ephemeral host guest p ps e =
    rw
      (
        e,
        not_except p (sort ps),
        listed-items host guest (insert_sorted p (sort ps)),
        listed-insert_sorted host guest p (sort ps),
      )
      (ground (arith, listed-sort host guest ps))

among_mem : (host : ℕ) (ports : List ℕ) → (among host ports ≡ true) ↔ Memᴰ host ports
among_mem host ports = (
  λ h.
      let (p, m, e) = any-eq-true (λ p. nat_eq host p) ports h in
      let same : p ≡ host = ground arith in subst (λ q. Memᴰ q ports) same m,
  λ m. any_of (λ p. nat_eq host p) ports m (ground arith),
)

-- For a rule that serves some port, a host port that needs no privilege is forwarded to a guest port
-- exactly when `reachable` lists it, unless the number of the guest port is that of a moved host
-- port. The host's ephemeral ports are taken to lie above the privileged ones.
pub reachable_exact :
    (rule : Rule) (start low high host port : ℕ)
    → serves rule.ports ≡ true
    → start ≤ low
    → start ≤ host
    → 0 < port
    → (IsShadowed rule start port → ⊥)
    → (forwards rule start (low, high) host port ≡ true)
      ↔ Memᴰ host (reach_ports rule port start (low, high) rule.ports)
unfolding reach_ports
reachable_exact rule start low high host port some_port order free positive plain =
    go rule.ports refl
  where
    go :
        (ports : Ports)
        → rule.ports ≡ ports
        → (forwards rule start (low, high) host port ≡ true)
          ↔ Memᴰ host (reach_ports rule port start (low, high) ports)
    go Ports.every e =
        let (to, from) = among_mem host (reach_wide rule port start (low, high)) in
        (
          λ h. to (wide_complete rule start low high host port e order free h),
          λ m. wide_sound rule start low high host port e plain positive (from m),
        )
    go (Ports.only []) e = let k : false ≡ true = rw e at some_port in cc
    go (Ports.only (p ∷ ps)) e =
        let (to, from) =
          among_mem host (reach_ports rule port start (low, high) (Ports.only (p ∷ ps))) in
        let same =
          only_forwards rule start (low, high) host port p ps e
          ∙ sym (among-only host port (p ∷ ps)) in
        (λ h. to (sym same ∙ h), λ m. same ∙ from m)
