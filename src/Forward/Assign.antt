-- ===== src/Forward/Assign.antt =====
-- The address that `_assign` finds, and what keeps it from finding one.
use user_mode_nixos.Prelude.{
  ℕ, zero, suc, ◌<◌, String, ◌≡◌, refl, inl, inr, Bool, true, false, none, some, List, [], ◌∷◌,
  Memᴰ, ltb, nat_eq, Bool-cases, Option-cases, elem, arith, filter, mem-filter_of,
}
use mathlib.Core.List.Memᴰ
use user_mode_nixos.Spec.{is_none}
use user_mode_nixos.Forward.{
  Rule, host_ports, probe_ports, wanted_ports, insert_port, insert_ports, assign, assign_loop,
  Result, loopback, no_address,
}
use user_mode_nixos.Forward.Specs.{resolve, resolve_for}

insert_port_new : (p : ℕ) (qs : List ℕ) → Memᴰ p (insert_port p qs)
unfolding insert_port
insert_port_new p [] = Memᴰ.head refl
insert_port_new p (q ∷ qs) = elim (Bool-cases (ltb p q)) [
  | inl less ↦ rw less (Memᴰ.head refl)
  | inr more ↦ elim (Bool-cases (nat_eq p q)) [
    | inl same ↦ rw (more, same) (Memᴰ.head (ground arith))
    | inr other ↦ rw (more, other) (Memᴰ.tail (insert_port_new p qs))
  ]
]

insert_port_old : (p r : ℕ) (qs : List ℕ) → Memᴰ r qs → Memᴰ r (insert_port p qs)
unfolding insert_port
insert_port_old p r [] m = elim m [ ]
insert_port_old p r (q ∷ qs) m = elim (Bool-cases (ltb p q)) [
  | inl less ↦ rw less (Memᴰ.tail m)
  | inr more ↦ elim (Bool-cases (nat_eq p q)) [
    | inl same ↦ rw (more, same) m
    | inr other ↦ elim (Memᴰ.cases_cons m) [
      | inl e ↦ rw (more, other) (Memᴰ.head e)
      | inr k ↦ rw (more, other) (Memᴰ.tail (insert_port_old p r qs k))
    ]
  ]
]

insert_ports_new : (r : ℕ) (ps qs : List ℕ) → Memᴰ r ps → Memᴰ r (insert_ports ps qs)
unfolding insert_ports
insert_ports_new r [] qs m = elim m [ ]
insert_ports_new r (p ∷ ps) qs (Memᴰ.head e) = rw e (insert_port_new p (insert_ports ps qs))
insert_ports_new r (p ∷ ps) qs (Memᴰ.tail m) =
    insert_port_old p r (insert_ports ps qs) (insert_ports_new r ps qs m)

insert_ports_old : (r : ℕ) (ps qs : List ℕ) → Memᴰ r qs → Memᴰ r (insert_ports ps qs)
unfolding insert_ports
insert_ports_old r [] qs m = m
insert_ports_old r (p ∷ ps) qs m =
    insert_port_old p r (insert_ports ps qs) (insert_ports_old r ps qs m)

-- Each port of each rule is among those that are probed.
wanted_ports_of :
    (rules : List Rule) (rule : Rule) (port : ℕ)
    → Memᴰ rule rules
    → Memᴰ port (host_ports rule.ports)
    → Memᴰ port (wanted_ports rules)
unfolding wanted_ports
wanted_ports_of [] rule port m k = elim m [ ]
wanted_ports_of (r ∷ rs) rule port (Memᴰ.head e) k =
    insert_ports_new port (host_ports r.ports) (wanted_ports rs)
      (let n : Memᴰ port (host_ports r.ports) = rw e at k in n)
wanted_ports_of (r ∷ rs) rule port (Memᴰ.tail m) k =
    insert_ports_old port (host_ports r.ports) (wanted_ports rs) (wanted_ports_of rs rule port m k)

-- A probe that finds no clash has bound every port.
probe_ports_none :
    (binds : String → ℕ → Bool) (address : String) (ports : List ℕ) (port : ℕ)
    → is_none (probe_ports binds address ports) ≡ true
    → Memᴰ port ports
    → binds address port ≡ true
unfolding probe_ports
probe_ports_none binds address [] port h m = elim m [ ]
probe_ports_none binds address (p ∷ ps) port h (Memᴰ.head e) = rw e (ground arith)
probe_ports_none binds address (p ∷ ps) port h (Memᴰ.tail m) =
    probe_ports_none binds address ps port (ground arith) m

assign_loop_sound :
    (binds : String → ℕ → Bool) (taken : List String) (wanted : List ℕ) (octet left : ℕ)
    {a : String}
    → assign_loop binds taken wanted octet left ≡ some a
    → (elem a taken ≡ false) × (is_none (probe_ports binds a wanted) ≡ true)
unfolding assign_loop
assign_loop_sound binds taken wanted octet zero h = cc
assign_loop_sound binds taken wanted octet (suc left) {a} h =
    elim (Bool-cases (elem (loopback octet) taken)) [
      | inl held ↦
          assign_loop_sound binds taken wanted (suc octet) left
            (let k : assign_loop binds taken wanted (suc octet) left ≡ some a = rw held at h in k)
      | inr free ↦ elim (Bool-cases (is_none (probe_ports binds (loopback octet) wanted))) [
        | inl binding ↦
            let e : loopback octet ≡ a =
              (let k : some (loopback octet) ≡ some a = rw (free, binding) at h in cc) in
            (rw (← e) free, rw (← e) binding)
        | inr clash ↦ assign_loop_sound binds taken wanted (suc octet) left (
            let k : assign_loop binds taken wanted (suc octet) left ≡ some a =
              rw (free, clash) at h in
            k)
      ]
    ]

-- The address that is found is none of those that `resolve` gave out before, and each port of each rule
-- that wants it can be bound there.
pub assign_sound :
    (binds : String → ℕ → Bool) (rules : List Rule) (taken : List String) (a : String)
    → assign binds rules taken ≡ Result.ok a
    → (elem a taken ≡ false)
      × ((rule : Rule) (port : ℕ)
          → Memᴰ rule rules
          → Memᴰ port (host_ports rule.ports)
          → binds a port ≡ true)
unfolding assign
assign_sound binds rules taken a h =
    elim (Option-cases (assign_loop binds taken (wanted_ports rules) 2 253)) [
      | inl absent ↦
          let k : Result.forward_error (no_address (wanted_ports rules)) ≡ Result.ok a =
            rw (absent, assign) at h in
          cc
      | inr (b, found) ↦
          let k : Result.ok b ≡ Result.ok a = rw (found, assign) at h in
          let e : b ≡ a = cc in
          let (free, binding) = assign_loop_sound binds taken (wanted_ports rules) 2 253 found in
          (
            rw (← e) free,
            λ rule port m n. rw (← e) (
                probe_ports_none binds b (wanted_ports rules) port binding
                  (wanted_ports_of rules rule port m n)),
          )
    ]

-- A port that binds nowhere keeps every address from being found.
assign_loop-none :
    (binds : String → ℕ → Bool) (taken : List String) (wanted : List ℕ) (octet left : ℕ)
    → ((a : String) → is_none (probe_ports binds a wanted) ≡ false)
    → assign_loop binds taken wanted octet left ≡ none
unfolding assign_loop
assign_loop-none binds taken wanted octet zero h = refl
assign_loop-none binds taken wanted octet (suc left) h =
    ground (arith, h (loopback octet), assign_loop-none binds taken wanted (suc octet) left h)

blocked_probe :
    (binds : String → ℕ → Bool) (address : String) (ports : List ℕ) (port : ℕ)
    → binds address port ≡ false
    → Memᴰ port ports
    → is_none (probe_ports binds address ports) ≡ false
blocked_probe binds address ports port h m =
    elim (Bool-cases (is_none (probe_ports binds address ports))) [
      | inl binding ↦
          let k : binds address port ≡ true = probe_ports_none binds address ports port binding m in
          cc
      | inr clash ↦ clash
    ]

assign_blocked :
    (binds : String → ℕ → Bool) (rules : List Rule) (taken : List String) (port : ℕ)
    → ((a : String) → binds a port ≡ false)
    → Memᴰ port (wanted_ports rules)
    → assign binds rules taken ≡ Result.forward_error (no_address (wanted_ports rules))
unfolding assign
assign_blocked binds rules taken port h m =
    rw
      (
        assign_loop-none binds taken (wanted_ports rules) 2 253
            (λ a. blocked_probe binds a (wanted_ports rules) port (h a) m),
        assign,
      )
      refl

-- Where no port below `start` can be bound, a rule with no address that names such a port fails to
-- resolve, whether or not it asks for the port to be moved: the address is looked for with the ports
-- as they were before the move.
pub resolve_privileged :
    (binds : String → ℕ → Bool) (start : ℕ) (rules : List Rule) (taken : List String) (rule : Rule)
    (port : ℕ)
    → ((a : String) (p : ℕ) → p < start → binds a p ≡ false)
    → Memᴰ rule rules
    → rule.address ≡ none
    → Memᴰ port (host_ports rule.ports)
    → port < start
    → (error : String) × (resolve binds start rules taken ≡ Result.forward_error error)
unfolding resolve resolve_for
resolve_privileged binds start rules taken rule port h m unaddressed n low =
    go (filter (λ r. is_none r.address) rules)
      (mem-filter_of (λ r. is_none r.address) rules m (rw unaddressed refl))
  where
    go :
        (chosen : List Rule)
        → Memᴰ rule chosen
        → (error : String) × (resolve_for binds start rules taken chosen
            ≡ Result.forward_error error)
    go [] k = elim k [ ]
    go (r ∷ rs) k = (
      no_address (wanted_ports (r ∷ rs)),
      rw
          (assign_blocked binds (r ∷ rs) taken port (λ a. h a port low)
            (wanted_ports_of (r ∷ rs) rule port k n))
          refl,
    )
