-- ===== src/Forward/Specs.antt =====
-- `resolve`, `probe`, `to_args` and `reachable` of pkgs/uml-runner/uml_runner/forward.py.
use user_mode_nixos.Prelude.{
  ℕ, ◌+◌, ◌-◌, String, Bool, true, false, ◌&&◌, Option, none, some, List, [], ◌∷◌, ◌++◌, map, ◌==◌,
  ◌>>=◌, if◌then◌else◌, ltb, leb, nat_eq, filter, concat, join, show,
}
use user_mode_nixos.Spec.{is_none}
use user_mode_nixos.Forward.{
  PortMap, port_text, Ports, Rule, host_ports, remap, probe_ports, assign, Result,
}

-- `rule.address` in a text
abbrev pub address_text : Option String → String
address_text none = "None"
address_text (some a) = a

-- `replace(rule, address=address) if rule.address is None else rule`
abbrev pub give_address : String → Rule → Rule
give_address address rule =
    if is_none rule.address then record rule { address = some address } else rule

-- `rule.wide or rule.ports`
abbrev pub serves : Ports → Bool
serves (Ports.only []) = false
serves _ = true

-- The second loop of `resolve`.
unfoldable pub remap_all : ℕ → List Rule → List Rule × List String
unfolding remap concat
remap_all start [] = ([], [])
remap_all start (r ∷ rs) =
    let (rule, said) = remap r start in
    let (rules, notes) = remap_all start rs in
    let told = map (λ note. concat (address_text rule.address ∷ ": " ∷ note ∷ [])) said in
    (if serves rule.ports then rule ∷ rules else rules, told ++ notes)

-- What `resolve` gives back, and `taken` as it leaves it.
pub record Resolved : Type 0 where
  pub rules : List Rule
  pub notes : List String
  pub taken : List String

abbrev pub settled : ℕ → List Rule → List String → Resolved
unfolding remap_all
settled start rules taken = record {
  rules = (remap_all start rules).0;
  notes = (remap_all start rules).1;
  taken = taken;
}

unfoldable pub placed : ℕ → List Rule → List String → Result String → Result Resolved
unfolding remap_all
placed start rules taken (Result.ok address) =
    Result.ok (settled start (map (give_address address) rules) (address ∷ taken))
placed start rules taken (Result.forward_error error) = Result.forward_error error

-- `resolve`, with the rules that have no address last.
unfoldable pub resolve_for :
    (String → ℕ → Bool) → ℕ → List Rule → List String → List Rule → Result Resolved
unfolding remap_all assign placed
resolve_for binds start rules taken [] = Result.ok (settled start rules taken)
resolve_for binds start rules taken (r ∷ rs) =
    placed start rules taken (assign binds (r ∷ rs) taken)

-- `resolve`
unfoldable pub resolve : (String → ℕ → Bool) → ℕ → List Rule → List String → Result Resolved
unfolding resolve_for
resolve binds start rules taken =
    resolve_for binds start rules taken (filter (λ r. is_none r.address) rules)

-- What `probe` finds in the way: the address and the port.
unfoldable pub probe : (String → ℕ → Bool) → List Rule → Option (String × ℕ)
unfolding probe_ports host_ports
probe binds [] = none
probe binds (r ∷ rs) =
    let rest = probe binds rs in
    let address = address_text r.address in
    elim (probe_ports binds address (host_ports r.ports)) [
      | none ↦ rest
      | some port ↦ some (address, port)
    ]

-- One item of a port spec: a port map, an excluded range, or a range of host ports that reaches the
-- guest ports from 1 on.
pub data Item : Type 0 where
  one : PortMap → Item
  except : ℕ → ℕ → Item
  moved : ℕ → ℕ → ℕ → Item

pub record PortSpec : Type 0 where
  pub address : Option String
  pub items : List Item

item_text : Item → String
unfolding port_text show concat
item_text (Item.one p) = port_text p
item_text (Item.except low high) = concat ("~" ∷ show low ∷ "-" ∷ show high ∷ [])
item_text (Item.moved first last upto) =
    concat (show first ∷ "-" ∷ show last ∷ ":1-" ∷ show upto ∷ [])

unfoldable spec_text : PortSpec → String
unfolding concat join item_text
spec_text s = concat (address_text s.address ∷ "/" ∷ join "," (map item_text s.items) ∷ [])

-- A port behind those with the same host port: the sort is stable.
abbrev pub insert_sorted : PortMap → List PortMap → List PortMap
insert_sorted p [] = p ∷ []
insert_sorted p (q ∷ qs) = if leb p.host q.host then p ∷ (q ∷ qs) else q ∷ insert_sorted p qs

abbrev pub sort : List PortMap → List PortMap
sort [] = []
sort (p ∷ ps) = insert_sorted p (sort ps)

wide_specs : Rule → ℕ → ℕ × ℕ → List PortSpec
wide_specs rule start (low, high) =
    let first = rule.privileged_offset + 1 in
    let last = (rule.privileged_offset + start) - 1 in
    let plain : PortSpec = record { address = rule.address; items = Item.except low high ∷ [] } in
    let excluded : PortSpec = record {
      address = rule.address;
      items = Item.except low high ∷ Item.except first last ∷ [];
    } in
    let remapped : PortSpec = record {
      address = rule.address;
      items = Item.moved first last (start - 1) ∷ [];
    } in
    if ltb 1 start && rule.remap_privileged then excluded ∷ remapped ∷ [] else plain ∷ []

specs_of : Rule → ℕ → ℕ × ℕ → Ports → List PortSpec
unfolding wide_specs
specs_of rule start ephemeral Ports.every = wide_specs rule start ephemeral
specs_of rule start ephemeral (Ports.only ports) =
    (record { address = rule.address; items = map (λ p. Item.one p) (sort ports) }) ∷ []

-- `_specs`, before they are written out.
unfoldable pub specs : Rule → ℕ → ℕ × ℕ → List PortSpec
unfolding specs_of
specs rule start ephemeral = specs_of rule start ephemeral rule.ports

-- `flags[protocol]`, none where the code raises `KeyError`.
abbrev flag : String → Option String
flag protocol =
    if protocol == "tcp"
    then some "--tcp-ports"
    else if protocol == "udp"
    then some "--udp-ports"
    else none

-- The arguments of one spec, in front of those that follow.
spec_args : List String → PortSpec → List String → Option (List String)
unfolding spec_text
spec_args [] s later = some later
spec_args (p ∷ ps) s later =
    let rest = spec_args ps s later in
    do name ← flag p; more ← rest; some (name ∷ spec_text s ∷ more)

rule_args : List String → List PortSpec → List String → Option (List String)
unfolding spec_args
rule_args protocols [] later = some later
rule_args protocols (s ∷ ss) later =
    let rest = rule_args protocols ss later in do more ← rest; spec_args protocols s more

-- `to_args`
unfoldable pub to_args : List Rule → ℕ → ℕ × ℕ → Option (List String)
unfolding specs rule_args
to_args [] start ephemeral = some []
to_args (r ∷ rs) start ephemeral =
    let rest = to_args rs start ephemeral in
    do later ← rest; rule_args r.protocols (specs r start ephemeral) later

-- What one rule adds to `found` in `reachable`: the address and the host port.
unfoldable pub reach_wide : Rule → ℕ → ℕ → ℕ × ℕ → List ℕ
reach_wide rule guest_port start (low, high) =
    if leb low guest_port && leb guest_port high
    then []
    else if leb start guest_port
    then guest_port ∷ []
    else if rule.remap_privileged
    then (guest_port + rule.privileged_offset) ∷ []
    else []

unfoldable pub reach_ports : Rule → ℕ → ℕ → ℕ × ℕ → Ports → List ℕ
unfolding reach_wide
reach_ports rule guest_port start ephemeral Ports.every = reach_wide rule guest_port start ephemeral
reach_ports rule guest_port start ephemeral (Ports.only ports) =
    map (λ p. p.host) (filter (λ p. nat_eq p.guest guest_port) ports)

-- `reachable`
unfoldable pub reachable : List Rule → ℕ → ℕ → ℕ × ℕ → List String
unfolding reach_ports concat show
reachable [] guest_port start ephemeral = []
reachable (r ∷ rs) guest_port start ephemeral =
    map (λ port. concat (address_text r.address ∷ ":" ∷ show port ∷ []))
      (reach_ports r guest_port start ephemeral r.ports)
    ++ reachable rs guest_port start ephemeral
