-- ===== src/Forward.antt =====
-- pkgs/uml-runner/uml_runner/forward.py: port forwards as arguments of the bridge.
-- Whether an address and a port can be bound is a parameter, as are the host's two port limits.
pub mod Specs
pub mod Privileged
pub mod Assign
pub mod Coverage
use user_mode_nixos.Prelude.{
  ℕ, zero, suc, ◌+◌, ◌-◌, String, Bool, true, false, not, ◌&&◌, Option, none, some, List, [], ◌∷◌,
  ◌++◌, map, if◌then◌else◌, ltb, leb, nat_eq, elem, concat, join, show,
}
use user_mode_nixos.Spec.{is_none}

-- `PortMap`
pub record PortMap : Type 0 where
  pub host : ℕ
  pub guest : ℕ

-- `PortMap.__str__`
unfoldable pub port_text : PortMap → String
unfolding show concat
port_text p =
    if nat_eq p.host p.guest then show p.host else concat (show p.host ∷ ":" ∷ show p.guest ∷ [])

-- `Rule.ports`: `ALL`, or the ports.
pub data Ports : Type 0 where
  every : Ports
  only : List PortMap → Ports

-- `Rule`
pub record Rule : Type 0 where
  pub address : Option String
  pub ports : Ports
  pub protocols : List String
  pub remap_privileged : Bool
  pub privileged_offset : ℕ

-- `Rule.wide`
abbrev pub wide : Ports → Bool
wide Ports.every = true
wide (Ports.only _) = false

abbrev pub sentinel_port : ℕ
sentinel_port = 65534

-- `Rule.host_ports`
unfoldable pub host_ports : Ports → List ℕ
host_ports Ports.every = sentinel_port ∷ []
host_ports (Ports.only ports) = map (λ p. p.host) ports

-- What is said of a port that is moved to `host`, and of one that is given up.
unfoldable pub moved_note : PortMap → ℕ → String
unfolding concat show
moved_note p host = concat (
    "host port "
    ∷ show p.host
    ∷ " needs privileges we do not have; forwarding "
    ∷ show host
    ∷ " -> guest "
    ∷ show p.guest
    ∷ " instead"
    ∷ [])

unfoldable pub lost_note : PortMap → String
unfolding concat show
lost_note p = concat (
    "host port "
    ∷ show p.host
    ∷ " needs privileges we do not have and remapPrivileged is off; guest "
    ∷ show p.guest
    ∷ " is unreachable"
    ∷ [])

-- The loop of `_remap` over the ports of a rule that names them.
unfoldable pub remap_ports : Rule → ℕ → List PortMap → List PortMap × List String
remap_ports rule start [] = ([], [])
remap_ports rule start (p ∷ ps) =
    let rest = remap_ports rule start ps in
    let host = p.host + rule.privileged_offset in
    if leb start p.host
    then (p ∷ rest.0, rest.1)
    else if rule.remap_privileged
    then (record { host = host; guest = p.guest } ∷ rest.0, moved_note p host ∷ rest.1)
    else (rest.0, lost_note p ∷ rest.1)

unfoldable pub wide_notes : Rule → ℕ → List String
unfolding concat show
wide_notes rule start =
    let offset = rule.privileged_offset in
    let off =
      concat ("ports below " ∷ show start ∷ " are not forwarded (remapPrivileged is off)" ∷ []) in
    let moved = concat (
      "ports 1-"
      ∷ show (start - 1)
      ∷ " need privileges the host will not give us; reaching them on "
      ∷ show (offset + 1)
      ∷ "-"
      ∷ show ((offset + start) - 1)
      ∷ " instead"
      ∷ []) in
    if not rule.remap_privileged then off ∷ [] else moved ∷ []

remap_kind : Rule → ℕ → Ports → Rule × List String
unfolding remap_ports
remap_kind rule start Ports.every = (rule, wide_notes rule start)
remap_kind rule start (Ports.only ports) =
    let (kept, notes) = remap_ports rule start ports in
    (record rule { ports = Ports.only kept }, notes)

-- `_remap`
unfoldable pub remap : Rule → ℕ → Rule × List String
unfolding remap_kind
remap rule start = if leb start 1 then (rule, []) else remap_kind rule start rule.ports

-- `_probe`: the first port that does not bind. A probe binds each port once, so the ports it still
-- holds do not stand in the way of the later ones.
unfoldable pub probe_ports : (String → ℕ → Bool) → String → List ℕ → Option ℕ
probe_ports binds address [] = none
probe_ports binds address (p ∷ ps) =
    if binds address p then probe_ports binds address ps else some p

-- A port in a sorted list without repetition.
unfoldable pub insert_port : ℕ → List ℕ → List ℕ
insert_port p [] = p ∷ []
insert_port p (q ∷ qs) =
    let rest = insert_port p qs in
    if ltb p q then p ∷ (q ∷ qs) else if nat_eq p q then q ∷ qs else q ∷ rest

unfoldable pub insert_ports : List ℕ → List ℕ → List ℕ
unfolding insert_port
insert_ports [] sorted = sorted
insert_ports (p ∷ ps) sorted = insert_port p (insert_ports ps sorted)

-- `sorted({port for rule in rules for port in rule.host_ports()})`
unfoldable pub wanted_ports : List Rule → List ℕ
unfolding insert_ports host_ports
wanted_ports [] = []
wanted_ports (r ∷ rs) = insert_ports (host_ports r.ports) (wanted_ports rs)

-- `127.0.0.{octet}`
unfoldable pub loopback : ℕ → String
unfolding concat show
loopback octet = concat ("127.0.0." ∷ show octet ∷ [])

-- The loop of `_assign`, with the octets left.
unfoldable pub assign_loop : (String → ℕ → Bool) → List String → List ℕ → ℕ → ℕ → Option String
unfolding probe_ports
assign_loop binds taken wanted octet zero = none
assign_loop binds taken wanted octet (suc left) =
    let address = loopback octet in
    let later = assign_loop binds taken wanted (suc octet) left in
    if elem address taken
    then later
    else if is_none (probe_ports binds address wanted)
    then some address
    else later

-- `ForwardError`, or an answer.
pub data Result {ℓ} (A : Type ℓ) : Type ℓ where
  ok : A → Result A
  forward_error : String → Result A

-- The message where no address serves.
unfoldable pub no_address : List ℕ → String
unfolding concat join show
no_address wanted =
    concat ("no free address in 127.0.0.2-254 for ports " ∷ join ", " (map show wanted) ∷ [])

-- `_assign`, over the octets 2 to 254.
unfoldable pub assign : (String → ℕ → Bool) → List Rule → List String → Result String
unfolding assign_loop wanted_ports
assign binds rules taken = elim (assign_loop binds taken (wanted_ports rules) 2 253) [
  | some address ↦ Result.ok address
  | none ↦ Result.forward_error (no_address (wanted_ports rules))
]
