-- ===== src/Lan.antt =====
-- pkgs/uml-runner/uml_runner/net.py: an Ethernet segment between guests, as a hub over the host ends
-- of socket pairs. What is read from a port, and whether a port takes a frame, are arguments.
pub mod Flood
use user_mode_nixos.Prelude.{
  Bytes, ℕ, zero, suc, ◌+◌, String, Bool, true, false, not, Option, none, some, List, [], ◌∷◌, ◌++◌,
  if◌then◌else◌, nat_eq, filter, map, Dict, insert, length,
}

-- `Lan`: the guests' ends by name, how many frames were dropped, the ends still held for the guests,
-- the host's ports, and those that are read from. A socket is a number.
pub record Lan : Type 0 where
  pub fds : Dict ℕ
  pub dropped : ℕ
  pub guest_ends : List ℕ
  pub ports : List ℕ
  pub reading : List ℕ

abbrev pub empty_lan : Lan
empty_lan = record { fds = []; dropped = 0; guest_ends = []; ports = []; reading = [] }

-- One member of a segment that needs a hub, of which the pair is `2 * k` and `2 * k + 1`.
unfoldable pub add_member : ℕ → String → Lan → Lan
unfolding insert
add_member host member l = record {
  fds = insert member (suc host) l.fds;
  dropped = l.dropped;
  guest_ends = l.guest_ends ++ (suc host ∷ []);
  ports = l.ports ++ (host ∷ []);
  reading = l.reading;
}

unfoldable pub add_members : ℕ → List String → Lan → Lan
unfolding add_member
add_members next [] l = l
add_members next (m ∷ members) l = add_members (suc (suc next)) members (add_member next m l)

-- `Lan.__init__`; none where it raises. The sockets are numbered from zero.
unfoldable pub new_lan : List String → Option Lan
unfolding add_members insert
new_lan [] = none
new_lan (m ∷ []) =
    some
      (record { fds = (m, 0) ∷ []; dropped = 0; guest_ends = 0 ∷ []; ports = 1 ∷ []; reading = [] })
new_lan (m ∷ n ∷ []) = some (record {
  fds = insert n 1 ((m, 0) ∷ []);
  dropped = 0;
  guest_ends = 0 ∷ 1 ∷ [];
  ports = [];
  reading = [];
})
new_lan (m ∷ n ∷ o ∷ members) = some (add_members 0 (m ∷ n ∷ o ∷ members) empty_lan)

-- `Lan.start`
unfoldable pub start : Lan → Lan
start l = record {
  fds = l.fds;
  dropped = l.dropped;
  guest_ends = l.guest_ends;
  ports = l.ports;
  reading = l.ports;
}

-- The ports that a port's frames go to.
unfoldable pub others : ℕ → List ℕ → List ℕ
others port = filter (λ other. not (nat_eq other port))

-- What a read of a port gives: a frame, nothing for now, or its end, by an error or an empty read.
pub data Received : Type 0 where
  frame : Bytes → Received
  blocked : Received
  ended : Received

-- `_BURST`
abbrev pub burst : ℕ
burst = 64

-- The loop over the other ports: what was sent to which, and how many did not take it.
unfoldable pub copy : (ℕ → Bytes → Bool) → Bytes → List ℕ → List (ℕ × Bytes) × ℕ
copy takes f [] = ([], 0)
copy takes f (dst ∷ rest) =
    let later = copy takes f rest in
    if takes dst f then ((dst, f) ∷ later.0, later.1) else (later.0, suc later.1)

-- What a callback did: what it sent, what it dropped, how many frames it read, and whether the port
-- is read no more.
pub record Flooded : Type 0 where
  pub delivered : List (ℕ × Bytes)
  pub dropped : ℕ
  pub frames : ℕ
  pub over : Bool

-- The loop of `Lan._flood`, for so many frames at most.
unfoldable pub flood_loop : (ℕ → Bytes → Bool) → List ℕ → ℕ → List Received → Flooded
unfolding copy
flood_loop takes rest zero reads = record { delivered = []; dropped = 0; frames = 0; over = false }
flood_loop takes rest (suc n) [] = record { delivered = []; dropped = 0; frames = 0; over = false }
flood_loop takes rest (suc n) (Received.blocked ∷ _) = record {
  delivered = [];
  dropped = 0;
  frames = 0;
  over = false;
}
flood_loop takes rest (suc n) (Received.ended ∷ _) = record {
  delivered = [];
  dropped = 0;
  frames = 0;
  over = true;
}
flood_loop takes rest (suc n) (Received.frame f ∷ reads) =
    let here = copy takes f rest in
    let later = flood_loop takes rest n reads in
    record {
      delivered = here.0 ++ later.delivered;
      dropped = here.1 + later.dropped;
      frames = suc later.frames;
      over = later.over;
    }

-- `Lan._flood` of a port, and `_drop_port` where its guest went away.
unfoldable pub flood : (ℕ → Bytes → Bool) → ℕ → List Received → Lan → Lan × List (ℕ × Bytes)
unfolding flood_loop others
flood takes src reads l =
    let done = flood_loop takes (others src l.ports) burst reads in
    (
      record {
        fds = l.fds;
        dropped = l.dropped + done.dropped;
        guest_ends = l.guest_ends;
        ports = l.ports;
        reading = if done.over then others src l.reading else l.reading;
      },
      done.delivered,
    )

-- `Lan.detach`
unfoldable pub detach : Lan → Lan
detach l = record {
  fds = l.fds;
  dropped = l.dropped;
  guest_ends = [];
  ports = l.ports;
  reading = l.reading;
}

-- `Lan.close`, and whether it says how many frames were dropped.
unfoldable pub close : Lan → Lan × Bool
unfolding detach
close l = (
  record { fds = l.fds; dropped = l.dropped; guest_ends = []; ports = []; reading = [] },
  if nat_eq l.dropped 0 then false else true,
)
