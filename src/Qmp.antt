-- ===== src/Qmp.antt =====
-- pkgs/uml-runner/uml_runner/qmp.py: QEMU's monitor, and the wait for its balloon. What the guest
-- has at each query, and the clock, in milliseconds, are arguments.
pub mod Balloon
use user_mode_nixos.Prelude.{
  ℕ, zero, suc, ◌+◌, ◌-◌, ◌*◌, Bool, true, false, if◌then◌else◌, ltb, leb, nat_eq,
}
use user_mode_nixos.Machine.Memory.{Delta}

-- `SLACK`, in bytes, and `STALL`, in milliseconds.
abbrev pub slack : ℕ
slack = 8 * 1024 * 1024

abbrev pub stall : ℕ
stall = 5000

-- `max(0, actual + delta)`
unfoldable pub target_of : ℕ → Delta → ℕ
target_of actual (Delta.less n) = actual - n
target_of actual (Delta.more n) = actual + n

-- `abs(now - target)`
abbrev pub distance : ℕ → ℕ → ℕ
distance a b = (a - b) + (b - a)

-- A query: what the guest has, and how long it took to ask.
pub record Query : Type 0 where
  pub actual : ℕ
  pub took : ℕ

-- How `Qmp.balloon` returns, or that it has not after the rounds given to it.
pub data Ballooned : Type 0 where
  arrived : ℕ → Ballooned
  stalled : ℕ → Ballooned
  gave_up : Ballooned
  out_of_rounds : Ballooned

-- The loop of `balloon`, which sleeps for 200 milliseconds in each round.
unfoldable pub wait_loop : ℕ → (ℕ → Query) → (now deadline target last moved_at : ℕ) → Ballooned
wait_loop zero queries now deadline target last moved_at = Ballooned.out_of_rounds
wait_loop (suc rounds) queries now deadline target last moved_at =
    let seen = (queries 0).actual in
    let then_at = (now + 200) + (queries 0).took in
    let moved = if nat_eq seen last then false else true in
    let later =
      wait_loop rounds (λ k. queries (suc k)) then_at deadline target seen
        (if moved then then_at else moved_at) in
    if ltb now deadline
    then (if leb (distance seen target) slack
        then Ballooned.arrived seen
        else if moved
        then later
        else if ltb stall (then_at - moved_at)
        then Ballooned.stalled seen
        else later)
    else Ballooned.gave_up

-- `Qmp.balloon`, from the first query on.
unfoldable pub balloon : ℕ → (ℕ → Query) → ℕ → ℕ → ℕ → Delta → Ballooned
unfolding wait_loop target_of
balloon rounds queries now timeout actual delta =
    wait_loop rounds queries now (now + timeout) (target_of actual delta) actual now
