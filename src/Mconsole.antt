-- ===== src/Mconsole.antt =====
-- pkgs/uml-runner/uml_runner/mconsole.py: UML's management console, one command and its reply at a
-- time. What the guest sends is an argument: the datagrams that arrive, in their order.
pub mod InStep
use user_mode_nixos.Prelude.{
  Chars, ℕ, zero, suc, ◌/◌, Bool, true, false, not, ◌||◌, List, [], ◌∷◌, ◌++◌, if◌then◌else◌, leb,
  nat_eq, length, decimal,
}
use user_mode_nixos.Machine.Memory.{Delta}

-- `MAX_DATA`
abbrev pub max_data : ℕ
max_data = 512

-- A datagram of a reply: `err`, `more` and the text.
pub record Datagram : Type 0 where
  pub err : ℕ
  pub more : Bool
  pub text : Chars

pub data Answer : Type 0 where
  message : Chars → Answer
  refused : Chars → Answer
  too_long : Answer
  no_socket : Answer
  timed_out : Answer

-- The loop of `request`: the datagrams up to one with no more behind it; then what is left.
unfoldable pub receive : Chars → Bool → List Datagram → Answer × List Datagram
receive parts failed [] = (Answer.timed_out, [])
receive parts failed (d ∷ arrived) =
    let text = parts ++ d.text in
    let bad = failed || not (nat_eq d.err 0) in
    let rest = receive text bad arrived in
    if d.more then rest else (if bad then Answer.refused text else Answer.message text, arrived)

-- `Mconsole.request`, given whether the guest's socket is there. A byte of the command is a
-- character here: every command is ASCII.
unfoldable pub request : Bool → Chars → List Datagram → Answer × List Datagram
unfolding receive
request there command arrived =
    if leb max_data (length command)
    then (Answer.too_long, arrived)
    else if there
    then receive [] false arrived
    else (Answer.no_socket, arrived)

-- `config mem=`, and `K`
abbrev config_mem : Chars
config_mem = 99 ∷ 111 ∷ 110 ∷ 102 ∷ 105 ∷ 103 ∷ 32 ∷ 109 ∷ 101 ∷ 109 ∷ 61 ∷ []

-- The command of `Mconsole.balloon`.
unfoldable pub balloon_size : ℕ → Chars
balloon_size bytes = decimal (bytes / 1024) ++ (75 ∷ [])

unfoldable pub balloon : Delta → Chars
unfolding balloon_size
balloon (Delta.less n) = config_mem ++ (45 ∷ balloon_size n)
balloon (Delta.more n) = config_mem ++ (43 ∷ balloon_size n)
