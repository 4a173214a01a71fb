-- ===== src/Mconsole/InStep.antt =====
-- Each command of the console gets its own reply.
use user_mode_nixos.Prelude.{
  Chars, ℕ, ◌*◌, ◌/◌, ◌<◌, Bool, true, false, not, ◌||◌, some, List, [], ◌∷◌, ◌++◌, map, any, all,
  ◌&&◌, if◌then◌else◌, ltb, leb, nat_eq, length, ◌≡◌, refl, ap, ◌∙◌, arith,
}
use mathlib.Core.List.{append_assoc, append-nil}
use user_mode_nixos.Machine.Memory.{memory_bytes}
use user_mode_nixos.Machine.Memory.Found.{memory_bytes_reads}
use user_mode_nixos.Mconsole.{max_data, Datagram, Answer, receive, request, balloon_size}

-- The guest's reply to a command: the datagrams with more behind them, and the last.
pub record Reply : Type 0 where
  pub parts : List Datagram
  pub end : Datagram

abbrev pub well_formed : Reply → Bool
well_formed r = if r.end.more then false else all (λ d. d.more) r.parts

abbrev pub datagrams : Reply → List Datagram
datagrams r = r.parts ++ (r.end ∷ [])

-- The whole text of datagrams.
abbrev pub text_of : List Datagram → Chars
text_of [] = []
text_of (d ∷ ds) = d.text ++ text_of ds

-- What a reply says: an error where any of its datagrams has one.
abbrev pub answer_of : Reply → Answer
answer_of r =
    if any (λ d. not (nat_eq d.err 0)) (datagrams r)
    then Answer.refused (text_of (datagrams r))
    else Answer.message (text_of (datagrams r))

-- The commands, one after the other.
abbrev pub requests : List Chars → List Datagram → List Answer
requests [] arrived = []
requests (c ∷ cs) arrived = let one = request true c arrived in one.0 ∷ requests cs one.1

-- What the loop of `request` makes of its text and its failure.
abbrev verdict : Bool → Chars → Answer
verdict bad text = if bad then Answer.refused text else Answer.message text

abbrev has_error : List Datagram → Bool
has_error = any (λ d. not (nat_eq d.err 0))

or_last : (a b : Bool) → (a || b) ≡ (a || (b || false))
or_last a b = ground arith

or_assoc : (a b c : Bool) → ((a || b) || c) ≡ (a || (b || c))
or_assoc a b c = ground arith

receive-reply :
    (before : Chars) (failed : Bool) (parts : List Datagram) (end : Datagram) (rest : List Datagram)
    → end.more ≡ false
    → all (λ d. d.more) parts ≡ true
    → receive before failed (parts ++ (end ∷ rest)) ≡ (
      verdict (failed || has_error (parts ++ (end ∷ []))) (before ++ text_of (parts ++ (end ∷ []))),
      rest,
    )
unfolding receive
receive-reply before failed [] end rest h k =
    let bad = not (nat_eq end.err 0) in
    rw (h, append-nil end.text)
      (ap (λ b. (verdict b (before ++ end.text), rest)) (or_last failed bad))
receive-reply before failed (d ∷ parts) end rest h k =
    let more : d.more ≡ true = ground arith in
    let bad = failed || not (nat_eq d.err 0) in
    rw more (
      receive-reply (before ++ d.text) bad parts end rest h (ground arith)
      ∙ (ap (λ t. (verdict (bad || has_error (parts ++ (end ∷ []))) t, rest))
            (append_assoc before d.text (text_of (parts ++ (end ∷ []))))
          ∙ ap (λ b. (verdict b (before ++ (d.text ++ text_of (parts ++ (end ∷ [])))), rest))
              (or_assoc failed (not (nat_eq d.err 0)) (has_error (parts ++ (end ∷ []))))))

-- A command is answered with its reply, and what the guest sent behind it is left.
request-reply :
    (command : Chars) (r : Reply) (rest : List Datagram)
    → length command < max_data
    → well_formed r ≡ true
    → request true command (datagrams r ++ rest) ≡ (answer_of r, rest)
unfolding request
request-reply command r rest short good =
    let last : r.end.more ≡ false = ground arith in
    let parts : all (λ d. d.more) r.parts ≡ true = ground arith in
    let fits : leb max_data (length command) ≡ false = ground arith in
    rw (fits, append_assoc r.parts (r.end ∷ []) rest)
      (receive-reply [] false r.parts r.end rest last parts)

abbrev pub all_datagrams : List (Chars × Reply) → List Datagram
all_datagrams [] = []
all_datagrams ((_, r) ∷ turns) = datagrams r ++ all_datagrams turns

-- Commands that are short enough, sent one after the other, each get the reply that the guest sent
-- to that command, an error in any of its datagrams included, if each reply is well formed: every
-- datagram but its last says that there is more.
pub requests_in_step :
    (turns : List (Chars × Reply))
    → all (λ t. ltb (length t.0) max_data && well_formed t.1) turns ≡ true
    → requests (map (λ t. t.0) turns) (all_datagrams turns) ≡ map (λ t. answer_of t.1) turns
requests_in_step [] h = refl
requests_in_step ((c, r) ∷ turns) h =
    let one = request-reply c r (all_datagrams turns) (ground arith) (ground arith) in
    rw one (ap (λ l. answer_of r ∷ l) (requests_in_step turns (ground arith)))

-- The size that `balloon` asks for is read by the console as the bytes wanted, down to a whole
-- kibibyte: all of them where they are whole kibibytes.
pub balloon_size_reads :
    (bytes : ℕ) → memory_bytes (balloon_size bytes) ≡ some ((bytes / 1024) * 1024)
unfolding balloon_size
balloon_size_reads bytes = memory_bytes_reads (bytes / 1024) 75 1024 refl
