-- ===== src/Report.antt =====
-- pkgs/uml-runner/uml_runner/report.py: where the time of a run went. Times are milliseconds, to
-- which the source rounds; a text is the list of its code points. No step begins before the
-- report. The source adds and compares them as floating-point numbers, which may take a step for
-- overlapping that begins in the very millisecond in which the one before ends.
pub mod Covered
pub mod Commands
use user_mode_nixos.Prelude.{
  Chars, ℕ, zero, suc, ◌+◌, ◌-◌, ◌*◌, String, ◌==◌, Bool, true, false, ◌&&◌, ◌||◌, Option, none,
  some, List, [], ◌∷◌, ◌++◌, if◌then◌else◌, ltb, leb, nat_eq, length, take, filter, map, Dict,
  insert, round_to, sorted, sum_of,
}

pub record Step : Type 0 where
  pub at : ℕ
  pub machine : String
  pub kind : String
  pub what : Chars
  pub seconds : ℕ

pub record Report : Type 0 where
  pub machines : Dict ℕ
  pub steps : List Step

-- `Report.step`, at a time since the report was started.
unfoldable pub step : ℕ → String → String → Chars → ℕ → Report → Report
step now machine kind what seconds r = record {
  machines = r.machines;
  steps =
      r.steps
      ++ (record {
        at = now - seconds;
        machine = machine;
        kind = kind;
        what = take 200 what;
        seconds = seconds;
      }
          ∷ []);
}

-- `Report.booted`; of the facts only how long the boot took is kept here.
unfoldable pub booted : ℕ → String → Chars → ℕ → Report → Report
unfolding step
booted now name what seconds r =
    step now name "boot" what seconds
      (record { machines = insert name seconds r.machines; steps = r.steps })

-- `Report.waiting`, from the time a wait begins to the time it ends.
unfoldable pub waiting : ℕ → ℕ → String → Chars → Report → Report
unfolding step
waiting started now machine what r = step now machine "wait" what (now - started) r

-- The order of `_toplevel`: by start, the longest first on a tie.
abbrev pub starts_below : Step → Step → Bool
starts_below s t = ltb s.at t.at || (nat_eq s.at t.at && ltb t.seconds s.seconds)

-- The loop of `_toplevel`.
abbrev pub outermost : ℕ → List Step → ℕ
outermost end [] = 0
outermost end (s ∷ rest) =
    let later = outermost (if leb end s.at then s.at + s.seconds else end) rest in
    if leb end s.at then s.seconds + later else later

-- `_toplevel`
unfoldable pub toplevel : List Step → ℕ
toplevel steps = outermost 0 (sorted starts_below steps)

-- `str.isspace` of one character.
abbrev pub is_space : ℕ → Bool
is_space c =
    (leb 9 c && leb c 13)
    || ((leb 28 c && leb c 32)
        || (nat_eq c 133
            || (nat_eq c 160
                || (nat_eq c 5760
                    || ((leb 8192 c && leb c 8202)
                        || (nat_eq c 8232
                            || (nat_eq c 8233
                                || (nat_eq c 8239 || (nat_eq c 8287 || nat_eq c 12288)))))))))

abbrev flush : Chars → List Chars → List Chars
flush [] words = words
flush (c ∷ cs) words = (c ∷ cs) ∷ words

-- `text.split()`, behind what was read of a word.
unfoldable pub words : Chars → Chars → List Chars
words begun [] = flush begun []
words begun (c ∷ cs) =
    let rest = words (if is_space c then [] else begun ++ (c ∷ [])) cs in
    if is_space c then flush begun rest else rest

-- `" ".join(s.what.split()[:2])`
unfoldable pub command : Chars → Chars
unfolding words
command what = elim (words [] what) [ [] ↦ [] | w ∷ [] ↦ w | w ∷ v ∷ _ ↦ w ++ (32 ∷ v) ]

abbrev pub same : Chars → Chars → Bool
same [] [] = true
same [] (_ ∷ _) = false
same (_ ∷ _) [] = false
same (c ∷ cs) (d ∷ ds) = nat_eq c d && same cs ds

pub record Row : Type 0 where
  pub name : Chars
  pub calls : ℕ
  pub seconds : ℕ

-- `entry = totals.setdefault(key, [0, 0.0])`, and what is added to it.
unfoldable pub count : Chars → ℕ → List Row → List Row
count key seconds [] = record { name = key; calls = 1; seconds = seconds } ∷ []
count key seconds (r ∷ rows) =
    if same r.name key
    then record { name = r.name; calls = suc r.calls; seconds = r.seconds + seconds } ∷ rows
    else r ∷ count key seconds rows

-- `if s.kind != "rpc": continue`
abbrev pub is_rpc : Step → Bool
is_rpc s = s.kind == "rpc"

unfoldable pub grouped : List Row → List Step → List Row
unfolding count command
grouped rows [] = rows
grouped rows (s ∷ steps) =
    grouped (if is_rpc s then count (command s.what) s.seconds rows else rows) steps

abbrev pub costlier : Row → Row → Bool
costlier r q = ltb q.seconds r.seconds

-- `Report._by_command`
unfoldable pub by_command : List Step → List Row
unfolding grouped
by_command steps = take 30 (sorted costlier (grouped [] steps))

abbrev pub slower : Step → Step → Bool
slower s t = ltb t.seconds s.seconds

-- `max(…, default=0.0)` over the machines.
unfoldable pub longest_boot : Dict ℕ → ℕ
longest_boot [] = 0
longest_boot ((_, seconds) ∷ rest) =
    let other = longest_boot rest in if ltb other seconds then seconds else other

abbrev pub is_wait : Step → Bool
is_wait s = s.kind == "wait"

pub record Body : Type 0 where
  pub passed : Bool
  pub error : Option String
  pub total_seconds : ℕ
  pub recorded_seconds : ℕ
  pub unrecorded_seconds : ℕ
  pub boot_seconds : ℕ
  pub waiting_seconds : ℕ
  pub machines : Dict ℕ
  pub commands : List Row
  pub slowest : List Step
  pub steps : List Step

-- The body of `Report.write`, at a time since the report was started.
unfoldable pub write : ℕ → Bool → Option String → Report → Body
unfolding toplevel by_command longest_boot
write total passed error r = record {
  passed = passed;
  error = error;
  total_seconds = total;
  recorded_seconds = toplevel r.steps;
  unrecorded_seconds = total - toplevel r.steps;
  boot_seconds = longest_boot r.machines;
  waiting_seconds = sum_of (λ s. s.seconds) (filter is_wait r.steps);
  machines = r.machines;
  commands = by_command r.steps;
  slowest = take 20 (sorted slower r.steps);
  steps = r.steps;
}

-- The percentage that `Report.summary` shows.
unfoldable pub share : ℕ → Report → ℕ
unfolding toplevel
share total r = if nat_eq total 0 then 0 else round_to total (100 * toplevel r.steps)

-- `Report.write_if_asked`: what is written, and where.
unfoldable pub write_if_asked :
    Option String → ℕ → Bool → Option String → Report → Option (String × Body)
unfolding write
write_if_asked none total passed error r = none
write_if_asked (some where_to) total passed error r =
    if where_to == "" then none else some (where_to, write total passed error r)
