-- ===== src/JunitIn/Outcomes.antt =====
-- What a test's outcome says of its element.
use user_mode_nixos.Prelude.{
  ℕ, String, ◌==◌, Bool, true, false, ◌||◌, Option, none, some, ◌≡◌, refl,
}
use user_mode_nixos.JunitIn.{Child, Element, case_with, case_by, case_of}

abbrev pub is_there : Option Child → Bool
is_there none = false
is_there (some _) = true

-- Whether an outcome is one of a test that did not pass.
abbrev pub did_not_pass : String → Bool
did_not_pass outcome = (outcome == "failed") || (outcome == "error")

case_by-bad :
    (strip : String → String) (full : String) (seconds : ℕ) (failure error skipped : Option Child)
    → did_not_pass (case_by strip full seconds failure error skipped).outcome
      ≡ (is_there failure || is_there error)
unfolding case_with
case_by-bad strip full seconds (some found) error skipped = refl
case_by-bad strip full seconds none (some found) skipped = refl
case_by-bad strip full seconds none none (some found) = refl
case_by-bad strip full seconds none none none = refl

-- A test is reported as failed or in error exactly where its element has a failure or an error,
-- whatever else the element holds and whether or not its time can be read.
pub case_of-bad :
    (float : String → Option ℕ) (strip : String → String) (e : Element)
    → did_not_pass (case_of float strip e).outcome ≡ (is_there e.failure || is_there e.error)
unfolding case_of
case_of-bad float strip e = case_by-bad strip _ _ e.failure e.error e.skipped
