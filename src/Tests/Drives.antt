-- ===== src/Tests/Drives.antt =====
-- The verdict of a run at a concrete selection.
use user_mode_nixos.Prelude.{
  ◌↔◌, ◌≡◌, refl, false, not, ◌&&◌, some, [], ◌∷◌, lookup, if◌then◌else◌, elem,
}
use user_mode_nixos.Phases.{PhaseState}
use user_mode_nixos.Events.{Level}
use user_mode_nixos.Session.{fresh}
use user_mode_nixos.Cli.Drive.{
  end_run, finish_sequence, terminal_level, deselect, phase_names, boot_failed,
}
use user_mode_nixos.Cli.Drive.Verdicts.{deselect_exact, exit_status_agrees, boot_failed_fails}
use user_mode_nixos.Tests.Samples.{phases}

terminal_level-sample : terminal_level false 1 ≡ Level.detail
unfolding terminal_level
terminal_level-sample = refl

deselect_exact_sample : lookup "other" (deselect ("boot" ∷ []) phases (fresh phases)).state ≡ (
    if elem "other" (phase_names phases) && not (elem "other" ("boot" ∷ []))
    then some PhaseState.deselected
    else lookup "other" (fresh phases).state)
deselect_exact_sample = deselect_exact ("boot" ∷ []) phases (fresh phases) "other"

boot_failed_fails_example :
    (boot_failed "no kernel" [] [] (deselect ("boot" ∷ []) phases (fresh phases))).0.status ≡ "1\n"
boot_failed_fails_example =
    boot_failed_fails phases ("boot" ∷ []) "boot" "no kernel" [] [] refl refl

exit_status_agrees_sample :
    ((end_run [] (finish_sequence [] (fresh phases)).1).0 ≡ 0)
    ↔ ((finish_sequence [] (fresh phases)).0.status ≡ "0\n")
exit_status_agrees_sample = exit_status_agrees [] [] (fresh phases)
