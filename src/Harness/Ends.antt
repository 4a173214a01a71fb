-- ===== src/Harness/Ends.antt =====
-- How a test ends, and what it leaves.
use user_mode_nixos.Prelude.{Bool, true, false, none, some}
use user_mode_nixos.Machine.Lifecycle.{Machine}
use user_mode_nixos.Machine.Lifecycle.Released.{Released}
use user_mode_nixos.Harness.{Guest}

-- Whether a guest comes up.
abbrev pub comes_up : Guest → Bool
comes_up g = elim g.launch [ none ↦ false | some _ ↦ g.up ]

-- No error is waiting for the guest's shutdown that is not caught there.
abbrev pub no_fault : Guest → Bool
no_fault g = elim g.fault [ none ↦ true | some _ ↦ false ]
