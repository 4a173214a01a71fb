-- ===== src/Tests/Forwards.antt =====
-- Port forwards at concrete rules.
use user_mode_nixos.Prelude.{
  ℕ, String, ◌≡◌, refl, ◌↔◌, inl, Bool, true, false, none, some, [], ◌∷◌, Memᴰ, ltb, elem, arith,
}
use user_mode_nixos.Forward.{
  PortMap, Ports, Rule, host_ports, remap_ports, assign, loopback, Result,
}
use user_mode_nixos.Forward.Specs.{to_args, resolve, reach_ports, reachable}
use user_mode_nixos.Forward.Privileged.{Moved, remap_ports_sound, remap_ports_complete}
use user_mode_nixos.Forward.Assign.{assign_sound, resolve_privileged}
use user_mode_nixos.Forward.Coverage.{forwards, reachable_shadowed, reachable_exact}

abbrev wide_rule : Rule
wide_rule = record {
  address = some "127.0.0.2";
  ports = Ports.every;
  protocols = "tcp" ∷ [];
  remap_privileged = true;
  privileged_offset = 10000;
}

abbrev ssh : PortMap
ssh = record { host = 22; guest = 22 }

abbrev web : PortMap
web = record { host = 8080; guest = 80 }

abbrev narrow_rule : Rule
narrow_rule = record wide_rule { address = none; ports = Ports.only (ssh ∷ web ∷ []) }

abbrev binds : String → ℕ → Bool
binds address port = ltb 1023 port

to_args-sample :
    to_args (wide_rule ∷ []) 1024 (32768, 60999)
    ≡ some (
        "--tcp-ports" ∷ "127.0.0.2/~32768-60999,~10001-11023" ∷ "--tcp-ports"
        ∷ "127.0.0.2/10001-11023:1-1023" ∷ [])
unfolding to_args
to_args-sample = refl

reachable-sample : reachable (wide_rule ∷ []) 80 1024 (32768, 60999) ≡ "127.0.0.2:10080" ∷ []
unfolding reachable
reachable-sample = refl

reachable_shadowed_example :
    (reach_ports wide_rule 10022 1024 (32768, 60999) Ports.every ≡ 10022 ∷ [])
    × (forwards wide_rule 1024 (32768, 60999) 10022 10022 ≡ false)
    × (forwards wide_rule 1024 (32768, 60999) 10022 22 ≡ true)
reachable_shadowed_example =
    reachable_shadowed wide_rule 1024 32768 60999 10022
      (refl, refl, omega arith, omega arith, omega arith) (inl (omega arith))

reachable_exact_example :
    (forwards wide_rule 1024 (32768, 60999) 10080 80 ≡ true)
    ↔ Memᴰ 10080 (reach_ports wide_rule 80 1024 (32768, 60999) Ports.every)
reachable_exact_example =
    reachable_exact wide_rule 1024 32768 60999 10080 80 refl (omega arith) (omega arith)
      (omega arith) (λ h. let (_, _, _, _, free) = h in omega (arith, free))

resolve_privileged_example :
    (error : String) × (resolve binds 1024 (narrow_rule ∷ []) [] ≡ Result.forward_error error)
unfolding host_ports
resolve_privileged_example =
    resolve_privileged binds 1024 (narrow_rule ∷ []) [] narrow_rule 22 (λ a p low. ground arith)
      (Memᴰ.head refl) refl (Memᴰ.head refl) (omega arith)

abbrev web_rule : Rule
web_rule = record narrow_rule { ports = Ports.only (web ∷ []) }

assign_sound_example :
    (elem "127.0.0.3" ("127.0.0.2" ∷ []) ≡ false)
    × ((rule : Rule) (port : ℕ)
        → Memᴰ rule (web_rule ∷ [])
        → Memᴰ port (host_ports rule.ports)
        → binds "127.0.0.3" port ≡ true)
unfolding assign loopback
assign_sound_example = assign_sound binds (web_rule ∷ []) ("127.0.0.2" ∷ []) "127.0.0.3" refl

remap_ports_sound_sample :
    (p : PortMap) × Memᴰ p (ssh ∷ web ∷ [])
    × Moved narrow_rule 1024 p (record { host = 10022; guest = 22 })
unfolding remap_ports
remap_ports_sound_sample =
    remap_ports_sound narrow_rule 1024 (ssh ∷ web ∷ []) (record { host = 10022; guest = 22 })
      (Memᴰ.head refl)

remap_ports_complete_sample :
    (q : PortMap) × Memᴰ q (remap_ports narrow_rule 1024 (ssh ∷ web ∷ [])).0
    × Moved narrow_rule 1024 web q
remap_ports_complete_sample =
    remap_ports_complete narrow_rule 1024 (ssh ∷ web ∷ []) web (Memᴰ.tail (Memᴰ.head refl))
      (inl (omega arith))
