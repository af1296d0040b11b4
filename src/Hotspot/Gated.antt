-- ===== src/Hotspot/Gated.antt =====
-- When internal/services/hotspot.go starts hostapd.
use airgapp_rpi.Base.{
  ◌≡◌, Bool, true, false, ◌&&◌, Option, none, List, [], ◌∷◌, arith, Option-cases, inl, inr,
}
use airgapp_rpi.Hotspot.{
  Action, start, Call, verified, ran, Settings, Hook, Hotspot, set_firewall_gate, verify_now,
  repair, check_gate, run_systemctl, set_enabled, apply,
}

-- The newest call was a verification that succeeded.
abbrev pub is_verified : List Call → Bool
is_verified (verified ok ∷ calls) = ok
is_verified _ = false

-- Every start of hostapd comes directly after a verification that succeeded.
abbrev pub starts_gated : List Call → Bool
starts_gated [] = true
starts_gated (ran start ok ∷ calls) = is_verified calls && starts_gated calls
starts_gated (_ ∷ calls) = starts_gated calls

pub data Op {ℓ} (S : Type ℓ) : Type ℓ where
  set_gate : Option (Hook S) → Option (Hook S) → Op S
  enable : Bool → Op S
  apply_settings : Settings → (is_writable : Bool) → Op S

module _ {ℓ} {S : Type ℓ} where
  repair-gated :
      (s : Hotspot S) → starts_gated s.calls ≡ true → starts_gated (repair s).1.calls ≡ true
  unfolding repair
  repair-gated s h = elim (Option-cases s.apply_firewall) [
    | inl e ↦ rw e h
    | inr (apply, e) ↦ rw e h
  ]

  verify_now-gated :
      (verify : Hook S) (s : Hotspot S)
      → starts_gated s.calls ≡ true
      → starts_gated (verify_now verify s).1.calls ≡ true
  unfolding verify_now
  verify_now-gated verify s h = h

  -- A check that gives no error ends with a verification that succeeded.
  check_gate-verified :
      (s : Hotspot S)
      → starts_gated s.calls ≡ true
      → (check_gate s).0 ≡ none
      → (is_verified (check_gate s).1.calls && starts_gated (check_gate s).1.calls) ≡ true
  unfolding check_gate verify_now
  check_gate-verified s g h = elim (Option-cases s.verify_firewall) [
    | inl e ↦ absurd (ground (arith, e))
    | inr (verify, e) ↦
        let first = verify_now verify s in
        let again = repair-gated first.1 g in ground (arith, e, again)
  ]

  check_gate-gated :
      (s : Hotspot S) → starts_gated s.calls ≡ true → starts_gated (check_gate s).1.calls ≡ true
  unfolding check_gate verify_now
  check_gate-gated s g = elim (Option-cases s.verify_firewall) [
    | inl e ↦ rw e g
    | inr (verify, e) ↦
        let first = verify_now verify s in
        let again = repair-gated first.1 g in ground (arith, e, again)
  ]

  set_enabled-gated :
      (systemctl : Action → Hook S) (up : Bool) (s : Hotspot S)
      → starts_gated s.calls ≡ true
      → starts_gated (set_enabled systemctl up s).1.calls ≡ true
  unfolding set_enabled run_systemctl
  set_enabled-gated systemctl false s g = g
  set_enabled-gated systemctl true s g = elim (Option-cases (check_gate s).0) [
    | inl e ↦ let v = check_gate-verified s g e in ground (arith, e, v)
    | inr (error, e) ↦ let v = check_gate-gated s g in ground (arith, e, v)
  ]

  apply-gated :
      (systemctl : Action → Hook S) (settings : Settings) (is_writable : Bool) (s : Hotspot S)
      → starts_gated s.calls ≡ true
      → starts_gated (apply systemctl settings is_writable s).1.calls ≡ true
  unfolding apply run_systemctl
  apply-gated systemctl settings is_writable s g = ground arith

  unfoldable pub run_op : (Action → Hook S) → Op S → Hotspot S → Hotspot S
  run_op systemctl (set_gate verify apply) s = set_firewall_gate verify apply s
  run_op systemctl (enable up) s = (set_enabled systemctl up s).1
  run_op systemctl (apply_settings settings is_writable) s =
      (apply systemctl settings is_writable s).1

  run_op-gated :
      (systemctl : Action → Hook S) (op : Op S) (s : Hotspot S)
      → starts_gated s.calls ≡ true
      → starts_gated (run_op systemctl op s).calls ≡ true
  unfolding run_op set_firewall_gate
  run_op-gated systemctl (set_gate verify apply) s g = g
  run_op-gated systemctl (enable up) s g = set_enabled-gated systemctl up s g
  run_op-gated systemctl (apply_settings settings is_writable) s g =
      apply-gated systemctl settings is_writable s g

  unfoldable pub run_ops : (Action → Hook S) → List (Op S) → Hotspot S → Hotspot S
  run_ops systemctl [] s = s
  run_ops systemctl (op ∷ ops) s = run_ops systemctl ops (run_op systemctl op s)

  -- Through any sequence of SetFirewallGate, SetEnabled and Apply, with any hooks, and whatever
  -- systemctl does: every `systemctl start hostapd` comes directly after a verification of the
  -- firewall that succeeded, with no call of the hooks or of systemctl in between. The restart of
  -- Apply is not meant.
  pub run_ops-gated :
      (systemctl : Action → Hook S) (ops : List (Op S)) (s : Hotspot S)
      → starts_gated s.calls ≡ true
      → starts_gated (run_ops systemctl ops s).calls ≡ true
  unfolding run_ops
  run_ops-gated systemctl [] s g = g
  run_ops-gated systemctl (op ∷ ops) s g =
      run_ops-gated systemctl ops (run_op systemctl op s) (run_op-gated systemctl op s g)
