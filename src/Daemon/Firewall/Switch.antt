-- ===== src/Daemon/Firewall/Switch.antt =====
-- What the kill switch of windows_daemon/firewall.go does to the firewall.
use fastflow_client.Base.{
  ◌≡◌, ◌≢◌, ◌⊎◌, inl, inr, Bool, true, false, ◌&&◌, Option, none, [], ◌∷◌, arith, if◌then◌else◌,
  Option-cases,
}
use fastflow_client.Base.Text.{Text, text_eq, text_eq_refl}
use fastflow_client.Daemon.Os.{Os}
use fastflow_client.Daemon.Firewall.{
  Command, block_outbound, allow_outbound, add_rule, delete_rule, netsh, rule_name,
  rule_name_loopback, program_clause, loopback_clause, enable_kill_switch, disable_kill_switch,
}

-- The outbound policy after a command that ended with the given error.
abbrev pub policy_after : Command → Option Text → Bool → Bool
policy_after block_outbound none b = true
policy_after allow_outbound none b = false
policy_after _ _ b = b

-- Whether there is a rule of a given name and clause after a command.
abbrev pub rule_after : Command → Option Text → Text → Text → Bool → Bool
rule_after (add_rule m d) none n c b = if text_eq m n && text_eq d c then true else b
rule_after (delete_rule m) none n c b = if text_eq m n then false else b
rule_after _ _ n c b = b

-- netsh.exe as it is documented: a command that fails changes nothing, setting the policy leaves the
-- rules, and a rule is added by its name and deleted by its name.
pub record IsFirewall (os : Os) (blocked : os.State → Bool) (allows : Text → Text → os.State → Bool)
    : Type 0 where
  pub policy :
      (c : Command) (s : os.State)
      → blocked (netsh os c s).0 ≡ policy_after c (netsh os c s).1 (blocked s)
  pub rules :
      (c : Command) (s : os.State) (n d : Text)
      → allows n d (netsh os c s).0 ≡ rule_after c (netsh os c s).1 n d (allows n d s)

module _ (os : Os) (blocked : os.State → Bool) (allows : Text → Text → os.State → Bool)
    (law : IsFirewall os blocked allows) where
  -- The states between the commands of `enableKillSwitch` and of `disableKillSwitch`.
  abbrev after : Command → os.State → os.State
  after c s = (netsh os c s).0

  abbrev program_rule : Text → Command
  program_rule path = add_rule rule_name (program_clause path)

  abbrev loopback_rule : Command
  loopback_rule = add_rule rule_name_loopback loopback_clause

  -- Where netsh.exe does what is documented: a kill switch that reports no error leaves the policy
  -- that blocks outbound traffic, the rule that lets the loopback through and, unless the path is
  -- empty, the one for the program at the path.
  pub enable_kill_switch_ok :
      (path : Text) (s : os.State)
      → (enable_kill_switch os path s).1 ≡ none
      → (blocked (enable_kill_switch os path s).0 ≡ true)
        × (allows rule_name_loopback loopback_clause (enable_kill_switch os path s).0 ≡ true)
        × ((path ≡ [])
            ⊎ (allows rule_name (program_clause path) (enable_kill_switch os path s).0 ≡ true))
  unfolding enable_kill_switch
  enable_kill_switch_ok [] s h = ground (
    arith,
    law.policy block_outbound s,
    law.policy loopback_rule (after block_outbound s),
    law.rules loopback_rule (after block_outbound s) rule_name_loopback loopback_clause,
    text_eq_refl rule_name_loopback,
    text_eq_refl loopback_clause,
  )
  enable_kill_switch_ok (c ∷ p) s h =
      let s1 = after block_outbound s in
      let s2 = after (program_rule (c ∷ p)) s1 in
      ground (
        arith,
        law.policy block_outbound s,
        law.policy (program_rule (c ∷ p)) s1,
        law.policy loopback_rule s2,
        law.rules (program_rule (c ∷ p)) s1 rule_name (program_clause (c ∷ p)),
        law.rules loopback_rule s2 rule_name (program_clause (c ∷ p)),
        law.rules loopback_rule s2 rule_name_loopback loopback_clause,
        text_eq_refl rule_name,
        text_eq_refl (program_clause (c ∷ p)),
        text_eq_refl rule_name_loopback,
        text_eq_refl loopback_clause,
      )

  -- Where netsh.exe does what is documented: however `enableKillSwitch` ends, the blocking policy
  -- is set afterwards, or it has returned an error and the policy is the one from before.
  enable_kill_switch_closed :
      (path : Text) (s : os.State)
      → (blocked (enable_kill_switch os path s).0 ≡ true)
        ⊎ (((enable_kill_switch os path s).1 ≢ none)
            × (blocked (enable_kill_switch os path s).0 ≡ blocked s))
  unfolding enable_kill_switch
  enable_kill_switch_closed [] s =
      ground (arith, law.policy block_outbound s, law.policy loopback_rule (after block_outbound s))
  enable_kill_switch_closed (c ∷ p) s =
      let s1 = after block_outbound s in
      let s2 = after (program_rule (c ∷ p)) s1 in
      ground (
        arith,
        law.policy block_outbound s,
        law.policy (program_rule (c ∷ p)) s1,
        law.policy loopback_rule s2,
      )

  -- Where netsh.exe does what is documented: if `disableKillSwitch` returns no error, the policy
  -- allows traffic again, and if it returns one, the policy and every rule are as before.
  pub disable_kill_switch_lem :
      (path : Text) (s : os.State)
      → (((disable_kill_switch os path s).1 ≡ none)
          × (blocked (disable_kill_switch os path s).0 ≡ false))
        ⊎ (((disable_kill_switch os path s).1 ≢ none)
            × (blocked (disable_kill_switch os path s).0 ≡ blocked s)
            × ((n d : Text) → allows n d (disable_kill_switch os path s).0 ≡ allows n d s))
  unfolding disable_kill_switch
  disable_kill_switch_lem path s = elim (Option-cases (netsh os allow_outbound s).1) [
    | inl fine ↦
        let s1 = after allow_outbound s in
        let s2 = after (delete_rule rule_name) s1 in
        inl (
          ground (
            arith,
            law.policy allow_outbound s,
            law.policy (delete_rule rule_name) s1,
            law.policy (delete_rule rule_name_loopback) s2,
          ))
    | inr (m, failed) ↦ inr (
      ground arith,
      ground (arith, law.policy allow_outbound s),
      λ n d. ground (arith, law.rules allow_outbound s n d),
    )
  ]

  -- Where netsh.exe does what is documented, and the policy can be set and both rules can be
  -- deleted, `disableKillSwitch` leaves no rule of either name, whatever it found.
  pub disable_kill_switch_clean :
      (path : Text) (s : os.State) (d : Text)
      → (netsh os allow_outbound s).1 ≡ none
      → (netsh os (delete_rule rule_name) (after allow_outbound s)).1 ≡ none
      → (netsh os
          (delete_rule rule_name_loopback)
          (after (delete_rule rule_name) (after allow_outbound s))).1
        ≡ none
      → (allows rule_name d (disable_kill_switch os path s).0 ≡ false)
        × (allows rule_name_loopback d (disable_kill_switch os path s).0 ≡ false)
  unfolding disable_kill_switch
  disable_kill_switch_clean path s d a b c =
      let s1 = after allow_outbound s in
      let s2 = after (delete_rule rule_name) s1 in
      ground (
        arith,
        law.rules (delete_rule rule_name) s1 rule_name d,
        law.rules (delete_rule rule_name_loopback) s2 rule_name d,
        law.rules (delete_rule rule_name_loopback) s2 rule_name_loopback d,
        text_eq_refl rule_name,
        text_eq_refl rule_name_loopback,
      )
