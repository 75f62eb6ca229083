-- ===== src/Daemon/Whole/Rules.antt =====
-- Which rules the requests of an accepted client can add: `dispatch` of ipc.go with firewall.go and
-- routing.go.
use fastflow_client.Base.{
  Option, ◌≡◌, refl, sym, ◌⊎◌, inl, inr, Bool, true, false, arith, Bool-cases,
}
use fastflow_client.Base.Text.{Text, codes, text_eq, text_eq→eq}
use fastflow_client.Daemon.Os.{Os}
use fastflow_client.Daemon.Acl.{Disk}
use fastflow_client.Daemon.Security.{expected_client_path, equal_fold}
use fastflow_client.Daemon.Firewall.{
  Command, block_outbound, allow_outbound, add_rule, delete_rule, netsh, rule_name,
  rule_name_loopback, program_clause, loopback_clause,
}
use fastflow_client.Daemon.Firewall.Switch.{IsFirewall, rule_after}
use fastflow_client.Daemon.Ipc.{Request, handle_line}
use fastflow_client.Daemon.Work.{line_work}
use fastflow_client.Daemon.Work.Alone.{finish-line_work}
use fastflow_client.Daemon.Work.Invariant.{
  Keeps, EnableKeeps, DisableKeeps, RouteKeeps, line_work-Preserves, finish-Preserves,
}

-- The rest of the machine leaves the rules of the program's name as they are.
abbrev pub Spares : (State : Type 0) → (Text → Text → State → Bool) → State → State → Type 0
Spares State allows s t = (clause : Text) → allows rule_name clause t ≡ allows rule_name clause s

module _ (os : Os) (disk : Disk os) (allows : Text → Text → os.State → Bool) where
  abbrev pub Genuine : Text → Type 0
  Genuine path = equal_fold os.fold path (expected_client_path os disk) ≡ true

  -- Each rule of the program's name is for the client's one path.
  abbrev pub OnlyClient : os.State → Type 0
  OnlyClient s =
      (clause : Text)
      → allows rule_name clause s ≡ true
      → (path : Text) × Genuine path × (clause ≡ program_clause path)

module _ (os : Os) (disk : Disk os) (blocked : os.State → Bool)
    (allows : Text → Text → os.State → Bool) (law : IsFirewall os blocked allows) where
  pub Spares-OnlyClient :
      (s t : os.State)
      → Spares os.State allows s t
      → OnlyClient os disk allows s
      → OnlyClient os disk allows t
  Spares-OnlyClient s t same h clause e = h clause (rw (← same clause) e)

  netsh-Keeps :
      (c : Command)
      → ((s : os.State) (clause : Text)
          → rule_after c (netsh os c s).1 rule_name clause (allows rule_name clause s) ≡ true
          → (allows rule_name clause s ≡ true)
            ⊎ ((path : Text) × Genuine os disk allows path × (clause ≡ program_clause path)))
      → Keeps os (OnlyClient os disk allows) (netsh os c)
  netsh-Keeps c fresh s h clause e =
      elim (fresh s clause (rw (← law.rules c s rule_name clause) e)) [
        | inl old ↦ h clause old
        | inr new ↦ new
      ]

  pub block_outbound-Keeps : Keeps os (OnlyClient os disk allows) (netsh os block_outbound)
  block_outbound-Keeps = netsh-Keeps block_outbound (λ s clause e. ground arith)

  pub allow_outbound-Keeps : Keeps os (OnlyClient os disk allows) (netsh os allow_outbound)
  allow_outbound-Keeps = netsh-Keeps allow_outbound (λ s clause e. ground arith)

  pub delete_rule-Keeps :
      (n : Text) → Keeps os (OnlyClient os disk allows) (netsh os (delete_rule n))
  delete_rule-Keeps n = netsh-Keeps (delete_rule n) (λ s clause e. ground arith)

  names_differ : text_eq rule_name_loopback rule_name ≡ false
  unfolding text_eq codes
  names_differ = refl

  pub loopback_rule-Keeps :
      Keeps os (OnlyClient os disk allows) (netsh os (add_rule rule_name_loopback loopback_clause))
  loopback_rule-Keeps =
      netsh-Keeps (add_rule rule_name_loopback loopback_clause)
        (λ s clause e. ground (arith, names_differ))

  pub program-Keeps :
      (path : Text)
      → Genuine os disk allows path
      → Keeps os (OnlyClient os disk allows) (netsh os (add_rule rule_name (program_clause path)))
  program-Keeps path g = netsh-Keeps (add_rule rule_name (program_clause path)) (λ s clause e.
      elim (Bool-cases (text_eq (program_clause path) clause)) [
        | inl same ↦ inr (path, g, sym (text_eq→eq (program_clause path) clause same))
        | inr differs ↦ ground arith
      ])

  pub enable_keeps :
      (path : Text) → Genuine os disk allows path → EnableKeeps os (OnlyClient os disk allows) path
  enable_keeps path g = record {
    block = block_outbound-Keeps;
    program = program-Keeps path g;
    loopback = loopback_rule-Keeps;
  }

  pub disable_keeps : DisableKeeps os (OnlyClient os disk allows)
  disable_keeps = record { allow = allow_outbound-Keeps; delete = delete_rule-Keeps }

  pub handle_line-OnlyClient :
      (token path : Text) (line : Option Request) (s : os.State)
      → RouteKeeps os (OnlyClient os disk allows)
      → Genuine os disk allows path
      → OnlyClient os disk allows s
      → OnlyClient os disk allows (handle_line os token path line s).0
  handle_line-OnlyClient token path line s route g o =
      rw (← finish-line_work os token path line s) (
        finish-Preserves os (OnlyClient os disk allows) (line_work os token path line) s
          (line_work-Preserves os (OnlyClient os disk allows) token path route (enable_keeps path g)
            line (λ d. disable_keeps))
          o)
