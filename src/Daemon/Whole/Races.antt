-- ===== src/Daemon/Whole/Races.antt =====
-- Two requests of windows_daemon/ipc.go that are served at the same time: the kill switch of
-- firewall.go is switched on and off without a lock.
use fastflow_client.Base.{
  ℕ, ◌≡◌, ◌≢◌, refl, sym, Bool, true, false, Option, none, some, [], ◌∷◌, arith, ◌==◌, length,
}
use fastflow_client.Base.Text.{Text, text_eq_refl}
use fastflow_client.Daemon.Os.{Os}
use fastflow_client.Daemon.Acl.{Disk}
use fastflow_client.Daemon.Process.{Processes}
use fastflow_client.Daemon.Firewall.{
  Command, block_outbound, allow_outbound, add_rule, delete_rule, netsh, rule_name,
  rule_name_loopback, program_clause, loopback_clause,
}
use fastflow_client.Daemon.Firewall.Switch.{IsFirewall}
use fastflow_client.Daemon.Ipc.{Request, result}
use fastflow_client.Daemon.Work.{
  Work, Rest, answers, unless_error, netsh_work, enable_work, disable_work, method_work, line_work,
}
use fastflow_client.Daemon.Work.Invariant.{Switches}
use fastflow_client.Daemon.Whole.{Whole, connection, set_work, reading, running, Moves, here, next}
use fastflow_client.Daemon.Whole.Connections.{
  connection-set_work, connection-set_work_other, set_work-set_work, set_work_comm,
}

module _ (os : Os) where
  abbrev program_work : Text → Rest → Work
  program_work path k =
      netsh_work os (add_rule rule_name (program_clause path))
        (unless_error k (netsh_work os (add_rule rule_name_loopback loopback_clause) k))

  abbrev deletions : Rest → Work
  deletions k =
      netsh_work os (delete_rule rule_name)
        (λ e. netsh_work os (delete_rule rule_name_loopback) (λ e. k none))

  some_length : (c : ℕ) (path : Text) → length (c ∷ path) == 0 ≡ false
  some_length c path = ground arith

  enable_work-program_work :
      (path : Text) (k : Rest)
      → path ≢ []
      → enable_work os path k ≡ netsh_work os block_outbound (unless_error k (program_work path k))
  unfolding enable_work
  enable_work-program_work [] k n = absurd (n refl)
  enable_work-program_work (c ∷ path) k n = rw (some_length c path)

  line_work_on :
      (token path : Text) (req : Request)
      → path ≢ []
      → Switches token true req
      → line_work os token path (some req)
        ≡ netsh_work os block_outbound (
            unless_error
              (λ e. answers (result req.id e))
              (program_work path (λ e. answers (result req.id e))))
  unfolding line_work method_work
  line_work_on token path req n (t, m, e) =
      rw (t, m, e, enable_work-program_work path (λ e. answers (result req.id e)) n)

  line_work_off :
      (token path : Text) (req : Request)
      → Switches token false req
      → line_work os token path (some req)
        ≡ netsh_work os allow_outbound (
            unless_error
              (λ e. answers (result req.id e))
              (deletions (λ e. answers (result req.id e))))
  unfolding line_work method_work disable_work
  line_work_off token path req (t, m, e) = rw (t, m, e)

module _ (os : Os) (disk : Disk os) (processes : Processes os) (token : Text)
    (leaves : os.State → os.State → Type 0) (w : Whole os) (h g : ℕ) (differ : h ≢ g) (p q : Text)
    (idle_h : connection h w.connections ≡ some (p, none))
    (idle_g : connection g w.connections ≡ some (q, none)) where
  abbrev Reaches : Whole os → Type 0
  Reaches = Moves os disk processes token leaves w

  -- What is left at the two connections, and the machine.
  abbrev both : Work → Work → os.State → Whole os
  both v v' s = record w {
    connections = set_work g (some v') (set_work h (some v) w.connections);
    machine = s;
  }

  holds_h : (v v' : Work) (s : os.State) → connection h (both v v' s).connections ≡ some (p, some v)
  holds_h v v' s =
      rw (connection-set_work_other h g (some v') (set_work h (some v) w.connections) differ)
        (connection-set_work h p none (some v) w.connections idle_h)

  holds_g :
      (v v' : Work) (s : os.State) → connection g (both v v' s).connections ≡ some (q, some v')
  holds_g v v' s =
      connection-set_work g q none (some v') (set_work h (some v) w.connections)
        (rw (connection-set_work_other g h (some v) w.connections (λ e. differ (sym e))) idle_g)

  reads_both :
      (a b : Option Request)
      → Reaches (both (line_work os token p a) (line_work os token q b) w.machine)
  reads_both a b = next (next here (reading w h p a idle_h)) (
      reading (record w { connections = set_work h (some (line_work os token p a)) w.connections })
        g q b
        (rw
          (connection-set_work_other g h (some (line_work os token p a)) w.connections
            (λ e. differ (sym e)))
          idle_g))

  moves_h :
      (c : Command) (k : Rest) (v' : Work) (s : os.State)
      → (netsh os c s).1 ≡ none
      → Reaches (both (netsh_work os c k) v' s)
      → Reaches (both (k none) v' (netsh os c s).0)
  unfolding netsh
  moves_h c k v' s e ms =
      let old = some (netsh_work os c k) in
      let moved =
        next ms
          (running (both (netsh_work os c k) v' s) h p _ _ k (holds_h (netsh_work os c k) v' s)) in
      rw
        (
          e,
          set_work_comm h g (some (k none)) (some v') (set_work h old w.connections) differ,
          set_work-set_work h old (some (k none)) w.connections,
        )
        at moved

  moves_g :
      (c : Command) (k : Rest) (v : Work) (s : os.State)
      → (netsh os c s).1 ≡ none
      → Reaches (both v (netsh_work os c k) s)
      → Reaches (both v (k none) (netsh os c s).0)
  unfolding netsh
  moves_g c k v s e ms =
      let old = some (netsh_work os c k) in
      let moved =
        next ms
          (running (both v (netsh_work os c k) s) g q _ _ k (holds_g v (netsh_work os c k) s)) in
      rw (e, set_work-set_work g old (some (k none)) (set_work h (some v) w.connections)) at moved

  module _ (steady : (c : Command) (s : os.State) → (netsh os c s).1 ≡ none) where
    abbrev after : Command → os.State → os.State
    after c s = (netsh os c s).0

    abbrev opened : os.State
    opened = after allow_outbound w.machine

    abbrev blocked_again : os.State
    blocked_again = after block_outbound opened

    abbrev with_program : os.State
    with_program = after (add_rule rule_name (program_clause p)) blocked_again

    abbrev with_loopback : os.State
    with_loopback = after (add_rule rule_name_loopback loopback_clause) with_program

    abbrev without_program : os.State
    without_program = after (delete_rule rule_name) with_loopback

    abbrev stranded : os.State
    stranded = after (delete_rule rule_name_loopback) without_program

    interleaved :
        (k k' : Rest)
        → Reaches (
            both
              (netsh_work os block_outbound (unless_error k (program_work os p k)))
              (netsh_work os allow_outbound (unless_error k' (deletions os k')))
              w.machine)
        → Reaches (both (k none) (k' none) stranded)
    interleaved k k' m0 =
        let m1 = moves_g allow_outbound _ _ w.machine (steady _ _) m0 in
        let m2 = moves_h block_outbound _ _ opened (steady _ _) m1 in
        let m3 = moves_h _ _ _ blocked_again (steady _ _) m2 in
        let m4 = moves_h _ _ _ with_program (steady _ _) m3 in
        let m5 = moves_g _ _ _ with_loopback (steady _ _) m4 in
        moves_g _ _ _ without_program (steady _ _) m5

    module _ (blocked : os.State → Bool) (allows : Text → Text → os.State → Bool)
        (law : IsFirewall os blocked allows) where
      stranded-blocked : blocked stranded ≡ true
      stranded-blocked = ground (
        arith,
        steady block_outbound opened,
        law.policy block_outbound opened,
        law.policy (add_rule rule_name (program_clause p)) blocked_again,
        law.policy (add_rule rule_name_loopback loopback_clause) with_program,
        law.policy (delete_rule rule_name) with_loopback,
        law.policy (delete_rule rule_name_loopback) without_program,
      )

      stranded-allows :
          (clause : Text)
          → (allows rule_name clause stranded ≡ false)
            × (allows rule_name_loopback clause stranded ≡ false)
      stranded-allows clause = ground (
        arith,
        steady (delete_rule rule_name) with_loopback,
        steady (delete_rule rule_name_loopback) without_program,
        law.rules (delete_rule rule_name) with_loopback rule_name clause,
        law.rules (delete_rule rule_name_loopback) without_program rule_name clause,
        law.rules (delete_rule rule_name_loopback) without_program rule_name_loopback clause,
        text_eq_refl rule_name,
        text_eq_refl rule_name_loopback,
      )

      -- Where netsh.exe does what is documented and its commands succeed, and two connections are
      -- idle: if one is asked to switch the kill switch on and the other to switch it off, both can
      -- come to report success while outbound traffic is blocked and no rule of the kill switch is
      -- left, so that not even the client is let through.
      pub requests_race :
          (on off : Request)
          → p ≢ []
          → Switches token true on
          → Switches token false off
          → (v : Whole os) × Moves os disk processes token leaves w v
            × (connection h v.connections ≡ some (p, some (answers (result on.id none))))
            × (connection g v.connections ≡ some (q, some (answers (result off.id none))))
            × (blocked v.machine ≡ true)
            × ((clause : Text)
                → (allows rule_name clause v.machine ≡ false)
                  × (allows rule_name_loopback clause v.machine ≡ false))
      requests_race on off n t f =
          let a = answers (result on.id none) in
          let b = answers (result off.id none) in
          let start = reads_both (some on) (some off) in
          (
            both a b stranded,
            interleaved (λ e. answers (result on.id e)) (λ e. answers (result off.id e))
                (rw (line_work_on os token p on n t, line_work_off os token q off f) at start),
            holds_h a b stranded,
            holds_g a b stranded,
            stranded-blocked,
            stranded-allows,
          )
