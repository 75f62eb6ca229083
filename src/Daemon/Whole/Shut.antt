-- ===== src/Daemon/Whole/Shut.antt =====
-- Traffic that windows_daemon's kill switch blocks stays blocked, over whole runs of the daemon: the
-- accept loop, `handle` and `dispatch` of ipc.go, security.go, firewall.go and routing.go together.
use fastflow_client.Base.{ℕ, ◌≡◌, ◌∙◌, Bool, true, Option, none, some, arith}
use fastflow_client.Base.Calls.{Result, ok, err}
use fastflow_client.Base.Text.{Text}
use fastflow_client.Daemon.Os.{Os}
use fastflow_client.Daemon.Acl.{Disk}
use fastflow_client.Daemon.Process.{Processes}
use fastflow_client.Daemon.Security.{verify_client}
use fastflow_client.Daemon.Firewall.{
  block_outbound, add_rule, rule_name, rule_name_loopback, program_clause, loopback_clause,
}
use fastflow_client.Daemon.Firewall.Switch.{IsFirewall}
use fastflow_client.Daemon.Accept.{Phase, judging, Step, judge}
use fastflow_client.Daemon.Work.{Work, runs, line_work}
use fastflow_client.Daemon.Work.Invariant.{EnableKeeps, Preserves, SwitchesOff, line_work-Preserves}
use fastflow_client.Daemon.Whole.{
  Whole, Connections, go_handle, admitted, Move, accepting, reading, running, writing, closing,
  outside, Moves, here, next,
}
use fastflow_client.Daemon.Whole.Apart.{IsApart, route-RouteKeeps, inspected_keeps}
use fastflow_client.Daemon.Whole.Connections.{
  AllOf, connection-AllOf, set_work-AllOf, hung_up-AllOf,
}

module _ (os : Os) (disk : Disk os) (processes : Processes os) (token : Text)
    (leaves : os.State → os.State → Type 0) where
  -- No line that is read in a run is a request, with the secret, to switch the kill switch off.
  abbrev Quiet : {w v : Whole os} → Move os disk processes token leaves w v → Type 0
  Quiet (reading w h path line c) = SwitchesOff token line → ⊥
  Quiet _ = Unit

  abbrev pub AllQuiet : {w v : Whole os} → Moves os disk processes token leaves w v → Type 0
  AllQuiet here = Unit
  AllQuiet (next ms m) = AllQuiet ms × Quiet m

module _ (os : Os) (blocked : os.State → Bool) where
  abbrev pub Shut : os.State → Type 0
  Shut s = blocked s ≡ true

  -- The policy is the same.
  abbrev pub SamePolicy : os.State → os.State → Type 0
  SamePolicy s t = blocked t ≡ blocked s

  abbrev Closes : Text → Option Work → Type 0
  Closes path none = Unit
  Closes path (some w) = Preserves os Shut w

  -- Traffic is blocked, and what is left of the requests does not open it.
  pub record IsShut (w : Whole os) : Type 0 where
    pub works : AllOf Closes w.connections
    pub shut : Shut w.machine

  still_shut : (s t : os.State) → SamePolicy s t → Shut s → Shut t
  still_shut s t e h = e ∙ h

  go_handle-Closes :
      (r : Result Text) (h : ℕ) (cs : Connections)
      → AllOf Closes cs
      → AllOf Closes (go_handle h r cs)
  go_handle-Closes (err m) h cs a = a
  go_handle-Closes (ok path) h cs a = (tt, a)

module _ (os : Os) (disk : Disk os) (processes : Processes os) (token : Text)
    (blocked : os.State → Bool) (allows : Text → Text → os.State → Bool)
    (law : IsFirewall os blocked allows)
    (apart : IsApart os processes (SamePolicy os blocked)) where
  enable_shut : (path : Text) → EnableKeeps os (Shut os blocked) path
  enable_shut path = record {
    block = λ s h. ground (arith, law.policy block_outbound s);
    program = λ s h. ground (arith, law.policy (add_rule rule_name (program_clause path)) s);
    loopback = λ s h. ground (arith, law.policy (add_rule rule_name_loopback loopback_clause) s);
  }

  admitted-Closes :
      (a : Step) (phase : Phase) (s : os.State) (cs : Connections)
      → AllOf (Closes os blocked) cs
      → AllOf (Closes os blocked) (admitted os disk processes a phase s cs)
  admitted-Closes judge (judging h pid) s cs t =
      go_handle-Closes os blocked (verify_client os disk processes pid s).1 h cs t
  admitted-Closes _ _ s cs t = t

  Move-IsShut :
      {w v : Whole os}
      → IsShut os blocked w
      → (m : Move os disk processes token (SamePolicy os blocked) w v)
      → Quiet os disk processes token (SamePolicy os blocked) m
      → IsShut os blocked v
  Move-IsShut t (accepting w a e) q = record {
    works = admitted-Closes a w.server.phase w.machine w.connections t.works;
    shut =
        inspected_keeps os disk processes (SamePolicy os blocked) apart (Shut os blocked)
          (still_shut os blocked) a w.server.phase w.machine t.shut;
  }
  Move-IsShut t (reading w h path line c) q =
      let route =
        route-RouteKeeps os disk processes (SamePolicy os blocked) apart (Shut os blocked)
          (still_shut os blocked) in
      record {
        works =
            set_work-AllOf (Closes os blocked) h path none (some (line_work os token path line))
              w.connections t.works c
              (line_work-Preserves os (Shut os blocked) token path route (enable_shut path) line
                (λ d. absurd (q d)));
        shut = t.shut;
      }
  Move-IsShut t (running w h path tool args k c) q =
      let left = some (runs tool args k) in
      let (keeps, after) =
        connection-AllOf (Closes os blocked) h path left w.connections t.works c in
      let e = (os.run tool args w.machine).1 in
      record {
        works =
            set_work-AllOf (Closes os blocked) h path left (some (k e)) w.connections t.works c
              (after e);
        shut = keeps w.machine t.shut;
      }
  Move-IsShut t (writing w h path answer c) q = record {
    works = set_work-AllOf (Closes os blocked) h path _ none w.connections t.works c tt;
    shut = t.shut;
  }
  Move-IsShut t (closing w h path c) q = record {
    works = hung_up-AllOf (Closes os blocked) h w.connections t.works;
    shut = t.shut;
  }
  Move-IsShut t (outside w s l) q = record {
    works = t.works;
    shut = still_shut os blocked w.machine s l t.shut;
  }

  -- Where netsh.exe does what is documented, and route.exe, the calls that look at a process and the
  -- rest of the machine leave the outbound policy alone: once traffic is blocked and no request is
  -- left that would open it, it stays blocked over any moves of the daemon in which no line is read
  -- that shows the secret and asks to switch the kill switch off, whatever other lines are read and
  -- however their commands interleave.
  pub Moves-IsShut :
      {w v : Whole os}
      → IsShut os blocked w
      → (ms : Moves os disk processes token (SamePolicy os blocked) w v)
      → AllQuiet os disk processes token (SamePolicy os blocked) ms
      → IsShut os blocked v
  Moves-IsShut t here q = t
  Moves-IsShut t (next ms m) q = Move-IsShut (Moves-IsShut t ms q.0) m q.1
