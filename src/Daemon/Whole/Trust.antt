-- ===== src/Daemon/Whole/Trust.antt =====
-- Whom the program rule of windows_daemon's kill switch can come to serve, over whole runs of the
-- daemon: the accept loop and `handle` of ipc.go, security.go, firewall.go and routing.go together.
use fastflow_client.Base.{ℕ, ◌≡◌, refl, Bool, Option, none, some}
use fastflow_client.Base.Calls.{Result, ok, err}
use fastflow_client.Base.Text.{Text}
use fastflow_client.Daemon.Os.{Os}
use fastflow_client.Daemon.Acl.{Disk}
use fastflow_client.Daemon.Process.{Processes}
use fastflow_client.Daemon.Security.{verify_client}
use fastflow_client.Daemon.Security.Peer.{verify_client_iff}
use fastflow_client.Daemon.Firewall.Switch.{IsFirewall}
use fastflow_client.Daemon.Accept.{Phase, judging, Step, judge}
use fastflow_client.Daemon.Work.{Work, runs, line_work}
use fastflow_client.Daemon.Whole.{
  Whole, Connections, go_handle, admitted, Move, accepting, reading, running, writing, closing,
  outside, Moves, here, next,
}
use fastflow_client.Daemon.Whole.Connections.{
  AllOf, connection-AllOf, set_work-AllOf, hung_up-AllOf,
}
use fastflow_client.Daemon.Work.Invariant.{Preserves, RouteKeeps, line_work-Preserves}
use fastflow_client.Daemon.Whole.Apart.{IsApart, route-RouteKeeps, inspected_keeps}
use fastflow_client.Daemon.Whole.Rules.{
  Spares, Genuine, OnlyClient, Spares-OnlyClient, enable_keeps, disable_keeps,
}

module _ (os : Os) (disk : Disk os) (allows : Text → Text → os.State → Bool) where
  abbrev HarmlessIf : Option Work → Type 0
  HarmlessIf none = Unit
  HarmlessIf (some w) = Preserves os (OnlyClient os disk allows) w

  -- A connection is of the installed client, and what is left of its request does no harm.
  abbrev Trustworthy : Text → Option Work → Type 0
  Trustworthy path work = Genuine os disk allows path × HarmlessIf work

  pub record IsTrusted (w : Whole os) : Type 0 where
    pub peers : AllOf Trustworthy w.connections
    pub rules : OnlyClient os disk allows w.machine

module _ (os : Os) (disk : Disk os) (blocked : os.State → Bool)
    (allows : Text → Text → os.State → Bool) (law : IsFirewall os blocked allows)
    (processes : Processes os) (apart : IsApart os processes (Spares os.State allows)) where
  abbrev Only : os.State → Type 0
  Only = OnlyClient os disk allows

  abbrev Peer : Text → Option Work → Type 0
  Peer = Trustworthy os disk allows

  carry : (s t : os.State) → Spares os.State allows s t → Only s → Only t
  carry = Spares-OnlyClient os disk blocked allows law

  route-Only : RouteKeeps os Only
  route-Only = route-RouteKeeps os disk processes (Spares os.State allows) apart Only carry

  go_handle-AllOf :
      (pid : ℕ) (s : os.State) (r : Result Text) (h : ℕ) (cs : Connections)
      → (verify_client os disk processes pid s).1 ≡ r
      → AllOf Peer cs
      → AllOf Peer (go_handle h r cs)
  go_handle-AllOf pid s (err m) h cs e a = a
  go_handle-AllOf pid s (ok path) h cs e a =
      ((((verify_client_iff os disk processes pid s path).0 e).1, tt), a)

  admitted-AllOf :
      (a : Step) (phase : Phase) (s : os.State) (cs : Connections)
      → AllOf Peer cs
      → AllOf Peer (admitted os disk processes a phase s cs)
  admitted-AllOf judge (judging h pid) s cs t =
      go_handle-AllOf pid s (verify_client os disk processes pid s).1 h cs refl t
  admitted-AllOf _ _ s cs t = t

  Move-IsTrusted :
      (token : Text) {w v : Whole os}
      → IsTrusted os disk allows w
      → Move os disk processes token (Spares os.State allows) w v
      → IsTrusted os disk allows v
  Move-IsTrusted token t (accepting w a e) = record {
    peers = admitted-AllOf a w.server.phase w.machine w.connections t.peers;
    rules =
        inspected_keeps os disk processes (Spares os.State allows) apart Only carry a w.server.phase
          w.machine t.rules;
  }
  Move-IsTrusted token t (reading w h path line c) =
      let genuine = (connection-AllOf Peer h path none w.connections t.peers c).0 in
      let safe =
        line_work-Preserves os Only token path route-Only
          (enable_keeps os disk blocked allows law path genuine) line
          (λ d. disable_keeps os disk blocked allows law) in
      record {
        peers =
            set_work-AllOf Peer h path none (some (line_work os token path line)) w.connections
              t.peers c (genuine, safe);
        rules = t.rules;
      }
  Move-IsTrusted token t (running w h path tool args k c) =
      let left = some (runs tool args k) in
      let (genuine, (keeps, after)) = connection-AllOf Peer h path left w.connections t.peers c in
      let e = (os.run tool args w.machine).1 in
      record {
        peers =
            set_work-AllOf Peer h path left (some (k e)) w.connections t.peers c (genuine, after e);
        rules = keeps w.machine t.rules;
      }
  Move-IsTrusted token t (writing w h path answer c) =
      let genuine = (connection-AllOf Peer h path _ w.connections t.peers c).0 in
      record {
        peers = set_work-AllOf Peer h path _ none w.connections t.peers c (genuine, tt);
        rules = t.rules;
      }
  Move-IsTrusted token t (closing w h path c) = record {
    peers = hung_up-AllOf Peer h w.connections t.peers;
    rules = t.rules;
  }
  Move-IsTrusted token t (outside w s l) = record {
    peers = t.peers;
    rules = carry w.machine s l t.rules;
  }

  -- Where netsh.exe does what is documented, and route.exe, the calls that look at a process and the
  -- rest of the machine leave the rules of the kill switch's name alone: if every open connection is
  -- of the installed client, what is left of its request keeps the rules of that name for the client
  -- alone, and they are for it alone now, then all this holds after any moves of the accept loop, of
  -- `stop`, of the connections and of the machine, whatever processes connect and whatever lines
  -- they send.
  pub Moves-IsTrusted :
      (token : Text) {w v : Whole os}
      → IsTrusted os disk allows w
      → Moves os disk processes token (Spares os.State allows) w v
      → IsTrusted os disk allows v
  Moves-IsTrusted token t here = t
  Moves-IsTrusted token t (next ms m) = Move-IsTrusted token (Moves-IsTrusted token t ms) m
