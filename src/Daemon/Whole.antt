-- ===== src/Daemon/Whole.antt =====
-- The daemon of windows_daemon as a whole: the accept loop of ipc.go with the check of security.go
-- that it calls, and beside it the goroutines that serve the connections, on one machine. The
-- commands of requests that are served at the same time come in any order.
pub mod Rules
pub mod Connections
pub mod Apart
pub mod Shut
pub mod Trust
pub mod Requests
pub mod Races
pub mod Rounds
use fastflow_client.Base.{
  ℕ, ◌≡◌, ◌⊎◌, Bool, true, false, Option, none, some, List, [], ◌∷◌, ◌==◌, if◌then◌else◌,
}
use fastflow_client.Base.Calls.{Result, ok, err}
use fastflow_client.Base.Text.{Text}
use fastflow_client.Daemon.Os.{Os}
use fastflow_client.Daemon.Acl.{Disk}
use fastflow_client.Daemon.Process.{Processes}
use fastflow_client.Daemon.Security.{verify_client}
use fastflow_client.Daemon.Ipc.{Request, Response}
use fastflow_client.Daemon.Work.{Work, answers, runs, line_work}
use fastflow_client.Daemon.Accept.{Server, Phase, judging, Step, judge, step}

-- Each open connection has its handle, the verified image of its peer and, while a request of it is
-- being served, what is left to do.
abbrev pub Connections : Type 0
Connections = List (ℕ × Text × Option Work)

-- The server, its connections, and the machine.
pub record Whole (os : Os) : Type 0 where
  pub server : Server
  pub connections : Connections
  pub machine : os.State

unfoldable pub connection : ℕ → Connections → Option (Text × Option Work)
connection h [] = none
connection h ((k, p, w) ∷ cs) = let rest = connection h cs in if h == k then some (p, w) else rest

unfoldable pub set_work : ℕ → Option Work → Connections → Connections
set_work h new [] = []
set_work h new ((k, p, w) ∷ cs) =
    let rest = set_work h new cs in if h == k then (k, p, new) ∷ cs else (k, p, w) ∷ rest

unfoldable pub hung_up : ℕ → Connections → Connections
hung_up h [] = []
hung_up h ((k, p, w) ∷ cs) = let rest = hung_up h cs in if h == k then cs else (k, p, w) ∷ rest

abbrev pub is_ok : Result Text → Bool
is_ok (ok path) = true
is_ok (err m) = false

-- The goroutine of a connection that is accepted.
abbrev pub go_handle : ℕ → Result Text → Connections → Connections
go_handle h (ok path) cs = (h, path, none) ∷ cs
go_handle h (err m) cs = cs

module _ (os : Os) (disk : Disk os) (processes : Processes os) where
  -- `verifyClient` at the moment of the call.
  abbrev pub accepts_now : os.State → ℕ → Bool
  accepts_now s pid = is_ok (verify_client os disk processes pid s).1

  -- `go s.handle(…, path)`, where the loop has just judged a peer.
  abbrev pub admitted : Step → Phase → os.State → Connections → Connections
  admitted judge (judging h pid) s cs = go_handle h (verify_client os disk processes pid s).1 cs
  admitted a phase s cs = cs

  -- The machine, once the loop has looked at the peer's process.
  abbrev pub inspected : Step → Phase → os.State → os.State
  inspected judge (judging h pid) s = (verify_client os disk processes pid s).0
  inspected a phase s = s

module _ (os : Os) (disk : Disk os) (processes : Processes os) (token : Text) where
  -- A move of one of the threads, or of the rest of the machine, for which `leaves` says what it may
  -- do.
  pub data Move (leaves : os.State → os.State → Type 0) : Whole os → Whole os → Type 0 where
    accepting :
        (w : Whole os) (a : Step) {t : Server}
        → step (accepts_now os disk processes w.machine) a w.server ≡ some t
        → Move leaves w (record w {
          server = t;
          connections = admitted os disk processes a w.server.phase w.machine w.connections;
          machine = inspected os disk processes a w.server.phase w.machine;
        })
    -- `ReadBytes` of an idle connection returns a line.
    reading :
        (w : Whole os) (h : ℕ) (path : Text) (line : Option Request)
        → connection h w.connections ≡ some (path, none)
        → Move leaves w (record w {
          connections = set_work h (some (line_work os token path line)) w.connections;
        })
    -- The next command of a request runs.
    running :
        (w : Whole os) (h : ℕ) (path tool : Text) (args : List Text) (k : Option Text → Work)
        → connection h w.connections ≡ some (path, some (runs tool args k))
        → Move leaves w (record w {
          connections = set_work h (some (k (os.run tool args w.machine).1)) w.connections;
          machine = (os.run tool args w.machine).0;
        })
    -- `writeResp`
    writing :
        (w : Whole os) (h : ℕ) (path : Text) (answer : Response)
        → connection h w.connections ≡ some (path, some (answers answer))
        → Move leaves w (record w { connections = set_work h none w.connections })
    -- `ReadBytes` of an idle connection fails, and `handle` returns.
    closing :
        (w : Whole os) (h : ℕ) (path : Text)
        → connection h w.connections ≡ some (path, none)
        → Move leaves w (record w { connections = hung_up h w.connections })
    outside :
        (w : Whole os) (s : os.State)
        → leaves w.machine s
        → Move leaves w (record w { machine = s })

  pub data Moves (leaves : os.State → os.State → Type 0) (w : Whole os) : Whole os → Type 0 where
    here : Moves leaves w w
    next : {u v : Whole os} → Moves leaves w u → Move leaves u v → Moves leaves w v
