-- ===== src/Daemon/Whole/Requests.antt =====
-- A request of windows_daemon/ipc.go whose commands follow each other without anything in between is
-- a run of the daemon.
use fastflow_client.Base.{◌≡◌, ℕ, Option, none, some}
use fastflow_client.Base.Text.{Text}
use fastflow_client.Daemon.Os.{Os}
use fastflow_client.Daemon.Acl.{Disk}
use fastflow_client.Daemon.Process.{Processes}
use fastflow_client.Daemon.Ipc.{Request, handle_line}
use fastflow_client.Daemon.Work.{Work, answers, runs, line_work, finish}
use fastflow_client.Daemon.Work.Alone.{finish-line_work}
use fastflow_client.Daemon.Whole.{Whole, connection, set_work, reading, running, Moves, here, next}
use fastflow_client.Daemon.Whole.Connections.{connection-set_work, set_work-set_work}

module _ (os : Os) (disk : Disk os) (processes : Processes os) (token : Text)
    (leaves : os.State → os.State → Type 0) where
  pub Moves-Moves :
      {u v w : Whole os}
      → Moves os disk processes token leaves u v
      → Moves os disk processes token leaves v w
      → Moves os disk processes token leaves u w
  Moves-Moves ms here = ms
  Moves-Moves ms (next ns n) = next (Moves-Moves ms ns) n

  -- `w` with the work of a connection and the machine replaced.
  abbrev with_work : Whole os → ℕ → Option Work → os.State → Whole os
  with_work w h work s = record w { connections = set_work h work w.connections; machine = s }

  finish-Moves :
      (u w : Whole os) (h : ℕ) (path : Text) (old : Option Work) (work : Work) (s : os.State)
      → connection h w.connections ≡ some (path, old)
      → Moves os disk processes token leaves u (with_work w h (some work) s)
      → Moves os disk processes token leaves u
          (with_work w h (some (answers (finish os work s).1)) (finish os work s).0)
  unfolding finish
  finish-Moves u w h path old (answers r) s c ms = ms
  finish-Moves u w h path old (runs tool args k) s c ms =
      let left = some (runs tool args k) in
      let held = connection-set_work h path old left w.connections c in
      let moved = next ms (running (with_work w h left s) h path tool args k held) in
      finish-Moves u w h path old (k (os.run tool args s).1) (os.run tool args s).0 c
        (rw (set_work-set_work h left (some (k (os.run tool args s).1)) w.connections) at moved)

  -- From any state of the daemon in which a connection is idle: a line that it reads can be served
  -- to its answer, and where nothing comes in between, the machine is then as `handle_line` leaves
  -- it, the answer is the one of `handle_line`, and nothing else of the daemon has changed.
  pub handle_line-Moves :
      (w : Whole os) (h : ℕ) (path : Text) (line : Option Request)
      → connection h w.connections ≡ some (path, none)
      → Moves os disk processes token leaves w (record w {
        connections =
            set_work h (some (answers (handle_line os token path line w.machine).1)) w.connections;
        machine = (handle_line os token path line w.machine).0;
      })
  handle_line-Moves w h path line c =
      let run =
        finish-Moves w w h path none (line_work os token path line) w.machine c
          (next here (reading w h path line c)) in
      rw (finish-line_work os token path line w.machine) at run
