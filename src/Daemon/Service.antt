-- ===== src/Daemon/Service.antt =====
-- windows_daemon/service.go: the service that Windows drives, and the server's `start` of ipc.go,
-- which it calls. What comes over the channel of requests before it is closed is a list.
pub mod Reports
use fastflow_client.Base.{ℕ, Bool, true, false, Option, none, some, List, [], ◌∷◌}
use fastflow_client.Base.Calls.{Result, ok, err}
use fastflow_client.Base.Text.{Text}
use fastflow_client.Daemon.Os.{Os}
use fastflow_client.Daemon.Acl.{Disk}
use fastflow_client.Daemon.Security.{load_or_create_token}

-- The statuses that are sent to Windows; `echoed` is the status that a request carried.
pub data Report : Type 0 where
  start_pending running stop_pending : Report
  echoed : ℕ → Report

pub data Command : Type 0 where
  interrogate : ℕ → Command
  stop shutdown : Command
  unexpected : ℕ → Command

-- The loop of `Execute`: what it reports, and whether it has called the server's `stop`.
unfoldable pub serve : List Command → List Report × Bool
serve [] = ([], false)
serve (interrogate status ∷ cs) =
    let (reports, called) = serve cs in (echoed status ∷ reports, called)
serve (stop ∷ cs) = (stop_pending ∷ [], true)
serve (shutdown ∷ cs) = (stop_pending ∷ [], true)
serve (unexpected code ∷ cs) = serve cs

-- What a run of the service has done: its reports, the secret of the server whose accept loop it
-- started, whether it has called that server's `stop`, and its exit code.
pub record Execution : Type 0 where
  pub reports : List Report
  pub token : Option Text
  pub stop_called : Bool
  pub exit_code : ℕ

abbrev pub refused : Execution
refused = record { reports = start_pending ∷ []; token = none; stop_called = false; exit_code = 1 }

module _ (os : Os) (disk : Disk os) where
  -- `server.start`: the secret of the server that now accepts.
  unfoldable pub start_server : os.State → os.State × Result Text
  start_server s = load_or_create_token os disk s

  abbrev pub run_server : List Command → Result Text → Execution
  run_server cs (err m) = refused
  run_server cs (ok token) =
      let (reports, called) = serve cs in
      record {
        reports = start_pending ∷ running ∷ reports;
        token = some token;
        stop_called = called;
        exit_code = 0;
      }

  unfoldable pub execute : List Command → os.State → Execution
  unfolding start_server serve
  execute cs s = run_server cs (start_server s).1
