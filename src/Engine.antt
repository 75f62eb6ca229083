-- ===== src/Engine.antt =====
-- data/vpn_engine/engine_controller.go: the engine's state, `start`, `stop` and the exported
-- functions, one run of each after the other, as the mutex orders them. The core is the parameter
-- `Core`; a session number stands for the context, the box and the poller that one `start` makes.
pub mod Lifecycle
pub mod Success
pub mod Operations
pub mod Resources
pub mod Leaks
pub mod Meter
pub mod Statuses
pub mod Exports
pub mod Tunnel
pub mod Transports
use fastflow_client.Base.{
  ℕ, ◌+◌, Bool, true, false, Option, none, some, List, [], ◌∷◌, ◌++◌, ◌==◌, if◌then◌else◌,
}
use fastflow_client.Base.Calls.{Call, returned, panicked, blocked, Result, ok, err}
use fastflow_client.Base.Int.{ℤ, negsuc, wrap32}
use fastflow_client.Base.Text.{Text, codes, show_ℤ}
use fastflow_client.Traffic.{Snapshot, read_traffic}
use fastflow_client.Traffic.Reader.{Server, new_stats_reader}

pub data Status : Type 0 where
  stopped starting running stopping error : Status

-- `engineStatus.String`
unfoldable pub status_name : Status → Text
status_name starting = codes "starting"
status_name running = codes "running"
status_name stopping = codes "stopping"
status_name error = codes "error"
status_name stopped = codes "stopped"

-- The core, in the session of a given number.
pub record Core : Type 1 where
  pub Options : Type 0
  pub parse : ℕ → Text → Call (Result Options)  -- `json.UnmarshalExtendedContext`
  pub create : ℕ → Options → Call (Result (Unit {0}))  -- `box.New`
  pub start : ℕ → Call (Result (Unit {0}))  -- `instance.Start`
  pub close : ℕ → Call (Unit {0})  -- `instance.Close`
  pub server : ℕ → Call (Option Server)  -- the `V2RayServer` of the context
  pub stack : ℕ → Text  -- `debug.Stack`

-- The fields of `engine`, and below them what its operations leave in the process.
pub record Engine : Type 0 where
  pub locked : Bool
  pub instance : Option ℕ
  pub cancel : Option ℕ
  pub status : Status
  pub last_error : Option Text
  pub tun_fd : ℤ
  pub traffic : Option Snapshot
  pub sessions : ℕ  -- contexts made so far
  pub live : List ℕ  -- contexts that nobody has cancelled
  pub boxes : List ℕ  -- boxes that were made and that no `Close` which returns has closed
  pub pollers : List ℕ  -- poller goroutines started
  pub shown : List Status  -- every status stored, the latest first
  pub crashed : Bool  -- a goroutine died of a panic that nothing recovers

unfoldable pub new_engine : Engine
new_engine = record {
  locked = false;
  instance = none;
  cancel = none;
  status = stopped;
  last_error = some [];
  tun_fd = negsuc 0;
  traffic = none;
  sessions = 0;
  live = [];
  boxes = [];
  pollers = [];
  shown = stopped ∷ [];
  crashed = false;
}

abbrev pub remove : ℕ → List ℕ → List ℕ
remove n [] = []
remove n (m ∷ l) = let rest = remove n l in if n == m then rest else m ∷ rest

unfoldable pub set_status : Status → Engine → Engine
set_status s e = record e { status = s; shown = s ∷ e.shown }

unfoldable pub set_error : Text → Engine → Engine
unfolding set_status
set_error message e = set_status error (record e { last_error = some message })

-- `context.WithCancel`
abbrev open_context : Engine → Engine
open_context e = record e { sessions = e.sessions + 1; live = e.sessions ∷ e.live }

abbrev cancel_context : ℕ → Engine → Engine
cancel_context n e = record e { live = remove n e.live }

abbrev close_box : ℕ → Engine → Engine
close_box n e = record e { boxes = remove n e.boxes }

abbrev drop_cancel : Option ℕ → Engine → Engine
drop_cancel none e = e
drop_cancel (some n) e = record (cancel_context n e) { cancel = none }

-- How the body of `start` ends: with its error, by a panic, or never.
abbrev pub Run : Type 0
Run = Engine × Call (Option Text)

-- `cancel(); e.setError(wrapped); return wrapped`
abbrev fail : ℕ → Text → Engine → Run
fail n message e = (set_error message (cancel_context n e), returned (some message))

abbrev pub publish_instance : ℕ → Engine → Engine
publish_instance n e =
    set_status running (record e { instance = some n; cancel = some n; last_error = some [] })

abbrev pub already_running : Text
already_running = codes "engine already running"

abbrev unlock : Engine → Engine
unlock e = record e { locked = false }

module _ (core : Core) where
  -- `Close` in a goroutine of its own, which is waited for at most five seconds. A box whose
  -- `Close` never returns stays open. A panic there meets no `recover`.
  abbrev close_in_background : ℕ → Engine → Engine
  close_in_background n e = elim (core.close n) [
    | returned _ ↦ close_box n e
    | blocked ↦ e
    | panicked _ ↦ record e { crashed = true }
  ]

  abbrev drop_instance : Option ℕ → Engine → Engine
  drop_instance none e = e
  drop_instance (some n) e = record (close_in_background n e) { instance = none }

  -- `forceCleanupLocked`
  unfoldable pub force_cleanup : Engine → Engine
  force_cleanup e = let e' = drop_instance e.instance e in drop_cancel e'.cancel e'

  -- `startTrafficPoller`, and the end of `start`.
  unfoldable pub start_poller : ℕ → Engine → Run
  start_poller n e = elim (core.server n) [
    | panicked v ↦ (e, panicked v)
    | blocked ↦ (e, blocked)
    | returned server ↦ elim (new_stats_reader server) [
      | none ↦ (e, returned none)
      | some reader ↦ (record e { pollers = n ∷ e.pollers }, returned none)
    ]
  ]

  -- The failure of `Start`: `Close` is called on the thread itself here.
  abbrev start_failed : ℕ → Text → Engine → Run
  start_failed n message e = elim (core.close n) [
    | returned _ ↦ fail n (codes "start instance: " ++ message) (close_box n e)
    | panicked v ↦ (e, panicked v)
    | blocked ↦ (e, blocked)
  ]

  unfoldable pub start_box : ℕ → Engine → Run
  unfolding start_poller set_error
  start_box n e = elim (core.start n) [
    | panicked v ↦ (e, panicked v)
    | blocked ↦ (e, blocked)
    | returned (err m) ↦ start_failed n m e
    | returned (ok _) ↦ start_poller n (publish_instance n e)
  ]

  unfoldable pub create_box : ℕ → core.Options → Engine → Run
  unfolding start_box
  create_box n options e = elim (core.create n options) [
    | panicked v ↦ (e, panicked v)
    | blocked ↦ (e, blocked)
    | returned (err m) ↦ fail n (codes "create instance: " ++ m) e
    | returned (ok _) ↦ start_box n (record e { boxes = n ∷ e.boxes })
  ]

  unfoldable pub parse_config : ℕ → Text → Engine → Run
  unfolding create_box
  parse_config n config e = elim (core.parse n config) [
    | panicked v ↦ (e, panicked v)
    | blocked ↦ (e, blocked)
    | returned (err m) ↦ fail n (codes "parse config: " ++ m) e
    | returned (ok options) ↦ create_box n options e
  ]

  -- `start` between its deferred functions.
  unfoldable pub start_body : Text → Engine → Run
  unfolding parse_config
  start_body config e = elim e.instance [
    | some _ ↦ (e, returned (some already_running))
    | none ↦ parse_config e.sessions config (open_context (set_status starting e))
  ]

  abbrev pub panic_message : ℕ → Text → Text
  panic_message n v = codes "engine panic: " ++ (v ++ (b'\n' ∷ core.stack n))

  -- The deferred functions: the recovery, then the unlocking. A run that never ends keeps the lock.
  unfoldable pub settle : Run → Run
  unfolding force_cleanup set_error
  settle (e, returned r) = (unlock e, returned r)
  settle (e, panicked v) =
      let message = panic_message e.sessions v in
      (unlock (force_cleanup (set_error message e)), returned (some message))
  settle (e, blocked) = (e, blocked)

  -- `start` and `stop` wait for the mutex: for ever, if a run that never ends holds it.
  unfoldable pub start : Text → Engine → Run
  unfolding start_body settle
  start config e =
      if e.locked then (e, blocked) else settle (start_body config (record e { locked = true }))

  abbrev stop_locked : Option ℕ → Engine → Engine
  stop_locked none e = set_status stopped e
  stop_locked (some _) e = set_status stopped (force_cleanup (set_status stopping e))

  unfoldable pub stop : Engine → Engine × Call (Unit {0})
  unfolding force_cleanup set_status
  stop e = if e.locked then (e, blocked) else (stop_locked e.instance e, returned tt)

-- `SetTunFd`
unfoldable pub set_tun_fd : ℤ → Engine → Engine
set_tun_fd fd e = record e { tun_fd = wrap32 fd }

-- `StartEngine`, as the text that it returns for the error of `start`.
unfoldable pub start_reply : Option Text → Text
start_reply none = codes "SUCCESS"
start_reply (some message) = codes "ERROR: " ++ message

-- `GetStatus` and `GetEngineLastError`
unfoldable pub get_status : Engine → Text
unfolding status_name
get_status e = status_name e.status

unfoldable pub get_last_error : Engine → Text
get_last_error e = elim e.last_error [ none ↦ [] | some message ↦ message ]

-- `statsJSON`
unfoldable pub stats_json : Engine → Text
stats_json e =
    let (up, down) = read_traffic e.traffic in
    codes "{\"uplink\":"
    ++ (show_ℤ up.rate
        ++ (codes ",\"downlink\":"
            ++ (show_ℤ down.rate
                ++ (codes ",\"uplinkTotal\":"
                    ++ (show_ℤ up.total
                        ++ (codes ",\"downlinkTotal\":" ++ (show_ℤ down.total ++ codes "}")))))))
