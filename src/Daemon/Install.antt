-- ===== src/Daemon/Install.antt =====
-- windows_daemon/install.go and main.go: the registration of the service, and the commands of the
-- program. What the service manager does is the parameter `Manager`.
pub mod Registration
pub mod Release
use fastflow_client.Base.{
  ℕ, Bool, true, false, Option, none, some, List, [], ◌∷◌, ◌++◌, if◌then◌else◌,
}
use fastflow_client.Base.Calls.{Result, ok, err}
use fastflow_client.Base.Text.{Text, codes, text_eq}
use fastflow_client.Daemon.Os.{Os, Action}
use fastflow_client.Daemon.Acl.{Disk, fastflow_dir, ensure_secure_dir}
use fastflow_client.Daemon.Service.{start_server}
use fastflow_client.Daemon.Handles.{deferring}

abbrev pub service_name : Text
service_name = codes "FastFlowHelper"

abbrev display_name : Text
display_name = codes "FastFlow VPN Helper"

pub data StartType : Type 0 where
  start_automatic : StartType

-- `mgr.Config`, as far as it is filled.
pub record Config : Type 0 where
  pub display_name : Text
  pub description : Text
  pub start_type : StartType
  pub service_type : ℕ
  pub dependencies : List Text

abbrev pub helper_config : Config
helper_config = record {
  display_name = display_name;
  description = codes "Performs privileged routing / firewall operations for FastFlow VPN.";
  start_type = start_automatic;
  service_type = 0x10;
  dependencies = codes "Tcpip" ∷ [];
}

pub record Manager (os : Os) : Type 0 where
  pub executable : os.State → os.State × Result Text
  pub connect : os.State → os.State × Result ℕ
  pub disconnect : ℕ → os.State → os.State
  pub open_service : ℕ → Text → os.State → os.State × Result ℕ
  pub create_service : ℕ → Text → Text → Config → os.State → os.State × Result ℕ
  pub delete_service : ℕ → os.State → os.State × Option Text
  pub close_service : ℕ → os.State → os.State
  pub open_log : Text → os.State → os.State × Option Text
  pub is_windows_service : Result Bool

module _ (os : Os) (disk : Disk os) (manager : Manager os) where
  abbrev pub created_service : os.State × Result ℕ → os.State × Option Text
  created_service (s, err m) = (s, some (codes "create service: " ++ m))
  created_service (s, ok h) = (manager.close_service h s, none)

  abbrev pub register : Text → ℕ → os.State × Result ℕ → os.State × Option Text
  register exe m (s, ok h) = (
    manager.close_service h s,
    some (codes "service " ++ (os.quote service_name ++ codes " already installed")),
  )
  register exe m (s, err _) =
      created_service (manager.create_service m service_name exe helper_config s)

  abbrev no_manager : Text → Text
  no_manager m = codes "connect to service manager (run as admin): " ++ m

  abbrev pub install_with : Text → os.State × Result ℕ → os.State × Option Text
  install_with exe (s, err m) = (s, some (no_manager m))
  install_with exe (s, ok m) =
      deferring (manager.disconnect m) (register exe m (manager.open_service m service_name s))

  abbrev pub install_in : Text → os.State × Option Text → os.State × Option Text
  install_in exe (s, some m) = (s, some (codes "secure data dir: " ++ m))
  install_in exe (s, none) = install_with exe (manager.connect s)

  abbrev pub install_from : os.State × Result Text → os.State × Option Text
  install_from (s, err m) = (s, some (codes "locate executable: " ++ m))
  install_from (s, ok exe) = install_in exe (ensure_secure_dir os disk (fastflow_dir os disk) s)

  unfoldable pub install_service : Action os
  install_service s = install_from (manager.executable s)

  abbrev pub deleted_service : os.State × Option Text → os.State × Option Text
  deleted_service (s, some m) = (s, some (codes "delete service: " ++ m))
  deleted_service (s, none) = (s, none)

  abbrev pub unregister : os.State × Result ℕ → os.State × Option Text
  unregister (s, err m) =
      (s, some (codes "service " ++ (os.quote service_name ++ (codes " not installed: " ++ m))))
  unregister (s, ok h) =
      deferring (manager.close_service h) (deleted_service (manager.delete_service h s))

  abbrev pub uninstall_with : os.State × Result ℕ → os.State × Option Text
  uninstall_with (s, err m) = (s, some (no_manager m))
  uninstall_with (s, ok m) =
      deferring (manager.disconnect m) (unregister (manager.open_service m service_name s))

  unfoldable pub uninstall_service : Action os
  uninstall_service s = uninstall_with (manager.connect s)

  abbrev pub open_log_in : Text → os.State × Option Text → os.State × Option Text
  open_log_in path (s, some m) = (s, none)
  open_log_in path (s, none) = elim (manager.open_log path s).1 [
    | none ↦ ((manager.open_log path s).0, some path)
    | some m ↦ ((manager.open_log path s).0, none)
  ]

  -- `setupServiceLogging`: the file that the log goes to from then on, if it is moved.
  unfoldable pub setup_service_logging : Action os
  setup_service_logging s =
      open_log_in (os.join (fastflow_dir os disk ∷ codes "daemon.log" ∷ []))
        (ensure_secure_dir os disk (fastflow_dir os disk) s)

  -- How `main` goes on: it prints a line and returns, ends by `log.Fatal`, blocks for ever while the
  -- server with a secret accepts, or runs the service, with the file its log goes to.
  pub data Outcome : Type 0 where
    printed : Text → Outcome
    fatal : Text → Outcome
    serving : Text → Outcome
    run_service : Option Text → Outcome

  -- `must`, and the line that is printed behind it.
  abbrev pub must : Text → os.State × Option Text → os.State × Outcome
  must line (s, some m) = (s, fatal m)
  must line (s, none) = (s, printed line)

  abbrev in_console : os.State × Result Text → os.State × Outcome
  in_console (s, err m) = (s, fatal (codes "failed to start IPC server: " ++ m))
  in_console (s, ok token) = (s, serving token)

  unfoldable pub run_console : os.State → os.State × Outcome
  run_console s = in_console (start_server os disk s)

  abbrev in_service : os.State × Option Text → os.State × Outcome
  in_service (s, log) = (s, run_service log)

  abbrev pub run_default : Result Bool → os.State → os.State × Outcome
  run_default (err m) s = (s, fatal (codes "cannot determine service session: " ++ m))
  run_default (ok true) s = in_service (setup_service_logging s)
  run_default (ok false) s = run_console s

  abbrev pub run_command : Text → os.State → os.State × Outcome
  run_command command s =
      if text_eq command (codes "install")
      then must (codes "FastFlow helper installed.") (install_service s)
      else if text_eq command (codes "uninstall")
      then must (codes "FastFlow helper removed.") (uninstall_service s)
      else if text_eq command (codes "debug")
      then run_console s
      else run_default manager.is_windows_service s

  -- `main`, on `os.Args`.
  unfoldable pub main : List Text → os.State → os.State × Outcome
  unfolding install_service uninstall_service setup_service_logging run_console
  main (program ∷ command ∷ rest) s = run_command command s
  main args s = run_default manager.is_windows_service s
