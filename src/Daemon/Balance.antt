-- ===== src/Daemon/Balance.antt =====
-- The functions of windows_daemon that take handles of Windows and give them back: security.go,
-- authenticode.go and install.go.
use fastflow_client.Base.{ℕ}
use fastflow_client.Base.Text.{Text}
use fastflow_client.Daemon.Os.{Os}
use fastflow_client.Daemon.Acl.{Disk}
use fastflow_client.Daemon.Handles.{Resource, Keeps}
use fastflow_client.Daemon.Process.{Processes, process_image_path-Keeps}
use fastflow_client.Daemon.Process as Process
use fastflow_client.Daemon.Security.{verify_client}
use fastflow_client.Daemon.Authenticode.{Crypto, verify_authenticode, verify_signer_cn}
use fastflow_client.Daemon.Authenticode.Release as Authenticode
use fastflow_client.Daemon.Install.{Manager, install_service, uninstall_service}
use fastflow_client.Daemon.Install.Release as Install

module _ (os : Os) (disk : Disk os) (held : os.State → Resource → ℕ) where
  -- Windows as documented, on the handles of processes, signatures and services.
  pub record AreCounted (processes : Processes os) (crypto : Crypto os) (manager : Manager os)
      : Type 0 where
    pub of_processes : Process.IsCounted os processes held
    pub of_crypto : Authenticode.IsCounted os crypto held
    pub of_manager : Install.IsCounted os disk manager held

  -- Where Windows hands out and takes back handles as documented: neither the check of a client's
  -- process, nor that of a program's signature or of its signer, nor the installation or the removal
  -- of the service leaves a handle behind. On whatever path they return, each resource is held as
  -- often as before.
  pub functions-Keeps :
      (processes : Processes os) (crypto : Crypto os) (manager : Manager os)
      → AreCounted processes crypto manager
      → (pid : ℕ) (path want : Text) (s : os.State)
      → Keeps held s (verify_client os disk processes pid s).0
        × Keeps held s (verify_authenticode os disk crypto path s).0
        × Keeps held s (verify_signer_cn os disk crypto path want s).0
        × Keeps held s (install_service os disk manager s).0
        × Keeps held s (uninstall_service os disk manager s).0
  unfolding verify_client
  functions-Keeps processes crypto manager law pid path want s = (
    process_image_path-Keeps os processes held law.of_processes s pid,
    Authenticode.verify_authenticode-Keeps os disk crypto held law.of_crypto path want s,
    Authenticode.verify_signer_cn-Keeps os disk crypto held law.of_crypto path want s,
    Install.install_service-Keeps os disk manager held law.of_manager s,
    Install.uninstall_service-Keeps os disk manager held law.of_manager s,
  )
