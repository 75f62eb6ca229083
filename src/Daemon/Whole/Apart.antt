-- ===== src/Daemon/Whole/Apart.antt =====
-- What windows_daemon does to the machine beside netsh.exe: the runs of route.exe, and the calls that
-- look at a peer's process.
use fastflow_client.Base.{ℕ, List}
use fastflow_client.Base.Calls.{Result, ok, err}
use fastflow_client.Base.Text.{Text, codes}
use fastflow_client.Daemon.Os.{Os, system32}
use fastflow_client.Daemon.Acl.{Disk}
use fastflow_client.Daemon.Process.{Processes, process_image_path, name_of}
use fastflow_client.Daemon.Security.{verify_client}
use fastflow_client.Daemon.Accept.{Phase, judging, Step, judge}
use fastflow_client.Daemon.Work.Invariant.{RouteKeeps}
use fastflow_client.Daemon.Whole.{inspected}

-- They leave the machine the same in what `same` compares.
pub record IsApart (os : Os) (processes : Processes os) (same : os.State → os.State → Type 0)
    : Type 0 where
  pub route :
      (args : List Text) (s : os.State) → same s (os.run (system32 os (codes "route.exe")) args s).0
  pub open_process : (pid : ℕ) (s : os.State) → same s (processes.open_process pid s).0
  pub image_name : (h : ℕ) (s : os.State) → same s (processes.image_name h s).0
  pub close_handle : (h : ℕ) (s : os.State) → same s (processes.close_handle h s)

-- What holds of a machine holds of one that is the same.
module _ (os : Os) (disk : Disk os) (processes : Processes os) (same : os.State → os.State → Type 0)
    (apart : IsApart os processes same) (I : os.State → Type 0)
    (carry : (s t : os.State) → same s t → I s → I t) where
  pub route-RouteKeeps : RouteKeeps os I
  route-RouteKeeps args s i =
      carry s (os.run (system32 os (codes "route.exe")) args s).0 (apart.route args s) i

  name_of_keeps : (r : os.State × Result ℕ) → I r.0 → I (name_of os processes r).0
  name_of_keeps (t, err m) i = i
  name_of_keeps (t, ok h) i =
      let named = (processes.image_name h t).0 in
      carry named (processes.close_handle h named) (apart.close_handle h named)
        (carry t named (apart.image_name h t) i)

  pub verify_client_keeps :
      (pid : ℕ) (s : os.State) → I s → I (verify_client os disk processes pid s).0
  unfolding verify_client process_image_path
  verify_client_keeps pid s i =
      name_of_keeps (processes.open_process pid s)
        (carry s (processes.open_process pid s).0 (apart.open_process pid s) i)

  pub inspected_keeps :
      (a : Step) (phase : Phase) (s : os.State) → I s → I (inspected os disk processes a phase s)
  inspected_keeps judge (judging h pid) s i = verify_client_keeps pid s i
  inspected_keeps _ _ s i = i
