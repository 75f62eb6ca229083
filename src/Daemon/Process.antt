-- ===== src/Daemon/Process.antt =====
-- `processImagePath` of windows_daemon/security.go. What Windows does is the parameter `Processes`.
use fastflow_client.Base.{ℕ, [], ◌∷◌}
use fastflow_client.Base.Calls.{Result, ok, err}
use fastflow_client.Base.Text.{Text}
use fastflow_client.Daemon.Os.{Os}
use fastflow_client.Daemon.Handles.{
  Resource, process, deferring, Keeps, Takes, Gives, Owing-start, Owing-none, Owing-keep,
  Owing-take, Owing-give,
}

pub record Processes (os : Os) : Type 0 where
  pub open_process : ℕ → os.State → os.State × Result ℕ
  pub image_name : ℕ → os.State → os.State × Result Text
  pub close_handle : ℕ → os.State → os.State

module _ (os : Os) (processes : Processes os) where
  abbrev pub name_of : os.State × Result ℕ → os.State × Result Text
  name_of (s, err m) = (s, err m)
  name_of (s, ok h) = deferring (processes.close_handle h) (processes.image_name h s)

  unfoldable pub process_image_path : ℕ → os.State → os.State × Result Text
  process_image_path pid s = name_of (processes.open_process pid s)

  abbrev AfterOpen : (os.State → Resource → ℕ) → os.State → os.State × Result ℕ → Type 0
  AfterOpen held s (t, err m) = Keeps held s t
  AfterOpen held s (t, ok h) = Takes held (process, h) s t

  -- Windows as documented, on handles of processes.
  pub record IsCounted (held : os.State → Resource → ℕ) : Type 0 where
    pub open_process : (pid : ℕ) (s : os.State) → AfterOpen held s (processes.open_process pid s)
    pub image_name : (h : ℕ) (s : os.State) → Keeps held s (processes.image_name h s).0
    pub close_handle :
        (h : ℕ) (s : os.State) → Gives held (process, h) s (processes.close_handle h s)

module _ (os : Os) (processes : Processes os) (held : os.State → Resource → ℕ)
    (law : IsCounted os processes held) (start : os.State) where
  name_of-Keeps :
      (r : os.State × Result ℕ)
      → AfterOpen os processes held start r
      → Keeps held start (name_of os processes r).0
  name_of-Keeps (t, err m) k = k
  name_of-Keeps (t, ok h) k =
      let named = (processes.image_name h t).0 in
      let closed = processes.close_handle h named in
      Owing-none held start closed (
        Owing-give held (process, h) [] start named closed
          (Owing-keep held ((process, h) ∷ []) start t named
            (Owing-take held (process, h) [] start start t (Owing-start held start) k)
            (law.image_name h t))
          (law.close_handle h named))

  pub process_image_path-Keeps :
      (pid : ℕ) → Keeps held start (process_image_path os processes pid start).0
  unfolding process_image_path
  process_image_path-Keeps pid =
      name_of-Keeps (processes.open_process pid start) (law.open_process pid start)
