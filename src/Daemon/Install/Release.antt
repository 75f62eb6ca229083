-- ===== src/Daemon/Install/Release.antt =====
-- windows_daemon/install.go gives back the handles that it takes of the service manager.
use fastflow_client.Base.{ℕ, Option, none, some, List, [], ◌∷◌}
use fastflow_client.Base.Calls.{Result, ok, err}
use fastflow_client.Base.Text.{Text}
use fastflow_client.Daemon.Os.{Os}
use fastflow_client.Daemon.Acl.{Disk, fastflow_dir, ensure_secure_dir}
use fastflow_client.Daemon.Handles.{
  Kind, Resource, manager, service, Owing, Keeps, Takes, Gives, Owing-start, Owing-none, Owing-keep,
  Owing-take, Owing-give,
}
use fastflow_client.Daemon.Acl.Untouched.{IsElsewhere, ensure_secure_dir-view}
use fastflow_client.Daemon.Install.{
  Manager, service_name, helper_config, created_service, register, install_with, install_in,
  install_from, install_service, deleted_service, unregister, uninstall_with, uninstall_service,
}

abbrev pub AfterCall :
    (os : Os) → (os.State → Resource → ℕ) → Kind → os.State → os.State × Result ℕ → Type 0
AfterCall os held kind s (t, err m) = Keeps held s t
AfterCall os held kind s (t, ok h) = Takes held (kind, h) s t

-- The service manager as documented, on handles: a call that succeeds in connecting, opening or
-- creating hands one out, no other call and nothing that is done to the data directory does, and each
-- is given back by the call for its kind.
pub record IsCounted (os : Os) (disk : Disk os) (m : Manager os) (held : os.State → Resource → ℕ)
    : Type 0 where
  pub executable : (s : os.State) → Keeps held s (m.executable s).0
  pub directory : (k : Resource) → IsElsewhere os disk (λ s. held s k)
  pub connect : (s : os.State) → AfterCall os held manager s (m.connect s)
  pub open_service :
      (c : ℕ) (s : os.State) → AfterCall os held service s (m.open_service c service_name s)
  pub create_service :
      (c : ℕ) (exe : Text) (s : os.State)
      → AfterCall os held service s (m.create_service c service_name exe helper_config s)
  pub delete_service : (h : ℕ) (s : os.State) → Keeps held s (m.delete_service h s).0
  pub disconnect : (c : ℕ) (s : os.State) → Gives held (manager, c) s (m.disconnect c s)
  pub close_service : (h : ℕ) (s : os.State) → Gives held (service, h) s (m.close_service h s)

module _ (os : Os) (disk : Disk os) (m : Manager os) (held : os.State → Resource → ℕ)
    (law : IsCounted os disk m held) (start : os.State) where
  abbrev Owes : List Resource → os.State → Type 0
  Owes rs t = Owing held rs start t

  after_ok :
      (kind : Kind) (rs : List Resource) (t u : os.State) (h : ℕ)
      → Owes rs t
      → AfterCall os held kind t (u, ok h)
      → Owes ((kind, h) ∷ rs) u
  after_ok kind rs t u h o k = Owing-take held (kind, h) rs start t u o k

  after_err :
      (kind : Kind) (rs : List Resource) (t u : os.State) (e : Text)
      → Owes rs t
      → AfterCall os held kind t (u, err e)
      → Owes rs u
  after_err kind rs t u e o k = Owing-keep held rs start t u o k

  close-Owes :
      (rs : List Resource) (h : ℕ) (t : os.State)
      → Owes ((service, h) ∷ rs) t
      → Owes rs (m.close_service h t)
  close-Owes rs h t o =
      Owing-give held (service, h) rs start t (m.close_service h t) o (law.close_service h t)

  disconnect-Owes :
      (rs : List Resource) (c : ℕ) (t : os.State)
      → Owes ((manager, c) ∷ rs) t
      → Owes rs (m.disconnect c t)
  disconnect-Owes rs c t o =
      Owing-give held (manager, c) rs start t (m.disconnect c t) o (law.disconnect c t)

  created_service-Owes :
      (rs : List Resource) (t : os.State) (r : os.State × Result ℕ)
      → Owes rs t
      → AfterCall os held service t r
      → Owes rs (created_service os disk m r).0
  created_service-Owes rs t (u, err e) o k = after_err service rs t u e o k
  created_service-Owes rs t (u, ok h) o k = close-Owes rs h u (after_ok service rs t u h o k)

  register-Owes :
      (rs : List Resource) (exe : Text) (c : ℕ) (t : os.State) (r : os.State × Result ℕ)
      → Owes rs t
      → AfterCall os held service t r
      → Owes rs (register os disk m exe c r).0
  register-Owes rs exe c t (u, ok h) o k = close-Owes rs h u (after_ok service rs t u h o k)
  register-Owes rs exe c t (u, err e) o k =
      created_service-Owes rs u (m.create_service c service_name exe helper_config u)
        (after_err service rs t u e o k) (law.create_service c exe u)

  install_with-Owes :
      (exe : Text) (t : os.State) (r : os.State × Result ℕ)
      → Owes [] t
      → AfterCall os held manager t r
      → Owes [] (install_with os disk m exe r).0
  install_with-Owes exe t (u, err e) o k = after_err manager [] t u e o k
  install_with-Owes exe t (u, ok c) o k =
      let opened = m.open_service c service_name u in
      disconnect-Owes [] c (register os disk m exe c opened).0 (
        register-Owes ((manager, c) ∷ []) exe c u opened (after_ok manager [] t u c o k)
          (law.open_service c u))

  install_in-Owes :
      (exe : Text) (r : os.State × Option Text)
      → Owes [] r.0
      → Owes [] (install_in os disk m exe r).0
  install_in-Owes exe (t, some e) o = o
  install_in-Owes exe (t, none) o = install_with-Owes exe t (m.connect t) o (law.connect t)

  install_from-Owes :
      (r : os.State × Result Text) → Owes [] r.0 → Owes [] (install_from os disk m r).0
  install_from-Owes (t, err e) o = o
  install_from-Owes (t, ok exe) o =
      let secured = ensure_secure_dir os disk (fastflow_dir os disk) t in
      install_in-Owes exe secured (
        Owing-keep held [] start t secured.0 o (λ k.
          ensure_secure_dir-view os disk (λ s. held s k) (law.directory k) (fastflow_dir os disk)
            t))

  deleted_service-Owes :
      (rs : List Resource) (r : os.State × Option Text)
      → Owes rs r.0
      → Owes rs (deleted_service os disk m r).0
  deleted_service-Owes rs (t, none) o = o
  deleted_service-Owes rs (t, some e) o = o

  unregister-Owes :
      (rs : List Resource) (t : os.State) (r : os.State × Result ℕ)
      → Owes rs t
      → AfterCall os held service t r
      → Owes rs (unregister os disk m r).0
  unregister-Owes rs t (u, err e) o k = after_err service rs t u e o k
  unregister-Owes rs t (u, ok h) o k =
      let deleted = m.delete_service h u in
      close-Owes rs h (deleted_service os disk m deleted).0 (
        deleted_service-Owes ((service, h) ∷ rs) deleted (
          Owing-keep held ((service, h) ∷ rs) start u deleted.0 (after_ok service rs t u h o k)
            (law.delete_service h u)))

  uninstall_with-Owes :
      (t : os.State) (r : os.State × Result ℕ)
      → Owes [] t
      → AfterCall os held manager t r
      → Owes [] (uninstall_with os disk m r).0
  uninstall_with-Owes t (u, err e) o k = after_err manager [] t u e o k
  uninstall_with-Owes t (u, ok c) o k =
      let opened = m.open_service c service_name u in
      disconnect-Owes [] c (unregister os disk m opened).0 (
        unregister-Owes ((manager, c) ∷ []) u opened (after_ok manager [] t u c o k)
          (law.open_service c u))

  pub install_service-Keeps : Keeps held start (install_service os disk m start).0
  unfolding install_service
  install_service-Keeps =
      let found = m.executable start in
      Owing-none held start (install_from os disk m found).0 (
        install_from-Owes found
          (Owing-keep held [] start start found.0 (Owing-start held start) (law.executable start)))

  pub uninstall_service-Keeps : Keeps held start (uninstall_service os disk m start).0
  unfolding uninstall_service
  uninstall_service-Keeps =
      Owing-none held start (uninstall_with os disk m (m.connect start)).0
        (uninstall_with-Owes start (m.connect start) (Owing-start held start) (law.connect start))
