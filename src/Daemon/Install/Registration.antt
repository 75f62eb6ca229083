-- ===== src/Daemon/Install/Registration.antt =====
-- What `installService` of windows_daemon/install.go and `main` of main.go register.
use fastflow_client.Base.{
  ℕ, ◌≡◌, refl, ◌⊎◌, inl, inr, Bool, true, false, Option, none, some, List, ◌∷◌, arith,
}
use fastflow_client.Base.Calls.{Result, ok, err}
use fastflow_client.Base.Text.{Text, codes, text_eq}
use fastflow_client.Daemon.Os.{Os}
use fastflow_client.Daemon.Acl.{Disk, fastflow_dir, ensure_secure_dir}
use fastflow_client.Daemon.Acl.Untouched.{IsElsewhere, ensure_secure_dir-view}
use fastflow_client.Daemon.Install.{
  Manager, service_name, helper_config, created_service, register, install_with, install_in,
  install_from, install_service, printed, fatal, must, main,
}

abbrev pub AfterCreate : (os : Os) → (os.State → Bool) → os.State → os.State × Result ℕ → Type 0
AfterCreate os installed s (t, err m) = installed t ≡ installed s
AfterCreate os installed s (t, ok h) = (installed s ≡ false) × (installed t ≡ true)

-- The service manager as documented, on whether the service is registered: it is created only where
-- there is none of its name, and no other call of `installService` registers or removes it.
pub record IsManager (os : Os) (disk : Disk os) (manager : Manager os) (installed : os.State → Bool)
    : Type 0 where
  pub create_service :
      (m : ℕ) (exe : Text) (s : os.State)
      → AfterCreate os installed s (manager.create_service m service_name exe helper_config s)
  pub executable : (s : os.State) → installed (manager.executable s).0 ≡ installed s
  pub connect : (s : os.State) → installed (manager.connect s).0 ≡ installed s
  pub disconnect : (m : ℕ) (s : os.State) → installed (manager.disconnect m s) ≡ installed s
  pub open_service :
      (m : ℕ) (s : os.State) → installed (manager.open_service m service_name s).0 ≡ installed s
  pub close_service : (h : ℕ) (s : os.State) → installed (manager.close_service h s) ≡ installed s
  pub directory : IsElsewhere os disk installed

module _ (os : Os) (disk : Disk os) (manager : Manager os) (installed : os.State → Bool)
    (law : IsManager os disk manager installed) where
  -- An error leaves the registration alone, and success is a new registration.
  abbrev pub Registers : os.State → os.State × Option Text → Type 0
  Registers s (t, some m) = installed t ≡ installed s
  Registers s (t, none) = (installed s ≡ false) × (installed t ≡ true)

  Registers-from :
      (s t : os.State) (r : os.State × Option Text)
      → installed t ≡ installed s
      → Registers t r
      → Registers s r
  Registers-from s t (u, none) e k = ground arith
  Registers-from s t (u, some m) e k = ground arith

  Registers-to :
      (s t u : os.State) (o : Option Text)
      → installed u ≡ installed t
      → Registers s (t, o)
      → Registers s (u, o)
  Registers-to s t u none e k = ground arith
  Registers-to s t u (some m) e k = ground arith

  created_service-Registers :
      (s : os.State) (r : os.State × Result ℕ)
      → AfterCreate os installed s r
      → Registers s (created_service os disk manager r)
  created_service-Registers s (t, err m) k = k
  created_service-Registers s (t, ok h) k = ground (arith, law.close_service h t)

  register-Registers :
      (exe : Text) (m : ℕ) (r : os.State × Result ℕ)
      → Registers r.0 (register os disk manager exe m r)
  register-Registers exe m (s, ok h) = law.close_service h s
  register-Registers exe m (s, err e) =
      created_service-Registers s (manager.create_service m service_name exe helper_config s)
        (law.create_service m exe s)

  install_with-Registers :
      (exe : Text) (r : os.State × Result ℕ) → Registers r.0 (install_with os disk manager exe r)
  install_with-Registers exe (s, err m) = refl
  install_with-Registers exe (s, ok m) =
      let opened = manager.open_service m service_name s in
      let done = register os disk manager exe m opened in
      Registers-from s opened.0 (manager.disconnect m done.0, done.1) (law.open_service m s)
        (Registers-to opened.0 done.0 (manager.disconnect m done.0) done.1 (law.disconnect m done.0)
          (register-Registers exe m opened))

  install_in-Registers :
      (exe : Text) (r : os.State × Option Text) → Registers r.0 (install_in os disk manager exe r)
  install_in-Registers exe (s, some m) = refl
  install_in-Registers exe (s, none) =
      let connected = manager.connect s in
      Registers-from s connected.0 (install_with os disk manager exe connected) (law.connect s)
        (install_with-Registers exe connected)

  install_from-Registers :
      (r : os.State × Result Text) → Registers r.0 (install_from os disk manager r)
  install_from-Registers (s, err m) = refl
  install_from-Registers (s, ok exe) =
      let secured = ensure_secure_dir os disk (fastflow_dir os disk) s in
      Registers-from s secured.0 (install_in os disk manager exe secured)
        (ensure_secure_dir-view os disk installed law.directory (fastflow_dir os disk) s)
        (install_in-Registers exe secured)

  install_service-Registers : (s : os.State) → Registers s (install_service os disk manager s)
  unfolding install_service
  install_service-Registers s =
      Registers-from s (manager.executable s).0
        (install_from os disk manager (manager.executable s)) (law.executable s)
        (install_from-Registers (manager.executable s))

  must-Registers :
      (s : os.State) (line : Text) (r : os.State × Option Text)
      → Registers s r
      → (((must os disk manager line r).1 ≡ printed line)
          × (installed s ≡ false)
          × (installed (must os disk manager line r).0 ≡ true))
        ⊎ ((m : Text) × ((must os disk manager line r).1 ≡ fatal m)
            × (installed (must os disk manager line r).0 ≡ installed s))
  must-Registers s line (t, none) (new, is) = inl (refl, new, is)
  must-Registers s line (t, some m) k = inr (m, refl, k)

  -- Where the service manager does what is documented, and nothing that is done to the data directory
  -- registers or removes the service: with the command "install" the program prints that the helper
  -- is installed and has registered a service that was not there, or it ends with an error and
  -- whether the service is registered is as before.
  pub main_install :
      (program : Text) (rest : List Text) (s : os.State)
      → let r = main os disk manager (program ∷ codes "install" ∷ rest) s in
        ((r.1 ≡ printed (codes "FastFlow helper installed."))
          × (installed s ≡ false)
          × (installed r.0 ≡ true))
        ⊎ ((m : Text) × (r.1 ≡ fatal m) × (installed r.0 ≡ installed s))
  unfolding main text_eq codes
  main_install program rest s =
      must-Registers s (codes "FastFlow helper installed.") (install_service os disk manager s)
        (install_service-Registers s)
