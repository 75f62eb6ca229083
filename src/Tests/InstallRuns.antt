-- ===== src/Tests/InstallRuns.antt =====
-- The registration of the service on a machine where it is not there yet.
use fastflow_client.Base.{ℕ, ◌≡◌, refl, ◌⊎◌, Bool, true, false, none, List, [], ◌∷◌}
use fastflow_client.Base.Calls.{Result, ok, err}
use fastflow_client.Base.Text.{Text, codes, text_eq}
use fastflow_client.Daemon.Os.{Os}
use fastflow_client.Daemon.Acl.{Disk, created, ensure_secure_dir}
use fastflow_client.Daemon.Install.{Manager, main, printed, fatal}
use fastflow_client.Daemon.Install.Registration.{IsManager, AfterCreate, main_install}

-- The state says whether the service is there.
abbrev pc : Os
pc = record {
  State = Bool;
  getenv = λ name. [];
  join = λ parts. [];
  quote = λ s. s;
  fold = λ c. c;
  run = λ tool args s. (s, none);
}

abbrev volume : Disk pc
volume = record {
  parse_sddl = λ t. none;
  sddl_owner = λ t. none;
  sddl_dacl = λ t. none;
  utf16 = λ t. none;
  create_directory = λ dir s. (s, created);
  owner_of = λ dir s. ok (codes "SYSTEM");
  system_sid = ok (codes "SYSTEM");
  administrators_sid = ok (codes "Administrators");
  set_security = λ dir s. (s, none);
  remove_file = λ p s. s;
  read_file = λ p s. err (codes "not found");
  write_file = λ p t s. (s, none);
  random = λ n s. (s, ok []);
}

abbrev open_in : Bool → Bool × Result ℕ
open_in true = (true, ok 2)
open_in false = (false, err (codes "does not exist"))

abbrev create_in : Bool → Bool × Result ℕ
create_in true = (true, err (codes "exists"))
create_in false = (true, ok 2)

abbrev scm : Manager pc
scm = record {
  executable = λ s. (s, ok (codes "daemon.exe"));
  connect = λ s. (s, ok 1);
  disconnect = λ m s. s;
  open_service = λ m name s. open_in s;
  create_service = λ m name exe config s. create_in s;
  delete_service = λ h s. (false, none);
  close_service = λ h s. s;
  open_log = λ path s. (s, none);
  is_windows_service = ok false;
}

abbrev is_there : Bool → Bool
is_there s = s

creates : (s : Bool) → AfterCreate pc is_there s (create_in s)
creates true = refl
creates false = (refl, refl)

opens : (s : Bool) → is_there (open_in s).0 ≡ is_there s
opens true = refl
opens false = refl

scm-IsManager : IsManager pc volume scm is_there
scm-IsManager = record {
  create_service = λ m exe s. creates s;
  executable = λ s. refl;
  connect = λ s. refl;
  disconnect = λ m s. refl;
  open_service = λ m s. opens s;
  close_service = λ h s. refl;
  directory = record {
    create_directory = λ dir s. refl;
    set_security = λ dir s. refl;
    remove_file = λ p s. refl;
  };
}

abbrev arguments : List Text
arguments = codes "daemon.exe" ∷ codes "install" ∷ []

installs : (main pc volume scm arguments false).1 ≡ printed (codes "FastFlow helper installed.")
unfolding main ensure_secure_dir codes text_eq
installs = refl

installs_once :
    (main pc volume scm arguments (main pc volume scm arguments false).0).1
    ≡ fatal (codes "service FastFlowHelper already installed")
unfolding main ensure_secure_dir codes text_eq
installs_once = refl

main_install_example :
    (((main pc volume scm arguments false).1 ≡ printed (codes "FastFlow helper installed."))
      × (is_there false ≡ false)
      × (is_there (main pc volume scm arguments false).0 ≡ true))
    ⊎ ((m : Text) × ((main pc volume scm arguments false).1 ≡ fatal m)
        × (is_there (main pc volume scm arguments false).0 ≡ is_there false))
main_install_example =
    main_install pc volume scm is_there scm-IsManager (codes "daemon.exe") [] false
