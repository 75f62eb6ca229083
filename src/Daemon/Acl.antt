-- ===== src/Daemon/Acl.antt =====
-- windows_daemon/acl.go: the data directory and its owner. What Windows does is the parameter `Disk`.
pub mod Untouched
use fastflow_client.Base.{ℕ, ◌||◌, Option, none, some, List, [], ◌∷◌, ◌++◌, if◌then◌else◌}
use fastflow_client.Base.Calls.{Result, ok, err}
use fastflow_client.Base.Text.{Text, codes, text_eq}
use fastflow_client.Daemon.Os.{Os, or_default}

pub data Creation : Type 0 where
  created already_exists : Creation
  create_failed : Text → Creation

-- The file system and its security, over the states of `os`. A SID is a text.
pub record Disk (os : Os) : Type 0 where
  pub parse_sddl : Text → Option Text
  pub sddl_owner : Text → Option Text
  pub sddl_dacl : Text → Option Text
  pub utf16 : Text → Option Text
  pub create_directory : Text → os.State → os.State × Creation
  pub owner_of : Text → os.State → Result Text
  pub system_sid : Result Text
  pub administrators_sid : Result Text
  pub set_security : Text → os.State → os.State × Option Text
  pub remove_file : Text → os.State → os.State
  pub read_file : Text → os.State → Result Text
  pub write_file : Text → Text → os.State → os.State × Option Text
  pub random : ℕ → os.State → os.State × Result (List ℕ)  -- `rand.Read` into so many bytes

abbrev pub fastflow_sddl : Text
fastflow_sddl = codes "O:BAG:BAD:P(A;OICI;FA;;;SY)(A;OICI;FA;;;BA)(A;OICI;FR;;;BU)"

module _ (os : Os) (disk : Disk os) where
  unfoldable pub fastflow_dir : Text
  fastflow_dir = os.join (
      or_default os (os.getenv (codes "ProgramData")) (codes "C:\\ProgramData")
      ∷ codes "FastFlow"
      ∷ [])

  unfoldable pub token_path : Text
  unfolding fastflow_dir
  token_path = os.join (fastflow_dir ∷ codes "daemon.token" ∷ [])

  unfoldable pub client_allowlist_path : Text
  unfolding fastflow_dir
  client_allowlist_path = os.join (fastflow_dir ∷ codes "client_allowlist.txt" ∷ [])

  abbrev pub judge_owner : Text → Text → Text → Text → Option Text
  judge_owner dir owner system admins =
      if text_eq owner system || text_eq owner admins
      then none
      else some (codes "untrusted owner on " ++ (os.quote dir ++ (codes ": " ++ owner)))

  -- `verifyDirTrusted`
  unfoldable pub verify_dir_trusted : Text → os.State → Option Text
  verify_dir_trusted dir s = elim (disk.owner_of dir s) [
    | err m ↦ some m
    | ok owner ↦ elim disk.system_sid [
      | err m ↦ some m
      | ok system ↦ elim disk.administrators_sid [
        | err m ↦ some m
        | ok admins ↦ judge_owner dir owner system admins
      ]
    ]
  ]

  abbrev pub purge : os.State → os.State
  purge s = disk.remove_file client_allowlist_path (disk.remove_file token_path s)

  abbrev pub reclaim : Text → os.State → os.State × Option Text
  reclaim dir s = elim (disk.set_security dir s).1 [
    | some m ↦ (
      (disk.set_security dir s).0,
      some (codes "reclaim " ++ (os.quote dir ++ (codes ": " ++ m))),
    )
    | none ↦ (purge (disk.set_security dir s).0, none)
  ]

  abbrev pub take_over : Text → os.State → os.State × Option Text
  take_over dir s = elim (verify_dir_trusted dir s) [ none ↦ (s, none) | some _ ↦ reclaim dir s ]

  abbrev pub after_creation : Text → os.State × Creation → os.State × Option Text
  after_creation dir (s, created) = (s, none)
  after_creation dir (s, create_failed m) =
      (s, some (codes "create " ++ (os.quote dir ++ (codes ": " ++ m))))
  after_creation dir (s, already_exists) = take_over dir s

  unfoldable pub ensure_secure_dir : Text → os.State → os.State × Option Text
  ensure_secure_dir dir s = elim (disk.parse_sddl fastflow_sddl) [
    | some m ↦ (s, some (codes "parse sddl: " ++ m))
    | none ↦ elim (disk.sddl_owner fastflow_sddl) [
      | some m ↦ (s, some (codes "read sddl owner: " ++ m))
      | none ↦ elim (disk.sddl_dacl fastflow_sddl) [
        | some m ↦ (s, some (codes "read sddl dacl: " ++ m))
        | none ↦ elim (disk.utf16 dir) [
          | some m ↦ (s, some m)
          | none ↦ after_creation dir (disk.create_directory dir s)
        ]
      ]
    ]
  ]
