-- ===== src/Daemon/Security/Peer.antt =====
-- Whom windows_daemon trusts: the peer's image in security.go, the directory's owner in acl.go.
use fastflow_client.Base.{ℕ, ◌≡◌, ◌↔◌, true, none, some, ◌++◌, arith, ◌≢◌, List}
use fastflow_client.Base.Calls.{Result, ok, err}
use fastflow_client.Base.Text.{Text, codes}
use fastflow_client.Daemon.Os.{Os}
use fastflow_client.Daemon.Process.{Processes, process_image_path}
use fastflow_client.Daemon.Acl.{
  Disk, already_exists, fastflow_sddl, fastflow_dir, ensure_secure_dir, verify_dir_trusted,
}
use fastflow_client.Daemon.Security.{
  load_or_create_token, verify_client, expected_client_path, equal_fold, judge_image, token_bytes,
  hex_encode,
}

module _ (os : Os) (disk : Disk os) where
  judge_image_ok :
      (pid : ℕ) (r : Result Text) (path : Text)
      → (judge_image os disk pid r ≡ ok path)
        ↔ ((r ≡ ok path) × (equal_fold os.fold path (expected_client_path os disk) ≡ true))
  judge_image_ok pid (err m) path = (λ e. cc, λ e. cc)
  judge_image_ok pid (ok p) path = (λ e. ground arith, λ e. ground arith)

  -- A process is accepted, with the path of its image, exactly where that is the path that
  -- `processImagePath` finds for the process, and it equals, up to the case of letters, the one
  -- path that is expected.
  pub verify_client_iff :
      (processes : Processes os) (pid : ℕ) (s : os.State) (path : Text)
      → ((verify_client os disk processes pid s).1 ≡ ok path) ↔ (
          ((process_image_path os processes pid s).1 ≡ ok path)
          × (equal_fold os.fold path (expected_client_path os disk) ≡ true))
  unfolding verify_client
  verify_client_iff processes pid s path =
      judge_image_ok pid (process_image_path os processes pid s).1 path

  -- The conversions that come before the directory is looked at.
  pub record IsPrepared : Type 0 where
    pub sddl : disk.parse_sddl fastflow_sddl ≡ none
    pub owner : disk.sddl_owner fastflow_sddl ≡ none
    pub dacl : disk.sddl_dacl fastflow_sddl ≡ none
    pub name : disk.utf16 (fastflow_dir os disk) ≡ none

  -- A file that is removed cannot be read, nor can it once another one is removed as well.
  pub record IsErasing : Type 0 where
    pub gone : (p : Text) (s : os.State) (t : Text) → disk.read_file p (disk.remove_file p s) ≢ ok t
    pub stays_gone :
        (p q : Text) (s : os.State)
        → ((t : Text) → disk.read_file p s ≢ ok t)
        → (t : Text) → disk.read_file p (disk.remove_file q s) ≢ ok t

  -- A token that is made of the bytes which `rand.Read` returns in a state of the machine.
  abbrev pub IsFresh : os.State → Text → Type 0
  IsFresh u t = (buf : List ℕ) × ((disk.random token_bytes u).1 ≡ ok buf) × (t ≡ hex_encode buf)

  -- Where the directory exists, its owner is not trusted and cannot be replaced, the server gets no
  -- token and the disk is not read.
  pub load_or_create_token_refused :
      (s s' : os.State) (m n : Text)
      → IsPrepared
      → disk.create_directory (fastflow_dir os disk) s ≡ (s', already_exists)
      → verify_dir_trusted os disk (fastflow_dir os disk) s' ≡ some m
      → (disk.set_security (fastflow_dir os disk) s').1 ≡ some n
      → (t : Text) × ((load_or_create_token os disk s).1 ≡ err t)
  unfolding load_or_create_token ensure_secure_dir
  load_or_create_token_refused s s' m n p c v o = (
    codes "secure data dir: "
        ++ (codes "reclaim " ++ (os.quote (fastflow_dir os disk) ++ (codes ": " ++ n))),
    ground arith,
  )
