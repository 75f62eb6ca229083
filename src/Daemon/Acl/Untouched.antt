-- ===== src/Daemon/Acl/Untouched.antt =====
-- What `ensureSecureDir` of windows_daemon/acl.go leaves alone.
use fastflow_client.Base.{◌≡◌, refl, arith}
use fastflow_client.Base.Text.{Text}
use fastflow_client.Daemon.Os.{Os}
use fastflow_client.Daemon.Acl.{
  Disk, Creation, created, already_exists, create_failed, token_path, client_allowlist_path,
  ensure_secure_dir, after_creation,
}

module _ (os : Os) (disk : Disk os) {B : Type 0} (view : os.State → B) where
  -- What is seen of the machine does not depend on the data directory.
  pub record IsElsewhere : Type 0 where
    pub create_directory :
        (dir : Text) (s : os.State) → view (disk.create_directory dir s).0 ≡ view s
    pub set_security : (dir : Text) (s : os.State) → view (disk.set_security dir s).0 ≡ view s
    pub remove_file : (p : Text) (s : os.State) → view (disk.remove_file p s) ≡ view s

  module _ (law : IsElsewhere) where
    after_creation-view :
        (dir : Text) (r : os.State × Creation) → view (after_creation os disk dir r).0 ≡ view r.0
    after_creation-view dir (s, created) = refl
    after_creation-view dir (s, create_failed m) = refl
    after_creation-view dir (s, already_exists) =
        let t = (disk.set_security dir s).0 in
        let u = disk.remove_file (token_path os disk) t in
        ground (
          arith,
          law.set_security dir s,
          law.remove_file (token_path os disk) t,
          law.remove_file (client_allowlist_path os disk) u,
        )

    pub ensure_secure_dir-view :
        (dir : Text) (s : os.State) → view (ensure_secure_dir os disk dir s).0 ≡ view s
    unfolding ensure_secure_dir
    ensure_secure_dir-view dir s =
        ground
          (arith, law.create_directory dir s, after_creation-view dir (disk.create_directory dir s))
