-- ===== src/Daemon/Security.antt =====
-- windows_daemon/security.go: the shared secret, and the check of the process behind a connection.
pub mod Token
pub mod Peer
use fastflow_client.Base.{
  ℕ, ◌+◌, ◌-◌, ◌/◌, ◌%◌, Bool, true, false, ◌&&◌, Option, none, some, List, [], ◌∷◌, ◌++◌,
  if◌then◌else◌, length, ◌==◌, ltb, leb,
}
use fastflow_client.Base.Calls.{Result, ok, err}
use fastflow_client.Base.Int.{pos}
use fastflow_client.Base.Text.{Text, codes, text_eq, trim_space, byte_len, show_ℕ}
use fastflow_client.Daemon.Os.{Os, or_default}
use fastflow_client.Daemon.Process.{Processes, process_image_path}
use fastflow_client.Daemon.Acl.{Disk, fastflow_dir, token_path, ensure_secure_dir}

abbrev pub hex_digit : ℕ → ℕ
hex_digit n = if ltb n 10 then b'0' + n else b'a' + (n - 10)

-- `hex.EncodeToString`
unfoldable pub hex_encode : List ℕ → Text
hex_encode [] = []
hex_encode (b ∷ l) = hex_digit (b / 16) ∷ hex_digit (b % 16) ∷ hex_encode l

-- The token that a file's text holds, if it is long enough.
unfoldable pub stored_token : Result Text → Option Text
unfolding trim_space byte_len
stored_token (err m) = none
stored_token (ok text) = let t = trim_space text in if leb 32 (byte_len t) then some t else none

-- `strings.EqualFold`, for the classes that `fold` makes of the code points.
unfoldable pub equal_fold : (ℕ → ℕ) → Text → Text → Bool
equal_fold fold [] [] = true
equal_fold fold (a ∷ s) (b ∷ t) = (fold a == fold b) && equal_fold fold s t
equal_fold fold _ _ = false

-- The length of the buffer that is filled for a new token.
abbrev pub token_bytes : ℕ
token_bytes = 32

module _ (os : Os) (disk : Disk os) where
  abbrev pub write_token : Text → os.State → os.State × Result Text
  write_token tok s = elim (disk.write_file (token_path os disk) tok s).1 [
    | some m ↦ ((disk.write_file (token_path os disk) tok s).0, err m)
    | none ↦ ((disk.write_file (token_path os disk) tok s).0, ok tok)
  ]

  abbrev pub new_token : os.State × Result (List ℕ) → os.State × Result Text
  new_token (s, err m) = (s, err m)
  new_token (s, ok buf) = write_token (hex_encode buf) s

  abbrev pub load_token : os.State → os.State × Result Text
  load_token s = elim (stored_token (disk.read_file (token_path os disk) s)) [
    | some t ↦ (s, ok t)
    | none ↦ new_token (disk.random token_bytes s)
  ]

  abbrev pub secured : os.State × Option Text → os.State × Result Text
  secured (s, some m) = (s, err (codes "secure data dir: " ++ m))
  secured (s, none) = load_token s

  unfoldable pub load_or_create_token : os.State → os.State × Result Text
  load_or_create_token s = secured (ensure_secure_dir os disk (fastflow_dir os disk) s)

  abbrev program_files_dir : Text
  program_files_dir = or_default os (os.getenv (codes "ProgramFiles")) (codes "C:\\Program Files")

  abbrev pub expected_client_name : Text
  expected_client_name = codes "fastflow_vpn.exe"

  unfoldable pub expected_client_path : Text
  expected_client_path = os.join (program_files_dir ∷ codes "FastFlow" ∷ expected_client_name ∷ [])

  abbrev pub judge_image : ℕ → Result Text → Result Text
  judge_image pid (err m) =
      err (codes "resolve image for pid " ++ (show_ℕ pid ++ (codes ": " ++ m)))
  judge_image pid (ok path) =
      if equal_fold os.fold path expected_client_path
      then ok path
      else err (codes "client " ++ (os.quote path ++ codes " is not the installed GUI"))

  abbrev pub judge_peer : ℕ → os.State × Result Text → os.State × Result Text
  judge_peer pid (s, image) = (s, judge_image pid image)

  unfoldable pub verify_client : Processes os → ℕ → os.State → os.State × Result Text
  unfolding equal_fold process_image_path
  verify_client processes pid s = judge_peer pid (process_image_path os processes pid s)
