-- ===== src/Tests/TokenRuns.antt =====
-- The shared secret and the peer check over a small disk.
use fastflow_client.Base.{
  ℕ, zero, suc, ◌≡◌, refl, ◌↔◌, ◌⊎◌, ◌≤◌, Bool, true, Option, none, some, List, [], ◌∷◌, ◌++◌, All,
  length, replicate, arith, ◌==◌, if◌then◌else◌,
}
use fastflow_client.Base.Calls.{Result, ok, err}
use fastflow_client.Base.Text.{Text, codes, text_eq, byte_len}
use fastflow_client.Net.Bytes.{IsByte}
use fastflow_client.Daemon.Os.{Os}
use fastflow_client.Daemon.Process.{Processes, process_image_path}
use fastflow_client.Daemon.Acl.{
  Disk, Creation, created, already_exists, fastflow_dir, token_path, client_allowlist_path,
  ensure_secure_dir, verify_dir_trusted,
}
use fastflow_client.Daemon.Security.{
  hex_encode, stored_token, load_or_create_token, verify_client, expected_client_path, equal_fold,
}
use fastflow_client.Daemon.Security.Token.{IsDisk, load_or_create_token_long}
use fastflow_client.Daemon.Service.{
  Command, interrogate, shutdown, unexpected, echoed, stop_pending, serve, refused, execute,
}
use fastflow_client.Daemon.Service.Reports.{Served, execute-Served}
use fastflow_client.Daemon.Security.Peer.{verify_client_iff}

-- The state is the token file, and the owner of the directory, if it is there.
abbrev Files : Type 0
Files = Option Text × Option Text

abbrev joined : List Text → Text
joined [] = []
joined (p ∷ []) = p
joined (p ∷ q ∷ ps) = p ++ (codes "\\" ++ joined (q ∷ ps))

abbrev host : Os
host = record {
  State = Files;
  getenv = λ name. [];
  join = joined;
  quote = λ s. s;
  fold = λ c. if c == b'F' then b'f' else c;
  run = λ tool args s. (s, none);
}

abbrev is_token_path : Text → Bool
is_token_path p = text_eq p (codes "C:\\ProgramData\\FastFlow\\daemon.token")

abbrev create_in : Files → Files × Creation
create_in (token, none) = ((token, some (codes "SYSTEM")), created)
create_in (token, some owner) = ((token, some owner), already_exists)

abbrev owner_in : Files → Result Text
owner_in (token, none) = err (codes "not found")
owner_in (token, some owner) = ok owner

abbrev text_in : Files → Result Text
text_in (none, owner) = err (codes "not found")
text_in (some t, owner) = ok t

abbrev noise : ℕ → List ℕ
noise n = replicate n 171

abbrev entropy : List ℕ
entropy = noise 32

abbrev drive : Disk host
drive = record {
  parse_sddl = λ t. none;
  sddl_owner = λ t. none;
  sddl_dacl = λ t. none;
  utf16 = λ t. none;
  create_directory = λ dir s. create_in s;
  owner_of = λ dir s. owner_in s;
  system_sid = ok (codes "SYSTEM");
  administrators_sid = ok (codes "Administrators");
  set_security = λ dir s. ((s.0, some (codes "Administrators")), none);
  remove_file = λ p s. if is_token_path p then (none, s.1) else s;
  read_file = λ p s. if is_token_path p then text_in s else err (codes "not found");
  write_file = λ p t s. ((some t, s.1), none);
  random = λ n s. (s, ok (noise n));
}

-- The handle of a process is its number.
abbrev tasks : Processes host
tasks = record {
  open_process = λ pid s. (s, ok pid);
  image_name = λ h s. (s, ok (codes "C:\\Program Files\\fastflow\\fastflow_vpn.exe"));
  close_handle = λ h s. s;
}

ok_injective : {A : Type 0} (a b : A) → ok a ≡ ok b → a ≡ b
ok_injective a b e = cc

drive-IsDisk : IsDisk host drive
drive-IsDisk = record { random_full = full }
  where
    many : (n : ℕ) → (length (noise n) ≡ n) × All IsByte (noise n)
    many zero = (refl, tt)
    many (suc n) = (ground (arith, (many n).0), (omega arith, (many n).1))

    full :
        (n : ℕ) (s : Files) (buf : List ℕ)
        → ok (noise n) ≡ ok buf
        → (length buf ≡ n) × All IsByte buf
    full n s buf e = rw (← ok_injective (noise n) buf e) (many n)

-- A squatter has made the directory, with a token of its own choice.
abbrev squatted : Files
squatted = (some (replicate 40 b'x'), some (codes "Mallory"))

starts_anew : (load_or_create_token host drive squatted).1 ≡ ok (hex_encode entropy)
unfolding load_or_create_token ensure_secure_dir verify_dir_trusted fastflow_dir token_path
    client_allowlist_path text_eq codes stored_token
starts_anew = refl

load_or_create_token_long_example : 32 ≤ byte_len (hex_encode entropy)
load_or_create_token_long_example =
    load_or_create_token_long host drive drive-IsDisk squatted (hex_encode entropy) starts_anew

verify_client_iff_example :
    ((verify_client host drive tasks 12 squatted).1
      ≡ ok (codes "C:\\Program Files\\fastflow\\fastflow_vpn.exe"))
    ↔ (((process_image_path host tasks 12 squatted).1
          ≡ ok (codes "C:\\Program Files\\fastflow\\fastflow_vpn.exe"))
        × (equal_fold host.fold
              (codes "C:\\Program Files\\fastflow\\fastflow_vpn.exe")
              (expected_client_path host drive)
            ≡ true))
verify_client_iff_example =
    verify_client_iff host drive tasks 12 squatted
      (codes "C:\\Program Files\\fastflow\\fastflow_vpn.exe")

abbrev commands : List Command
commands = interrogate 4 ∷ unexpected 9 ∷ shutdown ∷ interrogate 3 ∷ []

reports_stop : serve commands ≡ (echoed 4 ∷ stop_pending ∷ [], true)
unfolding serve
reports_stop = refl

execute-Served_example :
    (execute host drive commands squatted ≡ refused)
    ⊎ ((t : Text) × Served commands t (execute host drive commands squatted))
execute-Served_example = execute-Served host drive drive-IsDisk commands squatted
