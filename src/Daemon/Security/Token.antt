-- ===== src/Daemon/Security/Token.antt =====
-- The shared secret of windows_daemon/security.go: how long it is, and whom it comes from.
use fastflow_client.Base.{
  ℕ, ◌*◌, ◌/◌, ◌%◌, ◌≤◌, ◌<◌, ◌≡◌, refl, ◌∙◌, inl, inr, false, Option, none, some, List, [], ◌∷◌,
  arith, length, All, All-reverse, Option-cases,
}
use fastflow_client.Base.Calls.{Result, ok, err}
use fastflow_client.Base.Text.{Text, trim_space, trim_left, is_space, byte_len}
use mathlib.Core.List.{reverse, reverse-reverse}
use fastflow_client.Daemon.Os.{Os}
use fastflow_client.Daemon.Acl.{Disk, fastflow_dir, token_path, ensure_secure_dir}
use fastflow_client.Daemon.Security.{
  hex_digit, hex_encode, stored_token, load_or_create_token, load_token, new_token, token_bytes,
  secured,
}
use fastflow_client.Net.Bytes.{IsByte}

-- No white space, and one byte in UTF-8.
abbrev IsSolid : ℕ → Type 0
IsSolid c = (is_space c ≡ false) × (c < 128)

hex_digit-IsSolid : (n : ℕ) → n < 16 → IsSolid (hex_digit n)
unfolding is_space
hex_digit-IsSolid n h = (ground arith, ground arith)

hex_encode-IsSolid : (l : List ℕ) → All IsByte l → All IsSolid (hex_encode l)
unfolding hex_encode
hex_encode-IsSolid [] h = tt
hex_encode-IsSolid (b ∷ l) h = (
  hex_digit-IsSolid (b / 16) (omega arith),
  (hex_digit-IsSolid (b % 16) (omega arith), hex_encode-IsSolid l h.1),
)

trim_left_solid : (s : Text) → All IsSolid s → trim_left s ≡ s
unfolding trim_left
trim_left_solid [] h = refl
trim_left_solid (c ∷ s) h = rw h.0.0

trim_space_solid : (s : Text) → All IsSolid s → trim_space s ≡ s
unfolding trim_space
trim_space_solid s h =
    rw (trim_left_solid s h, trim_left_solid (reverse s) (All-reverse IsSolid s h))
      (reverse-reverse s)

byte_len_solid : (s : Text) → All IsSolid s → byte_len s ≡ length s
unfolding byte_len
byte_len_solid [] h = refl
byte_len_solid (c ∷ s) h = ground (arith, byte_len_solid s h.1)

length-hex_encode : (l : List ℕ) → length (hex_encode l) ≡ 2 * length l
unfolding hex_encode
length-hex_encode [] = refl
length-hex_encode (b ∷ l) = omega (arith, length-hex_encode l)

byte_len-hex_encode : (l : List ℕ) → All IsByte l → byte_len (hex_encode l) ≡ 2 * length l
byte_len-hex_encode l h =
    byte_len_solid (hex_encode l) (hex_encode-IsSolid l h) ∙ length-hex_encode l

-- The token made of sixteen or more bytes is accepted, as it is, when it is read back.
pub stored_token-hex_encode :
    (l : List ℕ)
    → All IsByte l
    → 16 ≤ length l
    → stored_token (ok (hex_encode l)) ≡ some (hex_encode l)
unfolding stored_token
stored_token-hex_encode l h n =
    rw (trim_space_solid (hex_encode l) (hex_encode-IsSolid l h), byte_len-hex_encode l h)
      (ground arith)

stored_token_long : (r : Result Text) {t : Text} → stored_token r ≡ some t → 32 ≤ byte_len t
unfolding stored_token
stored_token_long (err m) e = cc
stored_token_long (ok text) e = ground arith

-- What is documented of `rand.Read`: it fills the buffer that it is given.
pub record IsDisk (os : Os) (disk : Disk os) : Type 0 where
  pub random_full :
      (n : ℕ) (s : os.State) (buf : List ℕ)
      → (disk.random n s).1 ≡ ok buf
      → (length buf ≡ n) × All IsByte buf

module _ (os : Os) (disk : Disk os) (law : IsDisk os disk) where
  new_token_long :
      (r : os.State × Result (List ℕ)) (t : Text)
      → ((buf : List ℕ) → r.1 ≡ ok buf → (length buf ≡ token_bytes) × All IsByte buf)
      → (new_token os disk r).1 ≡ ok t
      → 32 ≤ byte_len t
  new_token_long (s, err m) t full e = cc
  new_token_long (s, ok buf) t full e =
      let f = full buf refl in ground (arith, byte_len-hex_encode buf f.1)

  load_token_long : (s : os.State) (t : Text) → (load_token os disk s).1 ≡ ok t → 32 ≤ byte_len t
  load_token_long s t e =
      elim (Option-cases (stored_token (disk.read_file (token_path os disk) s))) [
        | inl n ↦
            new_token_long (disk.random token_bytes s) t (law.random_full token_bytes s)
              (ground arith)
        | inr (u, o) ↦ ground (arith, stored_token_long (disk.read_file (token_path os disk) s) o)
      ]

  secured_long :
      (r : os.State × Option Text) (t : Text) → (secured os disk r).1 ≡ ok t → 32 ≤ byte_len t
  secured_long (s, some m) t e = cc
  secured_long (s, none) t e = load_token_long s t e

  -- Where `rand.Read` fills the buffer that it is given, a token that the server starts with has at least 32
  -- bytes, whether it was read or made.
  pub load_or_create_token_long :
      (s : os.State) (t : Text) → (load_or_create_token os disk s).1 ≡ ok t → 32 ≤ byte_len t
  unfolding load_or_create_token
  load_or_create_token_long s t e =
      secured_long (ensure_secure_dir os disk (fastflow_dir os disk) s) t e
