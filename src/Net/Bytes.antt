-- ===== src/Net/Bytes.antt =====
-- What an IPv4 address that Go's `net/netip` has read looks like.
use fastflow_client.Base.{
  ℕ, zero, suc, ◌+◌, ◌-◌, ◌*◌, ◌/◌, ◌%◌, ◌≤◌, ◌<◌, ◌≡◌, refl, ap, ◌⊎◌, inl, some, List, [], ◌∷◌,
  length, length-append, arith, All, All-append, All-reverse,
}
use fastflow_client.Base.Text.{Text, show_ℕ, digits_onto}
use mathlib.Core.List.{reverse, reverse-append}
use fastflow_client.Net.V4.{v4_fields, parse_v4}
use fastflow_client.Net.{mask_ip, mask_bytes, dotted}

abbrev pub IsByte : ℕ → Type 0
IsByte b = b < 256

-- Four bytes.
pub record IsQuad (l : List ℕ) : Type 0 where
  pub four : length l ≡ 4
  pub bytes : All IsByte l

length-reverse : (l : List ℕ) → length (reverse l) ≡ length l
length-reverse [] = refl
length-reverse (x ∷ l) =
    rw (reverse-append (x ∷ []) l)
      (omega (arith, length-append (reverse l) (x ∷ []), length-reverse l))

v4_fields-IsQuad :
    (val digits : ℕ) (fields : List ℕ) (s : Text) {l : List ℕ}
    → IsByte val
    → All IsByte fields
    → v4_fields val digits fields s ≡ some l
    → IsQuad l
unfolding v4_fields
v4_fields-IsQuad val digits fields [] {l} v f h =
    ground (arith, length-reverse (val ∷ fields), All-reverse IsByte (val ∷ fields) (v, f))
v4_fields-IsQuad val digits fields (c ∷ s) {l} v f h = ground (
  arith,
  v4_fields-IsQuad (val * 10 + (c - b'0')) (digits + 1) fields s {l = l},
  v4_fields-IsQuad 0 0 (val ∷ fields) s {l = l},
)

-- An IPv4 address that was read is four bytes.
pub parse_v4-IsQuad : (s : Text) {l : List ℕ} → parse_v4 s ≡ some l → IsQuad l
unfolding parse_v4
parse_v4-IsQuad s h = v4_fields-IsQuad 0 0 [] s (omega arith) tt h

-- A character of an address in dotted form.
abbrev pub IsPlain : ℕ → Type 0
IsPlain c = (c ≡ b'.') ⊎ ((b'0' ≤ c) × (c ≤ b'9'))

digits_onto-IsPlain :
    (fuel n : ℕ) (acc : Text) → All IsPlain acc → All IsPlain (digits_onto fuel n acc)
unfolding digits_onto
digits_onto-IsPlain zero n acc h = h
digits_onto-IsPlain (suc fuel) n acc h =
    ground (arith, digits_onto-IsPlain fuel (n / 10) ((b'0' + n % 10) ∷ acc))

pub dotted-IsPlain : (l : List ℕ) → All IsPlain (dotted l)
unfolding dotted
dotted-IsPlain [] = tt
dotted-IsPlain (a ∷ []) = digits_onto-IsPlain (suc a) a [] tt
dotted-IsPlain (a ∷ b ∷ l) =
    All-append IsPlain (show_ℕ a) (b'.' ∷ dotted (b ∷ l)) (digits_onto-IsPlain (suc a) a [] tt)
      (inl refl, dotted-IsPlain (b ∷ l))

-- An address in dotted form has digits and dots alone, and is not empty.
pub record IsAddress (s : Text) : Type 0 where
  pub plain : All IsPlain s
  pub full : 0 < length s

length-digits_onto : (fuel n : ℕ) (acc : Text) → length acc ≤ length (digits_onto fuel n acc)
unfolding digits_onto
length-digits_onto zero n acc = omega arith
length-digits_onto (suc fuel) n acc =
    ground (arith, length-digits_onto fuel (n / 10) ((b'0' + n % 10) ∷ acc))

pub show_ℕ_full : (n : ℕ) → 0 < length (show_ℕ n)
unfolding show_ℕ
show_ℕ_full n = ground (arith, length-digits_onto n (n / 10) ((b'0' + n % 10) ∷ []))

dotted_full : (a : ℕ) (l : List ℕ) → 0 < length (dotted (a ∷ l))
unfolding dotted
dotted_full a [] = show_ℕ_full a
dotted_full a (b ∷ l) =
    omega (arith, show_ℕ_full a, length-append (show_ℕ a) (b'.' ∷ dotted (b ∷ l)))

-- Every list of one byte or more is printed as an address.
pub dotted-IsAddress : (l : List ℕ) → 0 < length l → IsAddress (dotted l)
dotted-IsAddress [] h = elim h [ ]
dotted-IsAddress (a ∷ l) h = record { plain = dotted-IsPlain (a ∷ l); full = dotted_full a l }

pub length-mask_ip : (n : ℕ) (l : List ℕ) → length (mask_ip n l) ≡ length l
unfolding mask_ip
length-mask_ip n [] = refl
length-mask_ip n (b ∷ l) = ap suc (length-mask_ip (n - 8) l)

pub length-mask_bytes : (k n : ℕ) → length (mask_bytes k n) ≡ k
unfolding mask_bytes
length-mask_bytes zero n = refl
length-mask_bytes (suc k) n = ap suc (length-mask_bytes k (n - 8))
