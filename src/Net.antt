-- ===== src/Net.antt =====
-- What windows_daemon/routing.go and data/vpn_engine/platform_android.go use of Go's packages `net`
-- and `net/netip`: the parsing and printing of addresses and prefixes, byte by byte.
pub mod V4
pub mod V6
pub mod Bytes
pub mod Printing
mod Tests
use fastflow_client.Base.{
  ℕ, zero, suc, ◌+◌, ◌-◌, ◌*◌, ◌/◌, ◌%◌, ◌^◌, ◌≤◌, ◌<◌, Bool, true, false, not, ◌&&◌, ◌||◌, Option,
  none, some, List, [], ◌∷◌, ◌++◌, ◌==◌, ltb, leb, if◌then◌else◌, length, take, drop, replicate,
}
use fastflow_client.Base.Text.{Text, show_ℕ}
use fastflow_client.Net.V4.{is_digit, parse_v4}
use fastflow_client.Net.V6.{parse_v6}

-- The part of a text before the first `sep`, and the part behind it, if there is one.
unfoldable pub cut : ℕ → Text → Text × Option Text
cut sep [] = ([], none)
cut sep (c ∷ s) =
    let (before, after) = cut sep s in if c == sep then ([], some s) else (c ∷ before, after)

-- An address: four bytes, or sixteen with a zone, which is empty if there is none.
pub data Addr : Type 0 where
  v4 : List ℕ → Addr
  v6 : List ℕ → Text → Addr

abbrev v6_addr : Text → Text → Option Addr
v6_addr s zone = elim (parse_v6 s) [ none ↦ none | some bytes ↦ some (v6 bytes zone) ]

-- `parseIPv6`, the zone first.
unfoldable pub parse_v6_addr : Text → Option Addr
unfolding parse_v6 cut
parse_v6_addr s =
    let (before, after) = cut b'%' s in
    elim after [
      | none ↦ v6_addr s []
      | some zone ↦ if length zone == 0 then none else v6_addr before zone
    ]

-- `netip.ParseAddr`: the first dot, colon or percent sign in the text says which form it has.
unfoldable pub parse_addr_by : Text → Text → Option Addr
unfolding parse_v6_addr parse_v4
parse_addr_by s [] = none
parse_addr_by s (c ∷ rest) =
    let later = parse_addr_by s rest in
    if c == b'.'
    then elim (parse_v4 s) [ none ↦ none | some bytes ↦ some (v4 bytes) ]
    else if c == b':'
    then parse_v6_addr s
    else if c == b'%'
    then none
    else later

unfoldable pub parse_addr : Text → Option Addr
unfolding parse_addr_by
parse_addr s = parse_addr_by s s

abbrev pub without_zone : Option Addr → Option Addr
without_zone none = none
without_zone (some (v4 bytes)) = some (v4 bytes)
without_zone (some (v6 bytes zone)) = if length zone == 0 then some (v6 bytes zone) else none

-- `net.ParseIP`
unfoldable pub parse_ip : Text → Option Addr
unfolding parse_addr
parse_ip s = without_zone (parse_addr s)

abbrev pub is_mapped : List ℕ → Bool
is_mapped (a ∷ b ∷ c ∷ d ∷ e ∷ f ∷ g ∷ h ∷ i ∷ j ∷ k ∷ l ∷ _) =
    (a + b + c + d + e + f + g + h + i + j) == 0 && (k == 255 && l == 255)
is_mapped _ = false

-- `IP.To4`, of four or of sixteen bytes.
unfoldable pub to_4 : List ℕ → Option (List ℕ)
to_4 bytes =
    if length bytes == 4
    then some bytes
    else if length bytes == 16 && is_mapped bytes
    then some (drop 12 bytes)
    else none

abbrev pub bytes_of : Addr → List ℕ
bytes_of (v4 bytes) = bytes
bytes_of (v6 bytes zone) = bytes

-- `IP.String`, of four bytes.
unfoldable pub dotted : List ℕ → Text
unfolding show_ℕ
dotted [] = []
dotted (a ∷ []) = show_ℕ a
dotted (a ∷ b ∷ l) = show_ℕ a ++ (b'.' ∷ dotted (b ∷ l))

-- `dtoi` on a whole text: a number below 0xFFFFFF, in decimal.
unfoldable pub dtoi : ℕ → Text → Option ℕ
dtoi n [] = some n
dtoi n (c ∷ s) =
    let later = dtoi (n * 10 + (c - b'0')) s in
    if is_digit c && ltb (n * 10 + (c - b'0')) 0xffffff then later else none

abbrev pub bit_len : Addr → ℕ
bit_len (v4 bytes) = 32
bit_len (v6 bytes zone) = 128

abbrev pub within : Addr → Option ℕ → Option (Addr × ℕ)
within a none = none
within a (some n) = if leb n (bit_len a) then some (a, n) else none

abbrev pub mask_length : Text → Option ℕ
mask_length s = if length s == 0 then none else dtoi 0 s

-- `net.ParseCIDR`: the address, and the length of the prefix.
unfoldable pub parse_cidr : Text → Option (Addr × ℕ)
unfolding cut parse_addr dtoi
parse_cidr s =
    let (before, after) = cut b'/' s in
    elim after [
      | none ↦ none
      | some mask ↦ elim (without_zone (parse_addr before)) [
        | none ↦ none
        | some a ↦ within a (mask_length mask)
      ]
    ]

-- `CIDRMask`: the byte that starts with as many ones as are left.
abbrev pub mask_byte : ℕ → ℕ
mask_byte n = if ltb n 8 then 256 - 2 ^ (8 - n) else 255

unfoldable pub mask_bytes : ℕ → ℕ → List ℕ
mask_bytes zero n = []
mask_bytes (suc k) n = mask_byte n ∷ mask_bytes k (n - 8)

-- `IP.Mask`, byte by byte: the first `n` bits stay.
abbrev pub masked_byte : ℕ → ℕ → ℕ
masked_byte n b = if ltb n 8 then b / 2 ^ (8 - n) * 2 ^ (8 - n) else b

unfoldable pub mask_ip : ℕ → List ℕ → List ℕ
mask_ip n [] = []
mask_ip n (b ∷ l) = masked_byte n b ∷ mask_ip (n - 8) l
