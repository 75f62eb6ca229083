-- ===== src/Netif/Parse.antt =====
-- data/vpn_engine/platform_android.go: the comma-joined texts of a snapshot, and its flag bits.
pub mod Joined
pub mod Prefixes
use fastflow_client.Base.{
  ℕ, ◌/◌, ◌%◌, ◌^◌, Bool, ◌&&◌, Option, none, some, List, [], ◌∷◌, ◌==◌, leb, if◌then◌else◌, length,
}
use fastflow_client.Base.Int.{ℤ, pos, leb_ℤ}
use fastflow_client.Base.Text.{Text, split, trim_space}
use fastflow_client.Net.{Addr, parse_addr, without_zone, within, dtoi}

abbrev pub flag_wifi : ℕ
flag_wifi = 2 ^ 0

abbrev pub flag_cellular : ℕ
flag_cellular = 2 ^ 1

abbrev pub flag_ethernet : ℕ
flag_ethernet = 2 ^ 2

abbrev pub flag_bluetooth : ℕ
flag_bluetooth = 2 ^ 3

abbrev pub flag_metered : ℕ
flag_metered = 2 ^ 8

abbrev pub flag_constrained : ℕ
flag_constrained = 2 ^ 9

abbrev pub flag_validated : ℕ
flag_validated = 2 ^ 10

-- `flags & flag != 0`, for a flag of one bit.
abbrev pub has_flag : ℕ → ℕ → Bool
has_flag flag flags = flags / flag % 2 == 1

-- The text before the last `sep`, and the text behind it.
unfoldable pub cut_last : ℕ → Text → Option (Text × Text)
cut_last sep [] = none
cut_last sep (c ∷ s) = elim (cut_last sep s) [
  | some (before, after) ↦ some (c ∷ before, after)
  | none ↦ if c == sep then some ([], s) else none
]

abbrev pub prefix_length : Text → Option ℕ
prefix_length [] = none
prefix_length (c ∷ []) = dtoi 0 (c ∷ [])
prefix_length (c ∷ d ∷ s) = if leb b'1' c && leb c b'9' then dtoi 0 (c ∷ d ∷ s) else none

-- `netip.ParsePrefix`
unfoldable pub parse_prefix : Text → Option (Addr × ℕ)
unfolding cut_last parse_addr dtoi
parse_prefix s = elim (cut_last b'/' s) [
  | none ↦ none
  | some (before, after) ↦ elim (without_zone (parse_addr before)) [
    | none ↦ none
    | some a ↦ within a (prefix_length after)
  ]
]

-- The loops of `parsePrefixes` and of `splitNonEmpty`.
unfoldable pub keep_prefixes : List Text → List (Addr × ℕ)
keep_prefixes [] = []
keep_prefixes (p ∷ parts) =
    let rest = keep_prefixes parts in
    let trimmed = trim_space p in
    if length trimmed == 0
    then rest
    else elim (parse_prefix trimmed) [ none ↦ rest | some prefix ↦ prefix ∷ rest ]

unfoldable pub keep_non_empty : List Text → List Text
keep_non_empty [] = []
keep_non_empty (p ∷ parts) =
    let rest = keep_non_empty parts in
    let trimmed = trim_space p in if length trimmed == 0 then rest else trimmed ∷ rest

unfoldable pub parse_prefixes : Text → List (Addr × ℕ)
unfolding keep_prefixes split trim_space parse_prefix
parse_prefixes csv = if length csv == 0 then [] else keep_prefixes (split b',' csv)

unfoldable pub split_non_empty : Text → List Text
unfolding keep_non_empty split trim_space
split_non_empty csv = if length csv == 0 then [] else keep_non_empty (split b',' csv)

-- A count of zero or less is replaced.
unfoldable pub normalize_mtu : ℤ → ℤ
normalize_mtu mtu = if leb_ℤ mtu (pos 0) then pos 1500 else mtu
