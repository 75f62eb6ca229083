-- ===== src/Net/V4.antt =====
-- Go's `net/netip`: the fields of an IPv4 address.
use fastflow_client.Base.{
  ℕ, ◌+◌, ◌-◌, ◌*◌, Bool, ◌&&◌, ◌||◌, Option, none, some, List, [], ◌∷◌, ◌==◌, ltb, leb,
  if◌then◌else◌, length,
}
use fastflow_client.Base.Text.{Text}
use mathlib.Core.List.{reverse}

abbrev pub is_digit : ℕ → Bool
is_digit c = leb b'0' c && leb c b'9'

-- `parseIPv4Fields`: the value and the digits of the field so far, and the fields before it, the
-- last one first. An error is `none`.
unfoldable pub v4_fields : ℕ → ℕ → List ℕ → Text → Option (List ℕ)
v4_fields val digits fields [] = if length fields == 3 then some (reverse (val ∷ fields)) else none
v4_fields val digits fields (c ∷ s) =
    let in_field = v4_fields (val * 10 + (c - b'0')) (digits + 1) fields s in
    let next_field = v4_fields 0 0 (val ∷ fields) s in
    if is_digit c
    then (if digits == 1 && val == 0
        then none
        else if ltb 255 (val * 10 + (c - b'0'))
        then none
        else in_field)
    else if c == b'.'
    then (if digits == 0 || length s == 0 || length fields == 3 then none else next_field)
    else none

unfoldable pub parse_v4 : Text → Option (List ℕ)
unfolding v4_fields
parse_v4 s = v4_fields 0 0 [] s
