-- ===== src/Net/V6.antt =====
-- Go's `net/netip`: the fields of an IPv6 address.
use fastflow_client.Base.{
  ℕ, zero, suc, ◌+◌, ◌-◌, ◌*◌, ◌/◌, ◌%◌, ◌&&◌, Option, none, some, List, [], ◌∷◌, ◌++◌, ◌==◌, ltb,
  leb, if◌then◌else◌, length, take, drop, replicate,
}
use fastflow_client.Base.Text.{Text}
use fastflow_client.Net.V4.{is_digit, parse_v4}

abbrev pub hex_value : ℕ → Option ℕ
hex_value c =
    if is_digit c
    then some (c - b'0')
    else if leb b'a' c && leb c b'f'
    then some (c - b'a' + 10)
    else if leb b'A' c && leb c b'F'
    then some (c - b'A' + 10)
    else none

-- The digits of one field of an IPv6 address: how many there are, their value, and what follows.
unfoldable pub hex_run : ℕ → ℕ → Text → Option (ℕ × ℕ × Text)
hex_run digits val [] = some (digits, val, [])
hex_run digits val (c ∷ s) = elim (hex_value c) [
  | none ↦ some (digits, val, c ∷ s)
  | some d ↦ if ltb 3 digits then none else hex_run (digits + 1) (val * 16 + d) s
]

-- The end of `parseIPv6`: the ellipsis is filled with zeros.
unfoldable pub v6_finish : List ℕ → Option ℕ → Option (List ℕ)
v6_finish bytes none = if length bytes == 16 then some bytes else none
v6_finish bytes (some at) =
    if ltb (length bytes) 16
    then some (take at bytes ++ (replicate (16 - length bytes) 0 ++ drop at bytes))
    else none

-- An IPv4 address in place of the last four bytes.
abbrev v6_embedded : Text → List ℕ → Option ℕ → Option (List ℕ)
v6_embedded s bytes ellipsis = elim ellipsis [
  | none ↦
      if length bytes == 12
      then elim (parse_v4 s) [ none ↦ none | some v4 ↦ v6_finish (bytes ++ v4) none ]
      else none
  | some at ↦
      if ltb 12 (length bytes)
      then none
      else elim (parse_v4 s) [ none ↦ none | some v4 ↦ v6_finish (bytes ++ v4) (some at) ]
]

-- What follows the colon behind a field: a second colon, or the next field. `again` is the loop.
abbrev v6_after_colon :
    List ℕ → Option ℕ → (List ℕ → Option ℕ → Text → Option (List ℕ)) → Text → Option (List ℕ)
v6_after_colon bytes ellipsis again [] = none
v6_after_colon bytes ellipsis again (c ∷ s) =
    if c == b':'
    then elim ellipsis [
      | some at ↦ none
      | none ↦
          if length s == 0
          then v6_finish bytes (some (length bytes))
          else again bytes (some (length bytes)) s
    ]
    else again bytes ellipsis (c ∷ s)

-- What follows the digits of a field, which starts at `s`: the bytes are those before the field.
abbrev v6_next :
    Text
    → List ℕ
    → ℕ
    → Option ℕ
    → (List ℕ → Option ℕ → Text → Option (List ℕ))
    → Text
    → Option (List ℕ)
v6_next s bytes val ellipsis again [] = v6_finish (bytes ++ (val / 256 ∷ (val % 256) ∷ [])) ellipsis
v6_next s bytes val ellipsis again (c ∷ rest) =
    if c == b'.'
    then v6_embedded s bytes ellipsis
    else if c == b':'
    then v6_after_colon (bytes ++ (val / 256 ∷ (val % 256) ∷ [])) ellipsis again rest
    else none

-- The loop of `parseIPv6`, on the bytes so far, the place of the ellipsis, and the text that is
-- left. A round adds two bytes or more, so eight rounds fill the sixteen.
unfoldable pub v6_fields : ℕ → List ℕ → Option ℕ → Text → Option (List ℕ)
unfolding hex_run v6_finish parse_v4
v6_fields zero bytes ellipsis s = none
v6_fields (suc fuel) bytes ellipsis s = if length bytes == 16 then none else elim (hex_run 0 0 s) [
  | none ↦ none
  | some (digits, val, rest) ↦
      if digits == 0 then none else v6_next s bytes val ellipsis (v6_fields fuel) rest
]

abbrev v6_start : Text → Option (List ℕ)
v6_start s = v6_fields 8 [] none s

-- `parseIPv6` of a text without a zone: a leading ellipsis is taken first.
unfoldable pub parse_v6 : Text → Option (List ℕ)
unfolding v6_fields
parse_v6 [] = v6_start []
parse_v6 (a ∷ []) = v6_start (a ∷ [])
parse_v6 (a ∷ b ∷ s) =
    if a == b':' && b == b':'
    then (if length s == 0 then v6_finish [] (some 0) else v6_fields 8 [] (some 0) s)
    else v6_start (a ∷ b ∷ s)
