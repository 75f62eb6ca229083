-- ===== src/Daemon/Json/Scanner.antt =====
-- The syntax that `encoding/json` accepts, as its scanner reads it: one step for each character,
-- over a stack of the arrays and objects that are open.
use fastflow_client.Base.{
  ℕ, ◌+◌, ◌-◌, ◌*◌, Bool, true, false, ◌&&◌, ◌||◌, Option, none, some, List, [], ◌∷◌, ◌==◌, ltb,
  leb, if◌then◌else◌, length,
}
use fastflow_client.Base.Text.{Text, codes}
use mathlib.Core.List.{reverse}
use fastflow_client.Daemon.Json.Syntax.{
  Literal, Json, null, bool, number, string, array, object, no_items, item, Members, no_members,
  member, Piece, raw, unit, text_of,
}
use fastflow_client.Daemon.Json.Modes.{
  Part, sign, zero_first, int, point, fraction, e_mark, e_sign, e_digits, Frame, in_array,
  in_object, Mode, begin, begin_items, begin_members, chars, escaped, hex, colon, num, word,
  finished, Scan, max_depth, no_digits, digit,
}

abbrev is_blank : ℕ → Bool
is_blank c = c == 32 || c == 9 || c == 13 || c == 10

abbrev is_digit : ℕ → Bool
is_digit c = leb b'0' c && leb c b'9'

abbrev goto : Mode → List Frame → Option Scan
goto m fs = some (record { mode = m; frames = fs })

abbrev opened : Frame → Mode → List Frame → Option Scan
opened f m fs = if ltb (length fs) max_depth then goto m (f ∷ fs) else none

-- `stateBeginValue`. An object that opens has its members in the mode, and its frame's outside.
abbrev begin_value : ℕ → List Frame → Option Scan
begin_value c fs =
    if is_blank c
    then goto begin fs
    else if c == b'{'
    then (if ltb (length fs) max_depth then goto (begin_members no_members true) fs else none)
    else if c == b'['
    then opened (in_array no_items) begin_items fs
    else if c == b'"'
    then goto (chars none []) fs
    else if c == b'-'
    then goto (num sign (record no_digits { negative = true })) fs
    else if c == b'0'
    then goto (num zero_first no_digits) fs
    else if is_digit c
    then goto (num int (digit c no_digits)) fs
    else if c == b't'
    then goto (word (codes "rue") (bool true)) fs
    else if c == b'f'
    then goto (word (codes "alse") (bool false)) fs
    else if c == b'n'
    then goto (word (codes "ull") null) fs
    else none

-- `stateEndValue`: the value goes into the array or object around it.
abbrev end_value : Json → List Frame → ℕ → Option Scan
end_value v [] c = if is_blank c then goto (finished v) [] else none
end_value v (in_array items ∷ fs) c =
    if is_blank c
    then goto (finished v) (in_array items ∷ fs)
    else if c == b','
    then goto begin (in_array (item items v) ∷ fs)
    else if c == b']'
    then goto (finished (array (item items v))) fs
    else none
end_value v (in_object members key ∷ fs) c =
    if is_blank c
    then goto (finished v) (in_object members key ∷ fs)
    else if c == b','
    then goto (begin_members (member members key v) false) fs
    else if c == b'}'
    then goto (finished (object (member members key v))) fs
    else none

abbrev begin_item : List Frame → ℕ → Option Scan
begin_item (in_array no_items ∷ fs) c =
    if is_blank c
    then goto begin_items (in_array no_items ∷ fs)
    else if c == b']'
    then goto (finished (array no_items)) fs
    else begin_value c (in_array no_items ∷ fs)
begin_item fs c = none

abbrev begin_member : Members → Bool → List Frame → ℕ → Option Scan
begin_member members may_end fs c =
    if is_blank c
    then goto (begin_members members may_end) fs
    else if c == b'"'
    then goto (chars (some members) []) fs
    else if c == b'}' && may_end
    then goto (finished (object members)) fs
    else none

abbrev close_string : Option Members → List Piece → List Frame → Option Scan
close_string none ps fs = goto (finished (string (text_of (reverse ps)))) fs
close_string (some members) ps fs = goto (colon members (text_of (reverse ps))) fs

abbrev in_chars : Option Members → List Piece → List Frame → ℕ → Option Scan
in_chars o ps fs c =
    if c == b'"'
    then close_string o ps fs
    else if c == b'\\'
    then goto (escaped o ps) fs
    else if ltb c 32
    then none
    else goto (chars o (raw c ∷ ps)) fs

abbrev escape_of : ℕ → Option ℕ
escape_of c =
    if c == b'"' || c == b'\\' || c == b'/'
    then some c
    else if c == b'b'
    then some 8
    else if c == b'f'
    then some 12
    else if c == b'n'
    then some 10
    else if c == b'r'
    then some 13
    else if c == b't'
    then some 9
    else none

abbrev in_escape : Option Members → List Piece → List Frame → ℕ → Option Scan
in_escape o ps fs c =
    if c == b'u'
    then goto (hex o ps 4 0) fs
    else elim (escape_of c) [ some d ↦ goto (chars o (raw d ∷ ps)) fs | none ↦ none ]

abbrev pub hex_value : ℕ → Option ℕ
hex_value c =
    if is_digit c
    then some (c - b'0')
    else if leb b'a' c && leb c b'f'
    then some (c - b'a' + 10)
    else if leb b'A' c && leb c b'F'
    then some (c - b'A' + 10)
    else none

abbrev in_hex : Option Members → List Piece → ℕ → ℕ → List Frame → ℕ → Option Scan
in_hex o ps left u fs c = elim (hex_value c) [
  | none ↦ none
  | some d ↦
      if left == 1
      then goto (chars o (unit (u * 16 + d) ∷ ps)) fs
      else goto (hex o ps (left - 1) (u * 16 + d)) fs
]

abbrev in_word : Text → Json → List Frame → ℕ → Option Scan
in_word [] v fs c = none
in_word (d ∷ []) v fs c = if c == d then goto (finished v) fs else none
in_word (d ∷ e ∷ rest) v fs c = if c == d then goto (word (e ∷ rest) v) fs else none

abbrev part_behind : Literal → Literal
part_behind l = record l { whole = false }

abbrev fraction_digit : ℕ → Literal → Literal
fraction_digit c l = record l { digits = l.digits * 10 + (c - b'0'); behind = l.behind + 1 }

-- `ParseFloat` reads no more of an exponent than five digits.
abbrev exponent_digit : ℕ → Literal → Literal
exponent_digit c l = record l {
  exponent = if ltb l.exponent 10000 then l.exponent * 10 + (c - b'0') else l.exponent;
}

-- Behind a number: a point, an exponent, or what ends a value.
abbrev num_or_end : Literal → List Frame → ℕ → Option Scan
num_or_end l fs c =
    if c == b'e' || c == b'E'
    then goto (num e_mark (part_behind l)) fs
    else end_value (number l) fs c

abbrev in_num : Part → Literal → List Frame → ℕ → Option Scan
in_num sign l fs c =
    if c == b'0'
    then goto (num zero_first l) fs
    else if is_digit c
    then goto (num int (digit c l)) fs
    else none
in_num zero_first l fs c =
    if c == b'.' then goto (num point (part_behind l)) fs else num_or_end l fs c
in_num int l fs c =
    if is_digit c
    then goto (num int (digit c l)) fs
    else if c == b'.'
    then goto (num point (part_behind l)) fs
    else num_or_end l fs c
in_num point l fs c = if is_digit c then goto (num fraction (fraction_digit c l)) fs else none
in_num fraction l fs c =
    if is_digit c then goto (num fraction (fraction_digit c l)) fs else num_or_end l fs c
in_num e_mark l fs c =
    if c == b'+'
    then goto (num e_sign l) fs
    else if c == b'-'
    then goto (num e_sign (record l { down = true })) fs
    else if is_digit c
    then goto (num e_digits (exponent_digit c l)) fs
    else none
in_num e_sign l fs c = if is_digit c then goto (num e_digits (exponent_digit c l)) fs else none
in_num e_digits l fs c =
    if is_digit c then goto (num e_digits (exponent_digit c l)) fs else end_value (number l) fs c

abbrev step_in : Mode → List Frame → ℕ → Option Scan
step_in begin fs c = begin_value c fs
step_in begin_items fs c = begin_item fs c
step_in (begin_members members may_end) fs c = begin_member members may_end fs c
step_in (chars o ps) fs c = in_chars o ps fs c
step_in (escaped o ps) fs c = in_escape o ps fs c
step_in (hex o ps left u) fs c = in_hex o ps left u fs c
step_in (colon members key) fs c =
    if is_blank c
    then goto (colon members key) fs
    else if c == b':'
    then goto begin (in_object members key ∷ fs)
    else none
step_in (num part l) fs c = in_num part l fs c
step_in (word rest v) fs c = in_word rest v fs c
step_in (finished v) fs c = end_value v fs c

-- The end of the text: a number may end there, and a value that has ended.
abbrev result_in : Mode → List Frame → Option Json
result_in (finished v) [] = some v
result_in (num zero_first l) [] = some (number l)
result_in (num int l) [] = some (number l)
result_in (num fraction l) [] = some (number l)
result_in (num e_digits l) [] = some (number l)
result_in _ _ = none

unfoldable pub scan : Scan → Text → Option Json
unfolding text_of
scan m [] = result_in m.mode m.frames
scan m (c ∷ s) = elim (step_in m.mode m.frames c) [ none ↦ none | some m' ↦ scan m' s ]

unfoldable pub parse_json : Text → Option Json
unfolding scan
parse_json s = scan (record { mode = begin; frames = [] }) s
