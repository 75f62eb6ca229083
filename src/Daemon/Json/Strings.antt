-- ===== src/Daemon/Json/Strings.antt =====
-- Reading a string of JSON that `encoding/json` has written gives the string.
use fastflow_client.Base.{
  ℕ, ◌+◌, ◌-◌, ◌*◌, ◌/◌, ◌%◌, ◌≡◌, refl, sym, ap, ◌∙◌, Bool, false, ◌||◌, Option, none, some, List,
  [], ◌∷◌, ◌++◌, ◌==◌, ltb, if◌then◌else◌, map, arith, ◌<◌, ◌≢◌, Bool-cases, inl, inr,
}
use fastflow_client.Base.Text.{Text, codes}
use fastflow_client.Daemon.Json.{escape_char, escape, hex_digit, unicode_escape}
use fastflow_client.Daemon.Json.Syntax.{Json, string, Members, Piece, raw, unit, text_of}
use fastflow_client.Daemon.Json.Modes.{
  Mode, Frame, begin, begin_members, chars, colon, finished, hex,
}
use fastflow_client.Daemon.Json.Scanner.{scan}
use mathlib.Core.List.{reverse, reverse-append, append_assoc, append-nil}

-- The scanner in a mode, over a text.
abbrev pub run : Mode → List Frame → Text → Option Json
run m fs s = scan (record { mode = m; frames = fs }) s

abbrev pub quote : Text → Text
quote s = b'"' ∷ (escape s ++ (b'"' ∷ []))

-- What the scanner keeps of a character that `escape` has written.
abbrev is_unit : ℕ → Bool
is_unit c =
    if c == 8 || c == 12 || c == 10 || c == 13 || c == 9
    then false
    else ltb c 32 || c == b'<' || c == b'>' || c == b'&' || c == 0x2028 || c == 0x2029

abbrev piece_of : ℕ → Piece
piece_of c = if is_unit c then unit c else raw c

run-hex_digit :
    (o : Option Members) (ps : List Piece) (left u n : ℕ) (fs : List Frame) (rest : Text)
    → n < 16
    → left ≢ 1
    → run (hex o ps left u) fs (hex_digit n ∷ rest) ≡ run (hex o ps (left - 1) (u * 16 + n)) fs rest
unfolding scan
run-hex_digit o ps left u n fs rest h k = ground arith

run-hex_digit_last :
    (o : Option Members) (ps : List Piece) (u n : ℕ) (fs : List Frame) (rest : Text)
    → n < 16
    → run (hex o ps 1 u) fs (hex_digit n ∷ rest) ≡ run (chars o (unit (u * 16 + n) ∷ ps)) fs rest
unfolding scan
run-hex_digit_last o ps u n fs rest h = ground arith

hex_digits_lem :
    (c : ℕ)
    → c < 65536
    → (((0 * 16 + c / 4096 % 16) * 16 + c / 256 % 16) * 16 + c / 16 % 16) * 16 + c % 16 ≡ c
hex_digits_lem c h = omega arith

run-unicode_escape :
    (o : Option Members) (ps : List Piece) (fs : List Frame) (c : ℕ) (rest : Text)
    → c < 65536
    → run (chars o ps) fs (unicode_escape c ++ rest) ≡ run (chars o (unit c ∷ ps)) fs rest
unfolding scan
run-unicode_escape o ps fs c rest h =
    let s1 = hex_digit (c % 16) ∷ rest in
    let s2 = hex_digit (c / 16 % 16) ∷ s1 in
    let s3 = hex_digit (c / 256 % 16) ∷ s2 in
    let u1 = 0 * 16 + c / 4096 % 16 in
    let u2 = u1 * 16 + c / 256 % 16 in
    let u3 = u2 * 16 + c / 16 % 16 in
    run-hex_digit o ps 4 0 (c / 4096 % 16) fs s3 (omega arith) (omega arith)
    ∙ run-hex_digit o ps 3 u1 (c / 256 % 16) fs s2 (omega arith) (omega arith)
    ∙ run-hex_digit o ps 2 u2 (c / 16 % 16) fs s1 (omega arith) (omega arith)
    ∙ run-hex_digit_last o ps u3 (c % 16) fs rest (omega arith)
    ∙ ap (λ u. run (chars o (unit u ∷ ps)) fs rest) (hex_digits_lem c h)

-- The characters that need an escape of their own.
run-escape_char :
    (o : Option Members) (ps : List Piece) (fs : List Frame) (c : ℕ) (rest : Text)
    → run (chars o ps) fs (escape_char c ++ rest) ≡ run (chars o (piece_of c ∷ ps)) fs rest
unfolding scan escape_char codes
run-escape_char o ps fs c rest = elim (Bool-cases (is_unit c)) [
  | inl u ↦ ground (arith, run-unicode_escape o ps fs c rest (ground arith))
  | inr r ↦ ground arith
]

abbrev pieces : Text → List Piece → List Piece
pieces [] ps = ps
pieces (c ∷ s) ps = pieces s (piece_of c ∷ ps)

run-escape :
    (o : Option Members) (s : Text) (ps : List Piece) (fs : List Frame) (rest : Text)
    → run (chars o ps) fs (escape s ++ rest) ≡ run (chars o (pieces s ps)) fs rest
unfolding escape
run-escape o [] ps fs rest = refl
run-escape o (c ∷ s) ps fs rest =
    rw (append_assoc (escape_char c) (escape s) rest)
      (run-escape_char o ps fs c (escape s ++ rest) ∙ run-escape o s (piece_of c ∷ ps) fs rest)

reverse-pieces : (s : Text) (ps : List Piece) → reverse (pieces s ps) ≡ reverse ps ++ map piece_of s
reverse-pieces [] ps = sym (append-nil (reverse ps))
reverse-pieces (c ∷ s) ps =
    reverse-pieces s (piece_of c ∷ ps)
    ∙ rw (reverse-append (piece_of c ∷ []) ps)
        (append_assoc (reverse ps) (piece_of c ∷ []) (map piece_of s))

text_of-unit : (c : ℕ) (ps : List Piece) → c < 0xd800 → text_of (unit c ∷ ps) ≡ c ∷ text_of ps
unfolding text_of
text_of-unit c [] h = ground arith
text_of-unit c (raw d ∷ ps) h = ground arith
text_of-unit c (unit d ∷ ps) h = ground arith

text_of-piece_of : (c : ℕ) (ps : List Piece) → text_of (piece_of c ∷ ps) ≡ c ∷ text_of ps
unfolding text_of
text_of-piece_of c ps = elim (Bool-cases (is_unit c)) [
  | inl u ↦ rw u (text_of-unit c ps (ground arith))
  | inr r ↦ rw r
]

text_of-pieces : (s : Text) → text_of (map piece_of s) ≡ s
unfolding text_of
text_of-pieces [] = refl
text_of-pieces (c ∷ s) = text_of-piece_of c (map piece_of s) ∙ ap (λ t. c ∷ t) (text_of-pieces s)

text_of_string : (s : Text) → text_of (reverse (pieces s [])) ≡ s
text_of_string s = rw (reverse-pieces s []) (text_of-pieces s)

-- The scanner behind a string: a value, or the key of a member.
pub run-string :
    (s : Text) (fs : List Frame) (rest : Text)
    → run begin fs (quote s ++ rest) ≡ run (finished (string s)) fs rest
unfolding scan
run-string s fs rest =
    rw (append_assoc (escape s) (b'"' ∷ []) rest)
      (run-escape none s [] fs (b'"' ∷ rest) ∙ rw (text_of_string s))

pub run-key :
    (ms : Members) (may_end : Bool) (s : Text) (fs : List Frame) (rest : Text)
    → run (begin_members ms may_end) fs (quote s ++ rest) ≡ run (colon ms s) fs rest
unfolding scan
run-key ms may_end s fs rest =
    rw (append_assoc (escape s) (b'"' ∷ []) rest)
      (run-escape (some ms) s [] fs (b'"' ∷ rest) ∙ rw (text_of_string s))
