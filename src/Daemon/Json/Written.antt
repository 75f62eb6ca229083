-- ===== src/Daemon/Json/Written.antt =====
-- A request as a client of windows_daemon writes it on one line, with the escapes of
-- `encoding/json`, and how the scanner reads that line.
use fastflow_client.Base.{
  ℕ, zero, suc, ◌+◌, ◌/◌, ◌%◌, ◌≤◌, ◌<◌, ◌≡◌, refl, ◌∙◌, Bool, true, false, some, List, [], ◌∷◌,
  ◌++◌, ltb, length, arith,
}
use fastflow_client.Base.Int.{ℤ, pos, negsuc}
use fastflow_client.Base.Text.{Text, codes, show_ℤ, show_ℕ, digits_onto}
use fastflow_client.Daemon.Ipc.{Request, Params, Value}
use fastflow_client.Daemon.Json.{bool_text}
use fastflow_client.Daemon.Json.Syntax.{
  Json, null, bool, number, string, object, Members, no_members, member, Literal,
}
use fastflow_client.Daemon.Json.Modes.{
  no_digits, int, sign, max_depth, num, Mode, Frame, in_object, begin, begin_members, finished,
}
use fastflow_client.Daemon.Json.Scanner.{scan, parse_json}
use fastflow_client.Daemon.Json.Strings.{run, quote, run-string, run-key}
use mathlib.Core.List.{append_assoc}

abbrev pub value_text : Value → Text
value_text (Value.bool b) = bool_text b
value_text (Value.string s) = quote s
value_text Value.other = codes "null"

abbrev pub param_text : Text × Value → Text
param_text (key, v) = quote key ++ (b':' ∷ value_text v)

-- The members behind the first one.
abbrev pub later_params : Params → Text
later_params [] = []
later_params (p ∷ ps) = b',' ∷ (param_text p ++ later_params ps)

abbrev pub params_text : Params → Text
params_text [] = codes "{}"
params_text (p ∷ ps) = b'{' ∷ (param_text p ++ (later_params ps ++ codes "}"))

-- The request, with its newline.
unfoldable pub request_line : Request → Text
request_line r =
    codes "{\"id\":"
    ++ (show_ℤ r.id
        ++ (codes ",\"token\":"
            ++ (quote r.token
                ++ (codes ",\"method\":"
                    ++ (quote r.method
                        ++ (codes ",\"params\":" ++ (params_text r.params ++ codes "}\n")))))))

-- The literal of an integer.
abbrev pub literal_of : ℤ → Literal
literal_of (pos n) = record no_digits { digits = n }
literal_of (negsuc n) = record no_digits { negative = true; digits = suc n }

-- Digits, from the start of a number that has a sign or none.
abbrev with_digits : Bool → ℕ → Literal
with_digits b n = record no_digits { negative = b; digits = n }

abbrev first_mode : Bool → Mode
first_mode true = num sign (with_digits true 0)
first_mode false = begin

run-digits_onto :
    (b : Bool) (fuel n : ℕ) (acc : Text) (fs : List Frame)
    → n ≤ fuel
    → 0 < n
    → run (first_mode b) fs (digits_onto (suc fuel) n acc) ≡ run (num int (with_digits b n)) fs acc
unfolding digits_onto scan
run-digits_onto b zero n acc fs h k = absurd (omega arith)
run-digits_onto true (suc fuel) n acc fs h k =
    ground (arith, run-digits_onto true fuel (n / 10) ((b'0' + n % 10) ∷ acc) fs)
run-digits_onto false (suc fuel) n acc fs h k =
    ground (arith, run-digits_onto false fuel (n / 10) ((b'0' + n % 10) ∷ acc) fs)

digits_onto-append :
    (fuel n : ℕ) (acc rest : Text)
    → digits_onto fuel n acc ++ rest ≡ digits_onto fuel n (acc ++ rest)
unfolding digits_onto
digits_onto-append zero n acc rest = refl
digits_onto-append (suc fuel) n acc rest =
    ground (arith, digits_onto-append fuel (n / 10) ((b'0' + n % 10) ∷ acc) rest)

-- An integer that is followed by another member.
pub run-show_ℤ :
    (z : ℤ) (ms : Members) (key : Text) (fs : List Frame) (rest : Text)
    → run begin (in_object ms key ∷ fs) (show_ℤ z ++ (b',' ∷ rest))
      ≡ run (begin_members (member ms key (number (literal_of z))) false) fs rest
unfolding scan show_ℤ show_ℕ
run-show_ℤ (pos zero) ms key fs rest = refl
run-show_ℤ (pos (suc n)) ms key fs rest =
    rw (digits_onto-append (suc (suc n)) (suc n) [] (b',' ∷ rest)) (
      run-digits_onto false (suc n) (suc n) (b',' ∷ rest) (in_object ms key ∷ fs) (omega arith)
        (omega arith))
run-show_ℤ (negsuc n) ms key fs rest =
    rw (digits_onto-append (suc (suc n)) (suc n) [] (b',' ∷ rest)) (
      run-digits_onto true (suc n) (suc n) (b',' ∷ rest) (in_object ms key ∷ fs) (omega arith)
        (omega arith))

unfoldable pub json_of : Value → Json
json_of (Value.bool b) = bool b
json_of (Value.string s) = string s
json_of Value.other = null

run-value :
    (v : Value) (fs : List Frame) (rest : Text)
    → run begin fs (value_text v ++ rest) ≡ run (finished (json_of v)) fs rest
unfolding scan codes json_of
run-value (Value.bool true) fs rest = refl
run-value (Value.bool false) fs rest = refl
run-value (Value.string s) fs rest = run-string s fs rest
run-value Value.other fs rest = refl

-- A parameter, up to the comma or the brace behind it.
run-param :
    (ms : Members) (may_end : Bool) (key : Text) (v : Value) (fs : List Frame) (rest : Text)
    → run (begin_members ms may_end) fs (param_text (key, v) ++ rest)
      ≡ run (finished (json_of v)) (in_object ms key ∷ fs) rest
unfolding scan
run-param ms may_end key v fs rest = rw (append_assoc (quote key) (b':' ∷ value_text v) rest) (
    run-key ms may_end key fs (b':' ∷ (value_text v ++ rest))
    ∙ run-value v (in_object ms key ∷ fs) rest)

unfoldable pub members_from : Members → Params → Members
members_from ms [] = ms
members_from ms ((key, v) ∷ ps) = members_from (member ms key (json_of v)) ps

run-later_params :
    (ps : Params) (ms : Members) (key : Text) (v : Value) (fs : List Frame) (rest : Text)
    → run (finished (json_of v)) (in_object ms key ∷ fs) (later_params ps ++ (b'}' ∷ rest))
      ≡ run (finished (object (members_from (member ms key (json_of v)) ps))) fs rest
unfolding scan members_from
run-later_params [] ms key v fs rest = refl
run-later_params ((k, w) ∷ ps) ms key v fs rest =
    rw (append_assoc (param_text (k, w)) (later_params ps) (b'}' ∷ rest)) (
      run-param (member ms key (json_of v)) false k w fs (later_params ps ++ (b'}' ∷ rest))
      ∙ run-later_params ps (member ms key (json_of v)) k w fs rest)

run-brace :
    (fs : List Frame) (s : Text)
    → ltb (length fs) max_depth ≡ true
    → run begin fs (b'{' ∷ s) ≡ run (begin_members no_members true) fs s
unfolding scan
run-brace fs s h = ground arith

run-params :
    (ps : Params) (fs : List Frame) (rest : Text)
    → ltb (length fs) max_depth ≡ true
    → run begin fs (params_text ps ++ rest)
      ≡ run (finished (object (members_from no_members ps))) fs rest
unfolding scan codes members_from
run-params [] fs rest h = ground arith
run-params ((k, v) ∷ ps) fs rest h =
    run-brace fs ((param_text (k, v) ++ (later_params ps ++ codes "}")) ++ rest) h
    ∙ rw
        (
          append_assoc (param_text (k, v)) (later_params ps ++ codes "}") rest,
          append_assoc (later_params ps) (codes "}") rest,
        )
        (run-param no_members true k v fs (later_params ps ++ (b'}' ∷ rest))
          ∙ run-later_params ps no_members k v fs rest)

abbrev pub members_of : Request → Members
members_of r =
    member
      (member
        (member (member no_members (codes "id") (number (literal_of r.id))) (codes "token")
          (string r.token))
        (codes "method") (string r.method))
      (codes "params") (object (members_from no_members r.params))

pub parse_json-request_line :
    (r : Request) → parse_json (request_line r) ≡ some (object (members_of r))
unfolding parse_json request_line codes scan
parse_json-request_line r =
    let m1 = member no_members (codes "id") (number (literal_of r.id)) in
    let m2 = member m1 (codes "token") (string r.token) in
    let m3 = member m2 (codes "method") (string r.method) in
    let end = params_text r.params ++ codes "}\n" in
    let behind_token = codes ",\"method\":" ++ (quote r.method ++ (codes ",\"params\":" ++ end)) in
    run-show_ℤ r.id no_members (codes "id") []
      (codes "\"token\":" ++ (quote r.token ++ behind_token))
    ∙ run-string r.token (in_object m1 (codes "token") ∷ []) behind_token
    ∙ run-string r.method (in_object m2 (codes "method") ∷ []) (codes ",\"params\":" ++ end)
    ∙ run-params r.params (in_object m3 (codes "params") ∷ []) (codes "}\n") (refl)
