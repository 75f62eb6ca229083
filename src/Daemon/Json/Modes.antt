-- ===== src/Daemon/Json/Modes.antt =====
-- Where the scanner of `encoding/json` can stand inside a value.
use fastflow_client.Base.{ℕ, ◌+◌, ◌-◌, ◌*◌, Bool, true, false, Option, List}
use fastflow_client.Base.Text.{Text}
use fastflow_client.Daemon.Json.Syntax.{Literal, Json, Items, Members, Piece}

-- Where a number stands: behind its sign, a leading zero, other digits, the point, digits behind
-- it, the `e`, its sign, its digits.
pub data Part : Type 0 where
  sign zero_first int point fraction e_mark e_sign e_digits : Part

-- What an open array or object holds so far, and the key that waits for its value.
pub data Frame : Type 0 where
  in_array : Items → Frame
  in_object : Members → Text → Frame

pub data Mode : Type 0 where
  begin : Mode  -- a value must follow
  begin_items : Mode  -- a value or the end of an array
  begin_members : Members → Bool → Mode  -- a key or, where `true`, the end of an object
  chars : Option Members → List Piece → Mode  -- inside a string: a key of an object, or a value
  escaped : Option Members → List Piece → Mode
  hex : Option Members → List Piece → ℕ → ℕ → Mode  -- digits left, and the unit so far
  colon : Members → Text → Mode
  num : Part → Literal → Mode
  word : Text → Json → Mode  -- what is left of a literal name
  finished : Json → Mode  -- behind a value

pub record Scan : Type 0 where
  pub mode : Mode
  pub frames : List Frame

abbrev pub max_depth : ℕ
max_depth = 10000

abbrev pub no_digits : Literal
no_digits = record {
  negative = false;
  digits = 0;
  behind = 0;
  down = false;
  exponent = 0;
  whole = true;
}

abbrev pub digit : ℕ → Literal → Literal
digit c l = record l { digits = l.digits * 10 + (c - b'0') }
