-- ===== src/Daemon/Json/Syntax.antt =====
-- The values of JSON, with what the decoding of a request in windows_daemon/ipc.go looks at, and the
-- strings that a literal stands for.
use fastflow_client.Base.{
  ℕ, ◌+◌, ◌-◌, ◌*◌, Bool, ◌&&◌, ◌||◌, List, [], ◌∷◌, ltb, leb, if◌then◌else◌,
}
use fastflow_client.Base.Text.{Text}

-- A number's literal: its sign, all its digits as one number, how many of them stand behind the
-- point, the exponent, and whether it has neither point nor exponent.
pub record Literal : Type 0 where
  pub negative : Bool
  pub digits : ℕ
  pub behind : ℕ
  pub down : Bool
  pub exponent : ℕ
  pub whole : Bool

-- Items and members stand in reverse, the last one outside.
mutual
  pub data Json : Type 0 where
    null : Json
    bool : Bool → Json
    number : Literal → Json
    string : Text → Json
    array : Items → Json
    object : Members → Json

  pub data Items : Type 0 where
    no_items : Items
    item : Items → Json → Items

  pub data Members : Type 0 where
    no_members : Members
    member : Members → Text → Json → Members

-- A character of a string, or a 16-bit unit written as an escape.
pub data Piece : Type 0 where
  raw : ℕ → Piece
  unit : ℕ → Piece

abbrev is_high : ℕ → Bool
is_high u = leb 0xd800 u && ltb u 0xdc00

abbrev is_low : ℕ → Bool
is_low u = leb 0xdc00 u && ltb u 0xe000

-- A unit by itself: half of a pair is replaced.
abbrev lone : ℕ → ℕ
lone u = if is_high u || is_low u then 0xfffd else u

abbrev pair : ℕ → ℕ → ℕ
pair u v = 0x10000 + (u - 0xd800) * 0x400 + (v - 0xdc00)

-- `unquote`
unfoldable pub text_of : List Piece → Text
text_of [] = []
text_of (raw c ∷ ps) = c ∷ text_of ps
text_of (unit u ∷ []) = lone u ∷ []
text_of (unit u ∷ raw c ∷ ps) = lone u ∷ c ∷ text_of ps
text_of (unit u ∷ unit v ∷ ps) =
    let both = pair u v ∷ text_of ps in
    let one = lone u ∷ text_of (unit v ∷ ps) in if is_high u && is_low v then both else one
