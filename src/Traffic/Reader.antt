-- ===== src/Traffic/Reader.antt =====
-- data/vpn_engine/traffic.go: the bridge to the core's statistics service, by reflection.
-- The service is the core's: what `reflect` sees of it is a parameter, a value of `Service`.
use fastflow_client.Base.{ℕ, Bool, not, ◌||◌, Option, none, some, ◌==◌, if◌then◌else◌}
use fastflow_client.Base.Calls.{Call, returned, panicked, blocked}
use fastflow_client.Base.Int.{ℤ, pos}
use fastflow_client.Base.Text.{Text, codes, text_eq}

-- What the program reads of a `reflect.Value`.
mutual
  pub data Value : Type 0 where
    invalid : Value
    nil_ptr : Value
    ptr : Value → Value
    struct : Fields → Value
    int64 : ℤ → Value
    other : Value

  pub data Fields : Type 0 where
    end : Fields
    field : Text → Value → Fields → Fields

-- `FieldByName`, of a struct.
unfoldable pub field_by_name : Text → Fields → Value
field_by_name name end = invalid
field_by_name name (field n v fs) =
    let rest = field_by_name name fs in if text_eq n name then v else rest

unfoldable pub deref : Value → Value
deref nil_ptr = invalid
deref (ptr v) = v
deref v = v

-- The last step of `statValue`, at the field `Value`.
abbrev pub int_or_zero : Value → ℤ
int_or_zero (int64 n) = n
int_or_zero _ = pos 0

abbrev pub value_of_stat : Value → ℤ
value_of_stat (struct fs) = int_or_zero (field_by_name (codes "Value") fs)
value_of_stat _ = pos 0

abbrev pub value_of_response : Value → ℤ
value_of_response (struct fs) = value_of_stat (deref (field_by_name (codes "Stat") fs))
value_of_response _ = pos 0

unfoldable pub stat_value : Value → ℤ
unfolding deref field_by_name
stat_value resp = value_of_response (deref resp)

-- The type of the second parameter of `GetStats`, as far as `read` looks at it.
pub data RequestType : Type 0 where
  named : RequestType  -- a struct with a string field `Name`
  unnamed : RequestType  -- a struct without one
  no_struct : RequestType  -- anything else: `FieldByName` panics

-- The bound method `GetStats`. Its call gives the response, and whether the error is nil.
pub record Method : Type 0 where
  pub num_in : ℕ
  pub num_out : ℕ
  pub in_1_is_ptr : Bool
  pub request : RequestType
  pub call : Text → Call (Value × Bool)

-- A statistics service; `none` if it has no method `GetStats`.
pub record Service : Type 0 where
  pub get_stats : Option Method

-- A `V2RayServer`; `none` if it has no statistics service.
pub record Server : Type 0 where
  pub stats_service : Option Service

reader_of_method : Method → Option Method
reader_of_method m =
    if not (m.num_in == 2) || (not (m.num_out == 2) || not m.in_1_is_ptr) then none else some m

reader_of_service : Service → Option Method
unfolding reader_of_method
reader_of_service s = elim s.get_stats [ none ↦ none | some m ↦ reader_of_method m ]

-- `newV2RayStatsReader`, from the server that the context holds.
unfoldable pub new_stats_reader : Option Server → Option Method
unfolding reader_of_service
new_stats_reader none = none
new_stats_reader (some server) = elim server.stats_service [
  | none ↦ none
  | some s ↦ reader_of_service s
]

abbrev pub value_of_reply : Value × Bool → ℤ
value_of_reply (resp, no_error) = if no_error then stat_value resp else pos 0

-- A panic becomes 0 by the deferred `recover`.
abbrev pub recovered : Call (Value × Bool) → Call ℤ
recovered (returned reply) = returned (value_of_reply reply)
recovered (panicked v) = returned (pos 0)
recovered blocked = blocked

-- `v2rayStatsReader.read`
unfoldable pub read : Method → Text → Call ℤ
unfolding stat_value
read m name = elim m.request [
  | no_struct ↦ returned (pos 0)
  | unnamed ↦ returned (pos 0)
  | named ↦ recovered (m.call name)
]
