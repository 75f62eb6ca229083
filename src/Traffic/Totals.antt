-- ===== src/Traffic/Totals.antt =====
-- What the reader of data/vpn_engine/traffic.go makes of the core's answers.
use fastflow_client.Base.{◌↔◌, ◌≡◌, ◌≢◌, refl, Bool, true, false, arith, ap, ◌∙◌, sym}
use fastflow_client.Base.Calls.{Call, returned, panicked, blocked}
use fastflow_client.Base.Int.{ℤ, pos}
use fastflow_client.Base.Text.{Text, codes}
use fastflow_client.Traffic.Reader.{
  Value, invalid, nil_ptr, ptr, struct, int64, other, Fields, field_by_name, deref, stat_value,
  recovered, value_of_reply, int_or_zero, value_of_stat, value_of_response, Method, RequestType,
  named, unnamed, no_struct, read,
}

-- A struct, or a pointer to one.
abbrev pub hop : Bool → Fields → Value
hop true fs = ptr (struct fs)
hop false fs = struct fs

-- The response carries the value `v` in `Stat.Value`, behind a pointer or not at each hop.
pub record Carries (v : ℤ) (resp : Value) : Type 0 where
  pub by_ptr : Bool
  pub fields : Fields
  pub stat_by_ptr : Bool
  pub stat : Fields
  pub resp_shape : resp ≡ hop by_ptr fields
  pub stat_shape : field_by_name (codes "Stat") fields ≡ hop stat_by_ptr stat
  pub value_shape : field_by_name (codes "Value") stat ≡ int64 v

struct_of_deref : (r : Value) (fs : Fields) → deref r ≡ struct fs → (b : Bool) × (r ≡ hop b fs)
unfolding deref
struct_of_deref (ptr v) fs h = (true, ap ptr h)
struct_of_deref (struct gs) fs h = (false, h)
struct_of_deref invalid fs h = cc
struct_of_deref nil_ptr fs h = cc
struct_of_deref (int64 n) fs h = cc
struct_of_deref other fs h = cc

stat_value-eq : (v : ℤ) (resp : Value) → Carries v resp → stat_value resp ≡ v
unfolding stat_value
stat_value-eq v resp c = ground arith

int_of_value : (v : Value) → int_or_zero v ≢ pos 0 → v ≡ int64 (int_or_zero v)
int_of_value (int64 n) h = refl
int_of_value invalid h = absurd (h refl)
int_of_value nil_ptr h = absurd (h refl)
int_of_value (ptr v) h = absurd (h refl)
int_of_value (struct fs) h = absurd (h refl)
int_of_value other h = absurd (h refl)

fields_of_stat :
    (r : Value)
    → value_of_stat r ≢ pos 0
    → (fs : Fields) × (r ≡ struct fs) × (field_by_name (codes "Value") fs ≡ int64 (value_of_stat r))
fields_of_stat (struct fs) h = (fs, refl, int_of_value (field_by_name (codes "Value") fs) h)
fields_of_stat invalid h = absurd (h refl)
fields_of_stat nil_ptr h = absurd (h refl)
fields_of_stat (ptr v) h = absurd (h refl)
fields_of_stat (int64 n) h = absurd (h refl)
fields_of_stat other h = absurd (h refl)

fields_of_response :
    (r : Value)
    → value_of_response r ≢ pos 0
    → (fs : Fields) × (r ≡ struct fs)
      × (value_of_stat (deref (field_by_name (codes "Stat") fs)) ≡ value_of_response r)
fields_of_response (struct fs) h = (fs, refl, refl)
fields_of_response invalid h = absurd (h refl)
fields_of_response nil_ptr h = absurd (h refl)
fields_of_response (ptr v) h = absurd (h refl)
fields_of_response (int64 n) h = absurd (h refl)
fields_of_response other h = absurd (h refl)

stat_value-Carries : (resp : Value) → stat_value resp ≢ pos 0 → Carries (stat_value resp) resp
unfolding stat_value
stat_value-Carries resp h =
    let (fs, e, v) = fields_of_response (deref resp) h in
    let (gs, e', v') =
      fields_of_stat (deref (field_by_name (codes "Stat") fs)) (λ z. h (sym v ∙ z)) in
    let (b, shape) = struct_of_deref resp fs e in
    let (b', shape') = struct_of_deref (field_by_name (codes "Stat") fs) gs e' in
    record {
      by_ptr = b;
      fields = fs;
      stat_by_ptr = b';
      stat = gs;
      resp_shape = shape;
      stat_shape = shape';
      value_shape = v' ∙ ap int64 v;
    }

-- A response of any shape gives a counter other than 0 exactly when it carries that number in
-- `Stat.Value`, behind a pointer or not at each of the two hops.
pub stat_value_iff : (resp : Value) (v : ℤ) → v ≢ pos 0 → (stat_value resp ≡ v) ↔ Carries v resp
stat_value_iff resp v h =
    (λ e. rw e at (stat_value-Carries resp (λ z. h (sym e ∙ z))), stat_value-eq v resp)

answer_of_recovered :
    (c : Call (Value × Bool)) (n : ℤ)
    → recovered c ≡ returned n
    → n ≢ pos 0
    → (resp : Value) × (c ≡ returned (resp, true)) × (stat_value resp ≡ n)
answer_of_recovered (returned (resp, true)) n e h = (resp, refl, cc)
answer_of_recovered (returned (resp, false)) n e h = absurd (h (cc))
answer_of_recovered (panicked v) n e h = absurd (h (cc))
answer_of_recovered blocked n e h = cc

-- If `read` returns a number other than 0, then the request has a string field `Name`, and the
-- service answered for that name with no error and a response that carries the number.
pub read_sound :
    (m : Method) (name : Text) (n : ℤ)
    → read m name ≡ returned n
    → n ≢ pos 0
    → (resp : Value) × (m.request ≡ named) × (m.call name ≡ returned (resp, true)) × Carries n resp
unfolding read
read_sound m name n e h = go m.request refl e
  where
    go :
        (q : RequestType)
        → m.request ≡ q
        → read m name ≡ returned n
        → (resp : Value) × (m.request ≡ named)
          × (m.call name ≡ returned (resp, true))
          × Carries n resp
    go named q r =
        let (resp, answered, v) = answer_of_recovered (m.call name) n (ground arith) h in
        (resp, q, answered, (stat_value_iff resp n h).0 v)
    go unnamed q r = absurd (h (ground arith))
    go no_struct q r = absurd (h (ground arith))

-- `read` never panics, and returns wherever the service's call comes back.
pub read_total :
    (m : Method) (name : Text) → m.call name ≢ blocked → (n : ℤ) × (read m name ≡ returned n)
unfolding read
read_total m name h = go m.request (m.call name) refl refl
  where
    go :
        (q : RequestType) (c : Call (Value × Bool))
        → m.request ≡ q
        → m.call name ≡ c
        → (n : ℤ) × (read m name ≡ returned n)
    go named (returned (resp, b)) q c = (value_of_reply (resp, b), ground arith)
    go named (panicked v) q c = (pos 0, ground arith)
    go named blocked q c = absurd (h c)
    go unnamed d q c = (pos 0, ground arith)
    go no_struct d q c = (pos 0, ground arith)
