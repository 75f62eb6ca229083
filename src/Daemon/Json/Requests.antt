-- ===== src/Daemon/Json/Requests.antt =====
-- What the server of windows_daemon/ipc.go makes of a request that is written on a line.
use fastflow_client.Base.{ℕ, ◌≡◌, ◌≢◌, refl, ◌∙◌, some, [], ◌∷◌, arith}
use fastflow_client.Base.Int.{ℤ, pos, negsuc, FitsInt64}
use fastflow_client.Base.Text.{Text, codes}
use fastflow_client.Daemon.Security.{equal_fold}
use fastflow_client.Daemon.Ipc.{Request, Params, Value}
use fastflow_client.Daemon.Json.Syntax.{Json, number, string, object, Members, no_members, member}
use fastflow_client.Daemon.Json.Decode.{
  int_of, has_floats, value_of, store_members, store_fields, no_request, parse_request, store_field,
  store_id, store_token, store_method, store_params,
}
use fastflow_client.Daemon.Json.Written.{
  request_line, literal_of, json_of, members_from, members_of, parse_json-request_line,
}

int_of-literal_of : (z : ℤ) → FitsInt64 z → int_of (literal_of z) ≡ some z
unfolding int_of
int_of-literal_of (pos n) h = ground arith
int_of-literal_of (negsuc n) h = ground arith

value_of-json_of : (v : Value) → value_of (json_of v) ≡ some v
unfolding value_of json_of has_floats
value_of-json_of (Value.bool b) = refl
value_of-json_of (Value.string s) = refl
value_of-json_of Value.other = refl

-- The parameters of a list in front of others, the last one first.
abbrev pub newest_first : Params → Params → Params
newest_first [] qs = qs
newest_first (p ∷ ps) qs = newest_first ps (p ∷ qs)

store_members-from :
    (ps : Params) (ms : Members) (start qs : Params)
    → store_members ms start ≡ some qs
    → store_members (members_from ms ps) start ≡ some (newest_first ps qs)
unfolding members_from store_members
store_members-from [] ms start qs h = h
store_members-from ((key, v) ∷ ps) ms start qs h =
    store_members-from ps (member ms key (json_of v)) start ((key, v) ∷ qs)
      (rw (h, value_of-json_of v))

module _ (fold : ℕ → ℕ) where
  store_id_lem : (v : Json) (req : Request) → store_field fold (codes "id") v req ≡ store_id v req
  unfolding codes equal_fold
  store_id_lem v req = ground arith

  store_token_lem :
      (v : Json) (req : Request) → store_field fold (codes "token") v req ≡ store_token v req
  unfolding codes equal_fold
  store_token_lem v req = ground arith

  store_method_lem :
      (v : Json) (req : Request) → store_field fold (codes "method") v req ≡ store_method v req
  unfolding codes equal_fold
  store_method_lem v req = ground arith

  store_params_lem :
      (v : Json) (req : Request)
      → fold b'm' ≢ fold b'p'
      → store_field fold (codes "params") v req ≡ store_params v req
  unfolding codes equal_fold
  store_params_lem v req k = ground arith

  store_fields-member :
      (ms : Members) (key : Text) (v : Json) (req : Request)
      → store_fields fold ms ≡ some req
      → store_fields fold (member ms key v) ≡ store_field fold key v req
  unfolding store_fields
  store_fields-member ms key v req h = rw h

  store_fields-members_of :
      (r : Request)
      → FitsInt64 r.id
      → fold b'm' ≢ fold b'p'
      → store_fields fold (members_of r) ≡ some (record r { params = newest_first r.params [] })
  store_fields-members_of r h k =
      let m1 = member no_members (codes "id") (number (literal_of r.id)) in
      let m2 = member m1 (codes "token") (string r.token) in
      let m3 = member m2 (codes "method") (string r.method) in
      let r1 : Request = record no_request { id = r.id } in
      let r2 : Request = record r1 { token = r.token } in
      let r3 : Request = record r2 { method = r.method } in
      let e1 : store_fields fold m1 ≡ some r1 =
        store_fields-member no_members (codes "id") (number (literal_of r.id)) no_request
          (unfold store_fields in refl)
        ∙ store_id_lem (number (literal_of r.id)) no_request
        ∙ rw (int_of-literal_of r.id h) in
      let e2 : store_fields fold m2 ≡ some r2 =
        store_fields-member m1 (codes "token") (string r.token) r1 e1
        ∙ store_token_lem (string r.token) r1 in
      let e3 : store_fields fold m3 ≡ some r3 =
        store_fields-member m2 (codes "method") (string r.method) r2 e2
        ∙ store_method_lem (string r.method) r2 in
      store_fields-member m3 (codes "params") (object (members_from no_members r.params)) r3 e3
      ∙ store_params_lem (object (members_from no_members r.params)) r3 k
      ∙ rw (store_members-from r.params no_members [] [] (unfold store_members in refl))

-- A line that spells a request is read as that request, with the parameters in the order in which a
-- map finds them, where the id is an `int` and case folding keeps "m" and "p" apart.
pub parse_request-request_line :
    (fold : ℕ → ℕ) (r : Request)
    → FitsInt64 r.id
    → fold b'm' ≢ fold b'p'
    → parse_request fold (request_line r) ≡ some (record r { params = newest_first r.params [] })
unfolding parse_request
parse_request-request_line fold r h k =
    rw (parse_json-request_line r) (store_fields-members_of fold r h k)
