-- ===== src/Net/Printing.antt =====
-- Reading back an IPv4 address or prefix that was printed.
use fastflow_client.Base.{
  ℕ, zero, suc, ◌+◌, ◌/◌, ◌%◌, ◌≤◌, ◌<◌, ◌≡◌, ◌≢◌, refl, sym, ap, ◌∙◌, some, List, [], ◌∷◌, ◌++◌,
  ltb, if◌then◌else◌, length, length-append, All, arith,
}
use fastflow_client.Base.Text.{Text, show_ℕ, digits_onto}
use mathlib.Core.Option
use fastflow_client.Net.V4.{v4_fields, parse_v4}
use fastflow_client.Net.{
  v4, cut, parse_addr_by, parse_addr, parse_ip, parse_cidr, dtoi, dotted, mask_length, without_zone,
}
use fastflow_client.Net.Bytes.{IsQuad, IsPlain, dotted-IsPlain, show_ℕ_full}
use mathlib.Core.List.{append-nil}

digits_onto-append :
    (fuel n : ℕ) (acc rest : Text)
    → digits_onto fuel n acc ++ rest ≡ digits_onto fuel n (acc ++ rest)
unfolding digits_onto
digits_onto-append zero n acc rest = refl
digits_onto-append (suc fuel) n acc rest =
    ground (arith, digits_onto-append fuel (n / 10) ((b'0' + n % 10) ∷ acc) rest)

digit_count : ℕ → ℕ → ℕ
digit_count zero n = 1
digit_count (suc fuel) n = let more = digit_count fuel (n / 10) + 1 in if ltb n 10 then 1 else more

digit_count_pos : (fuel n : ℕ) → 0 < digit_count fuel n
unfolding digit_count
digit_count_pos zero n = omega arith
digit_count_pos (suc fuel) n = ground arith

v4_fields-digits_onto :
    (fuel n : ℕ) (fields : List ℕ) (acc : Text)
    → n ≤ fuel
    → 0 < n
    → n < 256
    → v4_fields 0 0 fields (digits_onto (suc fuel) n acc)
      ≡ v4_fields n (digit_count (suc fuel) n) fields acc
unfolding digits_onto digit_count v4_fields
v4_fields-digits_onto zero n fields acc h k b = absurd (omega arith)
v4_fields-digits_onto (suc fuel) n fields acc h k b =
    ground (arith, v4_fields-digits_onto fuel (n / 10) fields ((b'0' + n % 10) ∷ acc))

v4_fields-show_ℕ :
    (n : ℕ) (fields : List ℕ) (rest : Text)
    → n < 256
    → v4_fields 0 0 fields (show_ℕ n ++ rest) ≡ v4_fields n (digit_count (suc n) n) fields rest
unfolding show_ℕ
v4_fields-show_ℕ zero fields rest b = unfold v4_fields digits_onto digit_count in refl
v4_fields-show_ℕ (suc n) fields rest b =
    rw (digits_onto-append (suc (suc n)) (suc n) [] rest)
      (v4_fields-digits_onto (suc n) (suc n) fields rest (omega arith) (omega arith) b)

v4_fields-dot :
    (val digits : ℕ) (fields : List ℕ) (s : Text)
    → 0 < digits
    → 0 < length s
    → length fields ≢ 3
    → v4_fields val digits fields (b'.' ∷ s) ≡ v4_fields 0 0 (val ∷ fields) s
unfolding v4_fields
v4_fields-dot val digits fields s h k l = ground arith

-- One byte and the dot behind it.
v4_fields-byte :
    (n : ℕ) (fields : List ℕ) (s : Text)
    → n < 256
    → 0 < length s
    → length fields ≢ 3
    → v4_fields 0 0 fields (show_ℕ n ++ (b'.' ∷ s)) ≡ v4_fields 0 0 (n ∷ fields) s
v4_fields-byte n fields s b k l =
    v4_fields-show_ℕ n fields (b'.' ∷ s) b
    ∙ v4_fields-dot n (digit_count (suc n) n) fields s (digit_count_pos (suc n) n) k l

full-append : (n : ℕ) (s : Text) → 0 < length (show_ℕ n ++ s)
full-append n s = omega (arith, length-append (show_ℕ n) s, show_ℕ_full n)

v4_fields_last :
    (a b c d : ℕ) → d < 256 → v4_fields 0 0 (c ∷ b ∷ a ∷ []) (show_ℕ d) ≡ some (a ∷ b ∷ c ∷ d ∷ [])
unfolding v4_fields
v4_fields_last a b c d h =
    ap (λ s. v4_fields 0 0 (c ∷ b ∷ a ∷ []) s) (sym (append-nil (show_ℕ d)))
    ∙ v4_fields-show_ℕ d (c ∷ b ∷ a ∷ []) [] h

parse_v4-dotted :
    (a b c d : ℕ)
    → a < 256
    → b < 256
    → c < 256
    → d < 256
    → parse_v4 (dotted (a ∷ b ∷ c ∷ d ∷ [])) ≡ some (a ∷ b ∷ c ∷ d ∷ [])
unfolding parse_v4 dotted
parse_v4-dotted a b c d ha hb hc hd =
    let s3 = show_ℕ c ++ (b'.' ∷ show_ℕ d) in
    let s2 = show_ℕ b ++ (b'.' ∷ s3) in
    v4_fields-byte a [] s2 ha (full-append b (b'.' ∷ s3)) (omega arith)
    ∙ v4_fields-byte b (a ∷ []) s3 hb (full-append c (b'.' ∷ show_ℕ d)) (omega arith)
    ∙ v4_fields-byte c (b ∷ a ∷ []) (show_ℕ d) hc (show_ℕ_full d) (omega arith)
    ∙ v4_fields_last a b c d hd

abbrev AllDigits : Text → Type 0
AllDigits = All (λ c. (b'0' ≤ c) × (c ≤ b'9'))

digits_onto-AllDigits :
    (fuel n : ℕ) (acc : Text) → AllDigits acc → AllDigits (digits_onto fuel n acc)
unfolding digits_onto
digits_onto-AllDigits zero n acc h = h
digits_onto-AllDigits (suc fuel) n acc h =
    ground (arith, digits_onto-AllDigits fuel (n / 10) ((b'0' + n % 10) ∷ acc))

show_ℕ-AllDigits : (n : ℕ) → AllDigits (show_ℕ n)
unfolding show_ℕ
show_ℕ-AllDigits n = digits_onto-AllDigits (suc n) n [] tt

-- Digits do not say which form an address has; a dot does.
parse_addr_by-dot :
    (s t rest : Text)
    → AllDigits t
    → parse_addr_by s (t ++ (b'.' ∷ rest)) ≡ Option.map v4 (parse_v4 s)
unfolding parse_addr_by
parse_addr_by-dot s [] rest h = ground arith
parse_addr_by-dot s (c ∷ t) rest h = ground (arith, parse_addr_by-dot s t rest h.1)

parse_addr-dotted :
    (a b c d : ℕ)
    → a < 256
    → b < 256
    → c < 256
    → d < 256
    → parse_addr (dotted (a ∷ b ∷ c ∷ d ∷ [])) ≡ some (v4 (a ∷ b ∷ c ∷ d ∷ []))
unfolding parse_addr
parse_addr-dotted a b c d ha hb hc hd =
    unfold dotted in
    parse_addr_by-dot (dotted (a ∷ b ∷ c ∷ d ∷ [])) (show_ℕ a) (dotted (b ∷ c ∷ d ∷ []))
      (show_ℕ-AllDigits a)
    ∙ ap (Option.map v4) (parse_v4-dotted a b c d ha hb hc hd)

pub parse_addr-dotted_quad : (l : List ℕ) → IsQuad l → parse_addr (dotted l) ≡ some (v4 l)
parse_addr-dotted_quad (a ∷ b ∷ c ∷ d ∷ []) q =
    parse_addr-dotted a b c d q.bytes.0 q.bytes.1.0 q.bytes.1.1.0 q.bytes.1.1.1.0
parse_addr-dotted_quad l q = absurd (omega (arith, q.four))

-- The four bytes of an address that was printed are read back.
pub parse_ip-dotted : (l : List ℕ) → IsQuad l → parse_ip (dotted l) ≡ some (v4 l)
unfolding parse_ip
parse_ip-dotted l q = ap without_zone (parse_addr-dotted_quad l q)

dtoi-digits_onto :
    (fuel n : ℕ) (acc : Text)
    → n ≤ fuel
    → n < 0xffffff
    → dtoi 0 (digits_onto (suc fuel) n acc) ≡ dtoi n acc
unfolding dtoi digits_onto
dtoi-digits_onto zero n acc h b = ground arith
dtoi-digits_onto (suc fuel) n acc h b =
    ground (arith, dtoi-digits_onto fuel (n / 10) ((b'0' + n % 10) ∷ acc))

cut-append : (s t : Text) → All IsPlain s → cut b'/' (s ++ (b'/' ∷ t)) ≡ (s, some t)
unfolding cut
cut-append [] t h = ground arith
cut-append (c ∷ s) t h = ground (arith, cut-append s t h.1)

pub dtoi-show_ℕ : (n : ℕ) → n < 0xffffff → dtoi 0 (show_ℕ n) ≡ some n
unfolding show_ℕ
dtoi-show_ℕ n b = dtoi-digits_onto n n [] (omega arith) b ∙ (unfold dtoi in refl)

mask_length-show_ℕ : (n : ℕ) → n < 0xffffff → mask_length (show_ℕ n) ≡ some n
mask_length-show_ℕ n b = ground (arith, show_ℕ_full n, dtoi-show_ℕ n b)

-- A printed address with the length of a prefix behind it is read back.
pub parse_cidr-dotted :
    (l : List ℕ) (n : ℕ)
    → IsQuad l
    → n ≤ 32
    → parse_cidr (dotted l ++ (b'/' ∷ show_ℕ n)) ≡ some (v4 l, n)
unfolding parse_cidr
parse_cidr-dotted l n q h = ground (
  arith,
  cut-append (dotted l) (show_ℕ n) (dotted-IsPlain l),
  parse_addr-dotted_quad l q,
  mask_length-show_ℕ n (omega arith),
)
