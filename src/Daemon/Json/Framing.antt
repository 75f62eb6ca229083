-- ===== src/Daemon/Json/Framing.antt =====
-- Each response of windows_daemon/ipc.go is one line.
use fastflow_client.Base.{
  ℕ, zero, suc, ◌+◌, ◌/◌, ◌%◌, ◌≡◌, ◌≢◌, refl, sym, ap, ◌∙◌, Bool, true, false, List, [], ◌∷◌, ◌++◌,
  arith, All, All-append, map,
}
use mathlib.Core.List.{reverse, reverse-append, append_assoc, append-nil, flatten}
use fastflow_client.Base.Int.{ℤ, pos, negsuc}
use fastflow_client.Base.Text.{Text, codes, show_ℤ, show_ℕ, digits_onto}
use fastflow_client.Daemon.Ipc.{Response, Payload, no_payload, empty_payload, pong}
use fastflow_client.Daemon.Json.{
  escape_char, escape, marshal, write_resp, read_lines_from, read_lines, bool_text, payload_text,
  error_text,
}

-- Anything but a newline.
abbrev pub IsInline : ℕ → Type 0
IsInline c = c ≢ b'\n'

abbrev pub Inline-append : (s t : Text) → All IsInline s → All IsInline t → All IsInline (s ++ t)
Inline-append s t = All-append IsInline s t

escape_char-IsInline : (c : ℕ) → All IsInline (escape_char c)
unfolding escape_char codes
escape_char-IsInline c = ground arith

pub escape-IsInline : (s : Text) → All IsInline (escape s)
unfolding escape
escape-IsInline [] = tt
escape-IsInline (c ∷ s) =
    All-append IsInline (escape_char c) (escape s) (escape_char-IsInline c) (escape-IsInline s)

digits_onto-IsInline :
    (fuel n : ℕ) (acc : Text) → All IsInline acc → All IsInline (digits_onto fuel n acc)
unfolding digits_onto
digits_onto-IsInline zero n acc h = h
digits_onto-IsInline (suc fuel) n acc h =
    ground (arith, digits_onto-IsInline fuel (n / 10) ((b'0' + n % 10) ∷ acc))

pub show_ℤ-IsInline : (z : ℤ) → All IsInline (show_ℤ z)
unfolding show_ℤ show_ℕ
show_ℤ-IsInline (pos n) = digits_onto-IsInline (suc n) n [] tt
show_ℤ-IsInline (negsuc n) = ((λ e. omega arith), digits_onto-IsInline (suc (suc n)) (suc n) [] tt)

pub bool_text-IsInline : (b : Bool) → All IsInline (bool_text b)
unfolding codes
bool_text-IsInline true = ground arith
bool_text-IsInline false = ground arith

payload_text-IsInline : (p : Payload) → All IsInline (payload_text p)
unfolding codes
payload_text-IsInline no_payload = tt
payload_text-IsInline empty_payload = tt
payload_text-IsInline pong = ground arith

error_text-IsInline : (s : Text) → All IsInline (error_text s)
unfolding codes
error_text-IsInline [] = tt
error_text-IsInline (c ∷ s) =
    All-append IsInline (codes ",\"error\":\"") (escape (c ∷ s) ++ codes "\"") (ground arith)
      (All-append IsInline (escape (c ∷ s)) (codes "\"") (escape-IsInline (c ∷ s)) (ground arith))

marshal-IsInline : (r : Response) → All IsInline (marshal r)
unfolding marshal codes
marshal-IsInline r = Inline-append (codes "{\"id\":") _ (ground arith) (
    Inline-append (show_ℤ r.id) _ (show_ℤ-IsInline r.id) (
      Inline-append (codes ",\"ok\":") _ (ground arith) (
        Inline-append (bool_text r.ok) _ (bool_text-IsInline r.ok) (
          Inline-append (payload_text r.result) _ (payload_text-IsInline r.result)
            (Inline-append (error_text r.error) _ (error_text-IsInline r.error) (ground arith))))))

read_lines_from-other :
    (line : Text) (c : ℕ) (s : Text)
    → IsInline c
    → read_lines_from line (c ∷ s) ≡ read_lines_from (c ∷ line) s
unfolding read_lines_from
read_lines_from-other line c s h = ground arith

reverse-∷-append : (c : ℕ) (line l : Text) → reverse (c ∷ line) ++ l ≡ reverse line ++ (c ∷ l)
reverse-∷-append c line l =
    rw (reverse-append (c ∷ []) line) (append_assoc (reverse line) (c ∷ []) l)

read_lines_from-line :
    (line l s : Text)
    → All IsInline l
    → read_lines_from line (l ++ (b'\n' ∷ s)) ≡ (reverse line ++ l) ∷ read_lines_from [] s
unfolding read_lines_from
read_lines_from-line line [] s h =
    ap (λ l. l ∷ read_lines_from [] s) (sym (append-nil (reverse line)))
read_lines_from-line line (c ∷ l) s h =
    read_lines_from-other line c (l ++ (b'\n' ∷ s)) h.0
    ∙ (read_lines_from-line (c ∷ line) l s h.1
        ∙ ap (λ k. k ∷ read_lines_from [] s) (reverse-∷-append c line l))

-- Lines that are written one after the other are read back one by one.
pub read_lines-flatten {ℓ} :
    {A : Type ℓ} (f : A → Text) (xs : List A)
    → ((a : A) → All IsInline (f a))
    → read_lines (flatten (map (λ a. f a ++ (b'\n' ∷ [])) xs)) ≡ map f xs
unfolding read_lines flatten
read_lines-flatten f [] h = refl
read_lines-flatten f (a ∷ xs) h =
    let rest = flatten (map (λ b. f b ++ (b'\n' ∷ [])) xs) in
    rw (append_assoc (f a) (b'\n' ∷ []) rest)
      (read_lines_from-line [] (f a) rest (h a) ∙ ap (λ ls. f a ∷ ls) (read_lines-flatten f xs h))

-- Reading line by line what `writeResp` has written for some responses gives the encoding of each
-- of them, in order.
pub read_lines-write_resp :
    (rs : List Response) → read_lines (flatten (map write_resp rs)) ≡ map marshal rs
unfolding write_resp
read_lines-write_resp rs = read_lines-flatten marshal rs marshal-IsInline
