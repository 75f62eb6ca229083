-- ===== src/Netif/Parse/Prefixes.antt =====
-- data/vpn_engine/platform_android.go: the addresses of a snapshot, as the platform writes them, are
-- read back.
use fastflow_client.Base.{
  ℕ, zero, suc, ◌+◌, ◌/◌, ◌%◌, ◌≤◌, ◌<◌, ◌≡◌, ◌≢◌, refl, none, some, List, [], ◌∷◌, ◌++◌, All,
  All-append, map, arith, inl, inr, Bool-cases, ltb,
}
use fastflow_client.Base.Text.{Text, show_ℕ, digits_onto, is_space}
use fastflow_client.Net.{Addr, v4, dotted, dtoi}
use fastflow_client.Net.Bytes.{IsQuad, IsPlain, dotted-IsPlain}
use fastflow_client.Net.Printing.{parse_addr-dotted_quad, dtoi-show_ℕ}
use fastflow_client.Netif.Parse.{
  cut_last, prefix_length, parse_prefix, keep_prefixes, parse_prefixes,
}
use fastflow_client.Netif.Parse.Joined.{
  word_length, joined, IsInner, IsWord, split-joined, trim_space_inner, joined_full,
}

-- An IPv4 address with the length of a prefix, in the usual notation.
abbrev pub prefix_text : List ℕ × ℕ → Text
prefix_text (l, n) = dotted l ++ (b'/' ∷ show_ℕ n)

abbrev pub IsPrefix : List ℕ × ℕ → Type 0
IsPrefix (l, n) = IsQuad l × (n ≤ 32)

without_slash : (t : Text) → All IsPlain t → cut_last b'/' t ≡ none
unfolding cut_last
without_slash [] h = refl
without_slash (c ∷ t) h = ground (arith, without_slash t h.1)

cut_last-append : (s t : Text) → All IsPlain t → cut_last b'/' (s ++ (b'/' ∷ t)) ≡ some (s, t)
unfolding cut_last
cut_last-append [] t h = ground (arith, without_slash t h)
cut_last-append (c ∷ s) t h = ground (arith, cut_last-append s t h)

show_one : (n : ℕ) → n < 10 → show_ℕ n ≡ (b'0' + n) ∷ []
unfolding show_ℕ digits_onto
show_one n h = ground arith

show_two : (n : ℕ) → 10 ≤ n → n < 100 → show_ℕ n ≡ (b'0' + n / 10) ∷ (b'0' + n % 10) ∷ []
unfolding show_ℕ digits_onto
show_two zero h k = absurd (omega arith)
show_two (suc n) h k = ground arith

prefix_length_two :
    (c d : ℕ) → b'1' ≤ c → c ≤ b'9' → prefix_length (c ∷ d ∷ []) ≡ dtoi 0 (c ∷ d ∷ [])
prefix_length_two c d h k = ground arith

prefix_length-show_ℕ : (n : ℕ) → n ≤ 32 → prefix_length (show_ℕ n) ≡ some n
prefix_length-show_ℕ n h = elim (Bool-cases (ltb n 10)) [
  | inl small ↦
      let one = show_one n (ground arith) in
      let read = dtoi-show_ℕ n (omega arith) in rw one (rw one at read)
  | inr large ↦
      let two = show_two n (ground arith) (ground arith) in
      let read = dtoi-show_ℕ n (omega arith) in
      rw (two, prefix_length_two (b'0' + n / 10) (b'0' + n % 10) (ground arith) (ground arith))
        (rw two at read)
]

show_ℕ-IsPlain : (n : ℕ) → All IsPlain (show_ℕ n)
unfolding dotted
show_ℕ-IsPlain n = dotted-IsPlain (n ∷ [])

parse_prefix-prefix_text :
    (p : List ℕ × ℕ) → IsPrefix p → parse_prefix (prefix_text p) ≡ some (v4 p.0, p.1)
unfolding parse_prefix
parse_prefix-prefix_text (l, n) (q, h) = ground (
  arith,
  cut_last-append (dotted l) (show_ℕ n) (show_ℕ-IsPlain n),
  parse_addr-dotted_quad l q,
  prefix_length-show_ℕ n h,
)

IsPlain-IsInner : (c : ℕ) → IsPlain c → IsInner c
unfolding is_space
IsPlain-IsInner c h = ground arith

All-IsInner : (t : Text) → All IsPlain t → All IsInner t
All-IsInner [] h = tt
All-IsInner (c ∷ t) h = (IsPlain-IsInner c h.0, All-IsInner t h.1)

slash_fits : IsInner b'/'
unfolding is_space
slash_fits = ground arith

not_empty : (s t : Text) → s ++ (b'/' ∷ t) ≢ []
not_empty [] t e = cc
not_empty (c ∷ s) t e = cc

prefix_text-IsWord : (p : List ℕ × ℕ) → IsWord (prefix_text p)
prefix_text-IsWord (l, n) = (
  not_empty (dotted l) (show_ℕ n),
  All-append IsInner (dotted l) (b'/' ∷ show_ℕ n) (All-IsInner (dotted l) (dotted-IsPlain l))
      (slash_fits, All-IsInner (show_ℕ n) (show_ℕ-IsPlain n)),
)

abbrev pub read_as : List ℕ × ℕ → Addr × ℕ
read_as (l, n) = (v4 l, n)

keep_prefixes-map :
    (ps : List (List ℕ × ℕ)) → All IsPrefix ps → keep_prefixes (map prefix_text ps) ≡ map read_as ps
unfolding keep_prefixes
keep_prefixes-map [] h = refl
keep_prefixes-map ((l, n) ∷ ps) h =
    let word = prefix_text-IsWord (l, n) in
    rw (
      keep_prefixes,
      trim_space_inner (prefix_text (l, n)) word.1,
      word_length (prefix_text (l, n)) word.0,
      parse_prefix-prefix_text (l, n) h.0,
      keep_prefixes-map ps h.1,
    )

map-AllWords : (ps : List (List ℕ × ℕ)) → All IsWord (map prefix_text ps)
map-AllWords [] = tt
map-AllWords (p ∷ ps) = (prefix_text-IsWord p, map-AllWords ps)

-- The IPv4 prefixes of a network, written in the usual notation and joined by commas, are read back
-- as they were, in their order.
pub parse_prefixes-joined :
    (ps : List (List ℕ × ℕ))
    → All IsPrefix ps
    → parse_prefixes (joined (map prefix_text ps)) ≡ map read_as ps
unfolding parse_prefixes
parse_prefixes-joined [] h = unfold joined in refl
parse_prefixes-joined (p ∷ ps) h =
    let full = joined_full (prefix_text p) (map prefix_text ps) (prefix_text-IsWord p).0 in
    let words = split-joined (prefix_text p) (map prefix_text ps) (map-AllWords (p ∷ ps)) in
    rw (full, words) (keep_prefixes-map (p ∷ ps) h)
