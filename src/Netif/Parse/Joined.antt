-- ===== src/Netif/Parse/Joined.antt =====
-- data/vpn_engine/platform_android.go: texts that are joined by commas are told apart again.
use fastflow_client.Base.{
  ℕ, ◌≡◌, ◌≢◌, refl, sym, ap, ◌∙◌, false, List, [], ◌∷◌, ◌++◌, length, All, All-reverse, arith,
  ◌==◌,
}
use fastflow_client.Base.Text.{Text, split_onto, split, is_space, trim_left, trim_space}
use fastflow_client.Netif.Parse.{split_non_empty, keep_non_empty}
use mathlib.Core.List.{reverse, reverse-cons, reverse-reverse, append-nil, append_assoc}

-- `strings.Join(texts, ",")`
unfoldable pub joined : List Text → Text
joined [] = []
joined (t ∷ []) = t
joined (t ∷ u ∷ ts) = t ++ (b',' ∷ joined (u ∷ ts))

-- A character that neither separates two texts nor surrounds one.
abbrev pub IsInner : ℕ → Type 0
IsInner c = (c ≢ b',') × (is_space c ≡ false)

abbrev pub IsWord : Text → Type 0
IsWord t = (t ≢ []) × All IsInner t

reverse_cons-append : (c : ℕ) (acc t : Text) → reverse (c ∷ acc) ++ t ≡ reverse acc ++ (c ∷ t)
reverse_cons-append c acc t = rw (reverse-cons c acc) (append_assoc (reverse acc) (c ∷ []) t)

no_comma : (c : ℕ) → c ≢ b',' → (c == b',') ≡ false
no_comma c n = ground (arith, n)

split_onto_last : (acc t : Text) → All IsInner t → split_onto b',' acc t ≡ (reverse acc ++ t) ∷ []
unfolding split_onto
split_onto_last acc [] h = ap (λ s. s ∷ []) (sym (append-nil (reverse acc)))
split_onto_last acc (c ∷ t) h =
    rw (split_onto, no_comma c h.0.0, split_onto_last (c ∷ acc) t h.1, reverse_cons-append c acc t)

split_onto-append :
    (acc t rest : Text)
    → All IsInner t
    → split_onto b',' acc (t ++ (b',' ∷ rest)) ≡ (reverse acc ++ t) ∷ split_onto b',' [] rest
unfolding split_onto
split_onto-append acc [] rest h =
    ap (λ s. s ∷ split_onto b',' [] rest) (sym (append-nil (reverse acc)))
split_onto-append acc (c ∷ t) rest h = rw (
  split_onto,
  no_comma c h.0.0,
  split_onto-append (c ∷ acc) t rest h.1,
  reverse_cons-append c acc t,
)

-- A list of words that is joined by commas is split into the same words.
pub split-joined :
    (t : Text) (ts : List Text) → All IsWord (t ∷ ts) → split b',' (joined (t ∷ ts)) ≡ t ∷ ts
unfolding split joined
split-joined t [] h = split_onto_last [] t h.0.1
split-joined t (u ∷ ts) h =
    split_onto-append [] t (joined (u ∷ ts)) h.0.1 ∙ ap (λ rest. t ∷ rest) (split-joined u ts h.1)

trim_left_inner : (t : Text) → All IsInner t → trim_left t ≡ t
unfolding trim_left
trim_left_inner [] h = refl
trim_left_inner (c ∷ t) h = rw (trim_left, h.0.1)

pub trim_space_inner : (t : Text) → All IsInner t → trim_space t ≡ t
unfolding trim_space
trim_space_inner t h =
    rw (
      trim_left_inner t h,
      trim_left_inner (reverse t) (All-reverse IsInner t h),
      reverse-reverse t,
    )

pub word_length : (t : Text) → t ≢ [] → (length t == 0) ≡ false
word_length [] n = absurd (n refl)
word_length (c ∷ t) n = ground arith

pub joined_full : (t : Text) (ts : List Text) → t ≢ [] → (length (joined (t ∷ ts)) == 0) ≡ false
unfolding joined
joined_full [] ts n = absurd (n refl)
joined_full (c ∷ t) [] n = ground arith
joined_full (c ∷ t) (u ∷ ts) n = ground arith

keep_non_empty_words : (ts : List Text) → All IsWord ts → keep_non_empty ts ≡ ts
unfolding keep_non_empty
keep_non_empty_words [] h = refl
keep_non_empty_words (t ∷ ts) h =
    rw (keep_non_empty, trim_space_inner t h.0.1, word_length t h.0.0, keep_non_empty_words ts h.1)

-- A list of words, none of them empty and with no comma or space in them, that is joined by commas
-- is read back as it was.
pub split_non_empty-joined : (ts : List Text) → All IsWord ts → split_non_empty (joined ts) ≡ ts
unfolding split_non_empty
split_non_empty-joined [] h = unfold joined in refl
split_non_empty-joined (t ∷ ts) h =
    rw (joined_full t ts h.0.0, split-joined t ts h) (keep_non_empty_words (t ∷ ts) h)
