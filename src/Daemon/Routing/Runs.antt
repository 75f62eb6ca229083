-- ===== src/Daemon/Routing/Runs.antt =====
-- What windows_daemon/routing.go does with well-formed arguments.
use fastflow_client.Base.{
  ℕ, ◌-◌, ◌+◌, ◌*◌, ◌^◌, ◌≤◌, ◌≡◌, refl, Bool, true, some, List, [], ◌∷◌, ◌++◌, ◌==◌, zero, suc,
  arith, ==_iff, Bool-cases, inl, inr, false, if◌then◌else◌,
}
use fastflow_client.Base.Calls.{ok}
use fastflow_client.Base.Text.{Text, codes, show_ℕ}
use fastflow_client.Net.{to_4, mask_ip, mask_bytes, dotted}
use fastflow_client.Net.Bytes.{IsQuad}
use fastflow_client.Net.Printing.{parse_cidr-dotted, parse_ip-dotted}
use fastflow_client.Daemon.Os.{Os, system32}
use fastflow_client.Daemon.Routing.{parse_v4_cidr, add_route, remove_route}
use fastflow_client.Daemon.Routing.Arguments.{parse_v4_cidr_of}

-- An IPv4 range as a client writes it.
abbrev pub range_text : List ℕ → ℕ → Text
range_text bytes n = dotted bytes ++ (b'/' ∷ show_ℕ n)

-- The number that four bytes stand for.
abbrev pub word : List ℕ → ℕ → ℕ
word [] n = n
word (b ∷ l) n = word l (n * 256 + b)

-- Whether the mask of a length is the number whose bits of that many first places are set.
abbrev sets_first : ℕ → Bool
sets_first len = word (mask_bytes 4 len) 0 == 2 ^ 32 - 2 ^ (32 - len)

down_to_zero : ℕ → Bool
down_to_zero zero = sets_first zero
down_to_zero (suc len) =
    let shorter = down_to_zero len in if sets_first (suc len) then shorter else false

shorter-sets_first : (top len : ℕ) → down_to_zero top ≡ true → len ≤ top → sets_first len ≡ true
unfolding down_to_zero
shorter-sets_first zero zero all h = all
shorter-sets_first zero (suc len) all h = absurd (omega arith)
shorter-sets_first (suc top) len all h = elim (Bool-cases (len == suc top)) [
  | inl last ↦ rw ((==_iff len (suc top)).0 last) (ground arith)
  | inr before ↦ shorter-sets_first top len (ground arith) (ground arith)
]

word-mask_bytes : (n : ℕ) → n ≤ 32 → word (mask_bytes 4 n) 0 ≡ 2 ^ 32 - 2 ^ (32 - n)
word-mask_bytes n h =
    (==_iff (word (mask_bytes 4 n) 0) (2 ^ 32 - 2 ^ (32 - n))).0
      (shorter-sets_first 32 n (unfold down_to_zero mask_bytes in refl) h)

module _ (os : Os) where
  parse_v4_cidr-range_text :
      (bytes : List ℕ) (n : ℕ)
      → IsQuad bytes
      → n ≤ 32
      → parse_v4_cidr os (range_text bytes n)
        ≡ ok (dotted (mask_ip n bytes), dotted (mask_bytes 4 n))
  parse_v4_cidr-range_text bytes n q h =
      parse_v4_cidr_of os (range_text bytes n) bytes n q.four (parse_cidr-dotted bytes n q h)

  to_4_quad : (l : List ℕ) → IsQuad l → to_4 l ≡ some l
  unfolding to_4
  to_4_quad l q = ground arith

  -- For every IPv4 range and gateway, each written in the usual way, `addRoute` and `removeRoute`
  -- return the outcome of one run of route.exe, with the range's network address and, for
  -- `addRoute`, its mask and the gateway. The mask is the number whose first bits are set, as many
  -- as the range says.
  pub add_route-remove_route :
      (bytes gateway : List ℕ) (n : ℕ) (s : os.State)
      → IsQuad bytes
      → IsQuad gateway
      → n ≤ 32
      → (add_route os (range_text bytes n) (dotted gateway) s
          ≡ os.run
              (system32 os (codes "route.exe"))
              (codes "ADD"
                ∷ dotted (mask_ip n bytes)
                ∷ codes "MASK"
                ∷ dotted (mask_bytes 4 n)
                ∷ dotted gateway
                ∷ [])
              s)
        × (remove_route os (range_text bytes n) s
            ≡ os.run
                (system32 os (codes "route.exe"))
                (codes "DELETE" ∷ dotted (mask_ip n bytes) ∷ [])
                s)
        × (word (mask_bytes 4 n) 0 ≡ 2 ^ 32 - 2 ^ (32 - n))
  unfolding add_route remove_route
  add_route-remove_route bytes gateway n s q g h = (
    ground (
      arith,
      parse_v4_cidr-range_text bytes n q h,
      parse_ip-dotted gateway g,
      to_4_quad gateway g,
    ),
    ground (arith, parse_v4_cidr-range_text bytes n q h),
    word-mask_bytes n h,
  )
