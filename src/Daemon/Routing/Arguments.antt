-- ===== src/Daemon/Routing/Arguments.antt =====
-- What windows_daemon/routing.go hands to route.exe.
use fastflow_client.Base.{
  ℕ, ◌≡◌, refl, ◌≢◌, ◌⊎◌, inl, inr, Option, none, some, List, [], ◌∷◌, arith, length, length-drop,
  Option-cases,
}
use mathlib.Core.Path.{subst}
use fastflow_client.Base.Calls.{Result, ok, err}
use fastflow_client.Base.Text.{Text, codes}
use fastflow_client.Net.{
  Addr, v4, parse_cidr, parse_ip, to_4, mask_ip, mask_bytes, dotted, bytes_of,
}
use fastflow_client.Net.Bytes.{IsAddress, dotted-IsAddress, length-mask_ip, length-mask_bytes}
use fastflow_client.Daemon.Os.{Os, system32}
use fastflow_client.Daemon.Routing.{
  parse_v4_cidr, add_route, remove_route, network, check_v4, gateway_bytes, add_via,
}

length-to_4 : (l m : List ℕ) → to_4 l ≡ some m → length m ≡ 4
unfolding to_4
length-to_4 l m h = ground (arith, length-drop 12 l)

-- The two texts of a range that was accepted.
record IsNet (net : Text × Text) : Type 0 where
  ip : IsAddress net.0
  mask : IsAddress net.1

module _ (os : Os) where
  check_v4-IsNet :
      (cidr : Text) (ip mask : List ℕ) (net : Text × Text)
      → check_v4 os cidr (ip, mask) ≡ ok net
      → IsNet net
  check_v4-IsNet cidr ip mask net h = elim (Option-cases (to_4 ip)) [
    | inl e ↦ ground arith
    | inr (m, e) ↦
        ground
          (arith, dotted-IsAddress m (omega (arith, length-to_4 ip m e)), dotted-IsAddress mask)
  ]

  parse_v4_cidr-IsNet :
      (cidr : Text) (net : Text × Text) → parse_v4_cidr os cidr ≡ ok net → IsNet net
  unfolding parse_v4_cidr
  parse_v4_cidr-IsNet cidr net h = elim (Option-cases (parse_cidr cidr)) [
    | inl e ↦ ground arith
    | inr (p, e) ↦ let (ip, mask) = network p in check_v4-IsNet cidr ip mask net (ground arith)
  ]

  gateway-IsAddress :
      (a : Option Addr) (gw : List ℕ) → gateway_bytes os a ≡ some gw → IsAddress (dotted gw)
  gateway-IsAddress none gw h = cc
  gateway-IsAddress (some a) gw h =
      dotted-IsAddress gw (omega (arith, length-to_4 (bytes_of a) gw h))

  -- An error with nothing touched, or one run of route.exe with plain arguments.
  abbrev pub IsSafeRun : os.State → os.State × Option Text → Type 0
  IsSafeRun s r =
      ((r.1 ≢ none) × (r.0 ≡ s))
      ⊎ ((ip : Text) × (mask : Text) × (gw : Text) × IsAddress ip
          × IsAddress mask
          × IsAddress gw
          × (r
              ≡ os.run (system32 os (codes "route.exe"))
                  (codes "ADD" ∷ ip ∷ codes "MASK" ∷ mask ∷ gw ∷ []) s))

  add_via-IsSafeRun :
      (gateway : Text) (g : Option (List ℕ)) (net : Text × Text) (s : os.State)
      → IsNet net
      → ((gw : List ℕ) → g ≡ some gw → IsAddress (dotted gw))
      → IsSafeRun s (add_via os gateway g net s)
  add_via-IsSafeRun gateway none net s n h = inl ((λ e. cc), refl)
  add_via-IsSafeRun gateway (some gw) (ip, mask) s n h =
      inr (ip, mask, dotted gw, n.ip, n.mask, h gw refl, refl)

  -- Whatever texts a client sends, `addRoute` either returns an error and touches nothing, or runs
  -- route.exe once, with an address, a mask and a gateway that hold digits and dots alone.
  pub add_route-IsSafeRun :
      (cidr gateway : Text) (s : os.State) → IsSafeRun s (add_route os cidr gateway s)
  unfolding add_route
  add_route-IsSafeRun cidr gateway s = go (parse_v4_cidr os cidr) refl
    where
      go :
          (r : Result (Text × Text))
          → parse_v4_cidr os cidr ≡ r
          → IsSafeRun s (add_route os cidr gateway s)
      go (err m) e = inl ((ground arith), (ground arith))
      go (ok net) e = subst (IsSafeRun s) (ground arith) (
          add_via-IsSafeRun gateway (gateway_bytes os (parse_ip gateway)) net s
            (parse_v4_cidr-IsNet cidr net e) (gateway-IsAddress (parse_ip gateway)))

  pub parse_v4_cidr_of :
      (cidr : Text) (b : List ℕ) (n : ℕ)
      → length b ≡ 4
      → parse_cidr cidr ≡ some (v4 b, n)
      → parse_v4_cidr os cidr ≡ ok (dotted (mask_ip n b), dotted (mask_bytes 4 n))
  unfolding parse_v4_cidr
  parse_v4_cidr_of cidr b n l p = ground (arith, length-mask_ip n b, length-mask_bytes 4 n)

  -- `removeRoute` does not look at the length of the prefix: for two IPv4 ranges with one network
  -- address it does the same.
  pub remove_route_ignores_length :
      (cidr other : Text) (b c : List ℕ) (m n : ℕ) (s : os.State)
      → length b ≡ 4
      → length c ≡ 4
      → parse_cidr cidr ≡ some (v4 b, m)
      → parse_cidr other ≡ some (v4 c, n)
      → mask_ip m b ≡ mask_ip n c
      → remove_route os cidr s ≡ remove_route os other s
  unfolding remove_route
  remove_route_ignores_length cidr other b c m n s lb lc p q e =
      ground (arith, parse_v4_cidr_of cidr b m lb p, parse_v4_cidr_of other c n lc q)
