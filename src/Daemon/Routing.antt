-- ===== src/Daemon/Routing.antt =====
-- windows_daemon/routing.go: static routes, by way of route.exe.
pub mod Arguments
pub mod Runs
use fastflow_client.Base.{ℕ, ◌==◌, length, if◌then◌else◌, Option, none, some, List, [], ◌∷◌, ◌++◌}
use fastflow_client.Base.Calls.{Result, ok, err}
use fastflow_client.Base.Text.{Text, codes}
use fastflow_client.Net.{
  Addr, v4, v6, parse_cidr, parse_ip, to_4, mask_ip, mask_bytes, dotted, bytes_of,
}
use fastflow_client.Daemon.Os.{Os, Action, system32}

-- The network address and the mask, in the forms that `ParseCIDR` gives them: four bytes each for
-- an IPv4 address, sixteen for an IPv6 address.
abbrev pub network : Addr × ℕ → List ℕ × List ℕ
network (v4 bytes, n) = (mask_ip n bytes, mask_bytes 4 n)
network (v6 bytes zone, n) = (mask_ip n bytes, mask_bytes 16 n)

-- `parseIPv4CIDR`: the texts of the network address and of the mask.
abbrev pub check_v4 : (os : Os) → Text → List ℕ × List ℕ → Result (Text × Text)
check_v4 os cidr (ip, mask) = elim (to_4 ip) [
  | none ↦ err (codes "cidr " ++ (os.quote cidr ++ codes " is not IPv4"))
  | some bytes ↦
      if length mask == 4
      then ok (dotted bytes, dotted mask)
      else err (codes "cidr " ++ (os.quote cidr ++ codes " is not IPv4"))
]

module _ (os : Os) where
  unfoldable pub parse_v4_cidr : Text → Result (Text × Text)
  unfolding parse_cidr to_4 mask_ip mask_bytes dotted
  parse_v4_cidr cidr = elim (parse_cidr cidr) [
    | none ↦ err (codes "invalid cidr " ++ os.quote cidr)
    | some prefix ↦ check_v4 os cidr (network prefix)
  ]

  abbrev pub route : List Text → Action os
  route = os.run (system32 os (codes "route.exe"))

  -- The gateway's four bytes, where `ParseIP` reads an address that has them.
  abbrev pub gateway_bytes : Option Addr → Option (List ℕ)
  gateway_bytes none = none
  gateway_bytes (some a) = to_4 (bytes_of a)

  abbrev pub add_via : Text → Option (List ℕ) → Text × Text → Action os
  add_via gateway none net s = (s, some (codes "invalid gateway " ++ os.quote gateway))
  add_via gateway (some gw) (ip, mask) s =
      route (codes "ADD" ∷ ip ∷ codes "MASK" ∷ mask ∷ dotted gw ∷ []) s

  unfoldable pub add_route : Text → Text → Action os
  unfolding parse_v4_cidr parse_ip system32
  add_route cidr gateway s = elim (parse_v4_cidr cidr) [
    | err message ↦ (s, some message)
    | ok net ↦ add_via gateway (gateway_bytes (parse_ip gateway)) net s
  ]

  unfoldable pub remove_route : Text → Action os
  unfolding parse_v4_cidr system32
  remove_route cidr s = elim (parse_v4_cidr cidr) [
    | err message ↦ (s, some message)
    | ok (ip, mask) ↦ route (codes "DELETE" ∷ ip ∷ []) s
  ]
