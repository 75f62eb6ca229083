-- ===== src/Net/Tests.antt =====
-- Addresses as the packages `net` and `net/netip` read them.
use fastflow_client.Base.{◌≡◌, refl, none, some, [], ◌∷◌}
use fastflow_client.Base.Text.{codes}
use fastflow_client.Net.{v4, v6, parse_addr, parse_cidr, mask_bytes, mask_ip, dotted}

reads_v4 : parse_addr (codes "10.20.0.255") ≡ some (v4 (10 ∷ 20 ∷ 0 ∷ 255 ∷ []))
unfolding codes parse_addr
reads_v4 = refl

refuses_v4 : parse_addr (codes "10.020.0.255") ≡ none
unfolding codes parse_addr
refuses_v4 = refl

reads_v6 :
    parse_addr (codes "fe80::1:2%eth0")
    ≡ some (
        v6
          (0xfe ∷ 0x80 ∷ 0 ∷ 0 ∷ 0 ∷ 0 ∷ 0 ∷ 0 ∷ 0 ∷ 0 ∷ 0 ∷ 0 ∷ 0 ∷ 1 ∷ 0 ∷ 2 ∷ [])
          (codes "eth0"))
unfolding codes parse_addr
reads_v6 = refl

reads_mapped :
    parse_addr (codes "::ffff:1.2.3.4")
    ≡ some (v6 (0 ∷ 0 ∷ 0 ∷ 0 ∷ 0 ∷ 0 ∷ 0 ∷ 0 ∷ 0 ∷ 0 ∷ 255 ∷ 255 ∷ 1 ∷ 2 ∷ 3 ∷ 4 ∷ []) [])
unfolding codes parse_addr
reads_mapped = refl

reads_cidr : parse_cidr (codes "10.20.30.40/20") ≡ some (v4 (10 ∷ 20 ∷ 30 ∷ 40 ∷ []), 20)
unfolding codes parse_cidr
reads_cidr = refl

masks : mask_ip 20 (10 ∷ 20 ∷ 30 ∷ 40 ∷ []) ≡ 10 ∷ 20 ∷ 16 ∷ 0 ∷ []
unfolding mask_ip
masks = refl

prints_mask : dotted (mask_bytes 4 20) ≡ codes "255.255.240.0"
unfolding codes mask_bytes dotted
prints_mask = refl
