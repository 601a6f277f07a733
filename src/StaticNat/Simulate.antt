-- ===== src/StaticNat/Simulate.antt =====
-- NAT/static_nat/main.c, which exchanges one private address for one public address.
use dpdk_for_beginners.Base.{
  ℕ, ◌+◌, ◌*◌, ◌^◌, ◌≡◌, ◌≢◌, refl, sym, ap, ◌∙◌, true, arith, List, [], ◌∷◌, ◌==◌, ==_iff, ==_ne,
  if◌then◌else◌,
}
use dpdk_for_beginners.Dpdk.{ByteOrder}
use dpdk_for_beginners.Packet.{Packet, Checksums, ether_type_ipv4}
use dpdk_for_beginners.NatPool.Apply.{recalc_ip}

-- NAT/static_nat/main.c: PRIVATE_IP and PUBLIC_IP
abbrev pub sim_private_ip : ℕ
sim_private_ip = 172 * 2 ^ 24 + 22 * 2 ^ 16 + 116 * 2 ^ 8 + 70

abbrev pub sim_public_ip : ℕ
sim_public_ip = 203 * 2 ^ 24 + 0 * 2 ^ 16 + 113 * 2 ^ 8 + 10

module _ (B : ByteOrder) (C : Checksums) where
  -- the two tests of `simulate_nat`, one after the other
  abbrev pub sim_out : Packet → Packet
  sim_out m =
      if m.src_addr == B.be32 sim_private_ip
      then record m { src_addr = B.be32 sim_public_ip }
      else m

  abbrev pub sim_in : Packet → Packet
  sim_in m =
      if m.dst_addr == B.be32 sim_public_ip
      then record m { dst_addr = B.be32 sim_private_ip }
      else m

  -- `simulate_nat` of NAT/static_nat/main.c, which leaves the checksum of layer 4 as it is
  unfoldable pub simulate_nat : Packet → Packet
  unfolding recalc_ip
  simulate_nat m =
      if m.ether_type == B.be16 ether_type_ipv4 then recalc_ip C (sim_in (sim_out m)) else m

  -- the loop over a burst
  unfoldable pub simulate_all : List Packet → List Packet
  unfolding simulate_nat
  simulate_all [] = []
  simulate_all (m ∷ ms) = simulate_nat m ∷ simulate_all ms

  open C use {ip_ok}

  valid : (m : Packet) → m.ether_type ≡ B.be16 ether_type_ipv4 → ip_ok (simulate_nat m) ≡ true
  unfolding simulate_nat recalc_ip
  valid m e = rw ((==_iff _ _).1 e) (C.ip_ok-ipv4_cksum _ refl)

  src-sim_in : (p : Packet) → (sim_in p).src_addr ≡ p.src_addr
  src-sim_in p = ground arith

  dst-sim_out : (p : Packet) → (sim_out p).dst_addr ≡ p.dst_addr
  dst-sim_out p = ground arith

  source :
      (m : Packet)
      → m.ether_type ≡ B.be16 ether_type_ipv4
      → (simulate_nat m).src_addr
        ≡ (if m.src_addr == B.be32 sim_private_ip then B.be32 sim_public_ip else m.src_addr)
  unfolding simulate_nat recalc_ip
  source m e = rw ((==_iff _ _).1 e) (src-sim_in (sim_out m) ∙ ground arith)

  destination :
      (m : Packet)
      → m.ether_type ≡ B.be16 ether_type_ipv4
      → (simulate_nat m).dst_addr
        ≡ (if m.dst_addr == B.be32 sim_public_ip then B.be32 sim_private_ip else m.dst_addr)
  unfolding simulate_nat recalc_ip
  destination m e = rw ((==_iff _ _).1 e) (
      taken (sim_out m)
      ∙ ap (λ d. if d == B.be32 sim_public_ip then B.be32 sim_private_ip else d) (dst-sim_out m))
    where
      taken :
          (p : Packet)
          → (sim_in p).dst_addr
            ≡ (if p.dst_addr == B.be32 sim_public_ip then B.be32 sim_private_ip else p.dst_addr)
      taken p = ground arith

  -- What the private host sends leaves with the public address, an answer to that comes back to the
  -- private host, and the header checksums of both are valid.
  pub simulate_nat_returns :
      (m reply : Packet)
      → m.ether_type ≡ B.be16 ether_type_ipv4
      → reply.ether_type ≡ B.be16 ether_type_ipv4
      → m.src_addr ≡ B.be32 sim_private_ip
      → m.dst_addr ≢ B.be32 sim_public_ip
      → m.dst_addr ≢ B.be32 sim_private_ip
      → reply.dst_addr ≡ (simulate_nat m).src_addr
      → reply.src_addr ≡ (simulate_nat m).dst_addr
      → ((simulate_nat m).src_addr ≡ B.be32 sim_public_ip)
        × ((simulate_nat m).dst_addr ≡ m.dst_addr)
        × ((simulate_nat reply).dst_addr ≡ m.src_addr)
        × ((simulate_nat reply).src_addr ≡ m.dst_addr)
        × (ip_ok (simulate_nat m) ≡ true)
        × (ip_ok (simulate_nat reply) ≡ true)
  simulate_nat_returns m reply em er src far other rd rs = (
    left,
    stays,
    destination reply er ∙ rw ((==_iff _ _).1 (rd ∙ left)) (sym src),
    source reply er ∙ rw (==_ne _ _ (λ q. other (sym stays ∙ sym rs ∙ q))) (rs ∙ stays),
    valid m em,
    valid reply er,
  )
    where
      left : (simulate_nat m).src_addr ≡ B.be32 sim_public_ip
      left = source m em ∙ rw ((==_iff _ _).1 src) refl

      stays : (simulate_nat m).dst_addr ≡ m.dst_addr
      stays = destination m em ∙ rw (==_ne _ _ far) refl
