-- ===== src/Router/Routes.antt =====
-- Where the routes of longest_prefix_match_lpm/simple/main.c lead.
use dpdk_for_beginners.Base.{
  ℕ, ◌+◌, ◌*◌, ◌/◌, ◌^◌, ◌<◌, ◌≡◌, refl, Bool, true, false, Option, none, some, List, [], ◌∷◌,
  length, map, All, Shuffle, done, to_left, to_right, ltb, leb, ◌==◌, ◌&&◌, if◌then◌else◌,
  Bool-cases, inl, inr, arith,
}
use dpdk_for_beginners.Dpdk.{ByteOrder}
use dpdk_for_beginners.Packet.{ether_type_ipv4}
use dpdk_for_beginners.Frame.{Memory, IsBytes, be16_at, be32_at, load16, load16_iff, be32-load32}
use dpdk_for_beginners.Router.{
  Route, longest, hop_of, Lpm, ipv4_address, Line, ignored, next, no_route, Routed, after_packet,
  init_lpm, line_of, route_packet, route_burst,
}

-- The next hop for an address with these first bytes.
abbrev pub hop_by_bytes : ℕ → ℕ → ℕ → Option ℕ
hop_by_bytes a b c =
    if a == 10 && b == 1
    then (if c == 2 then some 1 else some 2)
    else if a == 192
    then some 3
    else if leb 160 a && ltb a 176
    then some 4
    else none

abbrev four_routes : List Route
four_routes =
    record { ip = ipv4_address 172 0 0 0; depth = 4; next_hop = 4 }
    ∷ record { ip = ipv4_address 192 0 0 0; depth = 8; next_hop = 3 }
    ∷ record { ip = ipv4_address 10 1 0 0; depth = 16; next_hop = 2 }
    ∷ record { ip = ipv4_address 10 1 2 0; depth = 24; next_hop = 1 }
    ∷ []

module _ (a b c d : ℕ) (ha : a < 256) (hb : b < 256) (hc : c < 256) (hd : d < 256) where
  abbrev ip : ℕ
  ip = a * 2 ^ 24 + b * 2 ^ 16 + c * 2 ^ 8 + d

  by_4 : (ip / 2 ^ 28 == ipv4_address 172 0 0 0 / 2 ^ 28) ≡ leb 160 a && ltb a 176
  by_4 = ground arith

  by_8 : (ip / 2 ^ 24 == ipv4_address 192 0 0 0 / 2 ^ 24) ≡ (a == 192)
  by_8 = ground arith

  by_16 : (ip / 2 ^ 16 == ipv4_address 10 1 0 0 / 2 ^ 16) ≡ a == 10 && b == 1
  by_16 = ground arith

  by_24 : (ip / 2 ^ 8 == ipv4_address 10 1 2 0 / 2 ^ 8) ≡ (a == 10 && b == 1) && (c == 2)
  by_24 = ground arith

  longest-four : hop_of (longest ip four_routes) ≡ hop_by_bytes a b c
  longest-four = rw (by_4, by_8, by_16, by_24) (ground arith)

module _ (O : ByteOrder) (L : Lpm) where
  open L use {routes, lookup, add, create, routes-add, routes-create, lookup-longest}

  add-to :
      (t : L.Table) (a d n : ℕ) (rs : List Route)
      → leb 1 d ≡ true
      → leb d 24 ≡ true
      → ltb (length rs) 1024 ≡ true
      → routes t ≡ rs
      → routes (add t a d n) ≡ record { ip = a; depth = d; next_hop = n } ∷ rs
  add-to t a d n rs low high small q = rw (← q) (
      routes-add t a d n (ground (arith, low)) (ground (arith, high))
        (rw q (ground (arith, small))))

  routes-init_lpm : routes (init_lpm O L) ≡ four_routes
  unfolding init_lpm
  routes-init_lpm =
      let one = add-to create _ 24 1 [] refl refl refl routes-create in
      let two = add-to _ _ 16 2 _ refl refl refl one in
      let three = add-to _ _ 8 3 _ refl refl refl two in add-to _ _ 4 4 _ refl refl refl three

  abbrev pub line_by_bytes : Memory → Line
  line_by_bytes pkt =
      if be16_at pkt 12 == ether_type_ipv4
      then line_of O L (be32_at pkt 30) (hop_by_bytes (pkt 30) (pkt 31) (pkt 32))
      else ignored

  -- With the four routes of `init_lpm`, an IPv4 packet to 10.1.2.* goes to hop 1, any other to 10.1.*.* to
  -- hop 2, one to 192.*.*.* to hop 3, and one whose destination starts with a byte from 160 to 175 to
  -- hop 4; there is no route for any other, and a packet that is not IPv4 is ignored.
  pub route_packet-init_lpm :
      (pkt : Memory) → IsBytes pkt → route_packet O L (init_lpm O L) pkt ≡ line_by_bytes pkt
  unfolding route_packet
  route_packet-init_lpm pkt b =
      let type = load16_iff O pkt 12 ether_type_ipv4 b (omega arith) in
      let same : (load16 O pkt 12 == O.be16 ether_type_ipv4) ≡ (be16_at pkt 12 == ether_type_ipv4) =
        ground (arith, type.0, type.1) in
      let dst = be32-load32 O pkt 30 b in
      let found : lookup (init_lpm O L) (be32_at pkt 30) ≡ hop_by_bytes (pkt 30) (pkt 31) (pkt 32) =
        rw (lookup-longest (init_lpm O L) (be32_at pkt 30), routes-init_lpm)
          (longest-four (pkt 30) (pkt 31) (pkt 32) (pkt 33) (b 30) (b 31) (b 32) (b 33)) in
      rw (same, dst, found) refl

  abbrev pub IsIpv4 : Memory → Type 0
  IsIpv4 pkt = be16_at pkt 12 ≡ ether_type_ipv4

  abbrev IsRouted : Line → Type 0
  IsRouted ignored = ⊥
  IsRouted (next dst hop) = Unit
  IsRouted (no_route dst) = Unit

  routed-IsIpv4 : (pkt : Memory) → IsRouted (line_by_bytes pkt) → IsIpv4 pkt
  routed-IsIpv4 pkt h = elim (Bool-cases (be16_at pkt 12 == ether_type_ipv4)) [
    | inl is_ip ↦ ground arith
    | inr other ↦ absurd (rw other at h)
  ]

  after_packet-fate :
      (line : Line) (pkt : Memory) (taken : Bool) (rest : Routed) (pkts : List Memory)
      → (IsRouted line → IsIpv4 pkt)
      → Shuffle rest.sent rest.lost pkts
      → All IsIpv4 rest.sent
      → let r = after_packet line pkt taken rest in
        (r.printed ≡ line ∷ rest.printed) × Shuffle r.sent r.lost (pkt ∷ pkts) × All IsIpv4 r.sent
  after_packet-fate ignored pkt taken rest pkts h s a = (refl, to_right s, a)
  after_packet-fate (next dst hop) pkt true rest pkts h s a = (refl, to_left s, (h tt, a))
  after_packet-fate (next dst hop) pkt false rest pkts h s a = (refl, to_right s, a)
  after_packet-fate (no_route dst) pkt true rest pkts h s a = (refl, to_left s, (h tt, a))
  after_packet-fate (no_route dst) pkt false rest pkts h s a = (refl, to_right s, a)

  -- Of a burst of frames, the line that is printed about each is the one of the routes of `init_lpm`, by
  -- the bytes of the frame: an IPv4 packet to 10.1.2.* goes to hop 1, any other to 10.1.*.* to hop 2, one to
  -- 192.*.*.* to hop 3, one whose destination starts with a byte from 160 to 175 to hop 4, and there is no
  -- route for any other. Each frame is sent or lost, in their order, and those that are sent are IPv4.
  pub route_burst-init_lpm :
      (pkts : List (Memory × Bool))
      → All (λ p. IsBytes p.0) pkts
      → let r = route_burst O L (init_lpm O L) pkts in
        (r.printed ≡ map (λ p. line_by_bytes p.0) pkts)
        × Shuffle r.sent r.lost (map (λ p. p.0) pkts)
        × All IsIpv4 r.sent
  unfolding route_burst
  route_burst-init_lpm [] b = (refl, done, tt)
  route_burst-init_lpm ((pkt, taken) ∷ pkts) b =
      let (p, s, a) = route_burst-init_lpm pkts b.1 in
      let (q, u, c) =
        after_packet-fate _ pkt taken (route_burst O L (init_lpm O L) pkts) _ (routed-IsIpv4 pkt) s
          a in
      rw (route_packet-init_lpm pkt b.0) ((rw p at q), u, c)
