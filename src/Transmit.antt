-- ===== src/Transmit.antt =====
-- tranmit_packet: packet_creation/simple_tx.c builds a UDP packet, and swap_addr/main.c sends packets back
-- with their Ethernet addresses exchanged.
pub mod Swap
pub mod Send
use dpdk_for_beginners.Base.{
  ℕ, ◌+◌, ◌-◌, ◌≡◌, refl, Bool, true, false, none, List, [], ◌∷◌, ◌++◌, length, take, drop,
}
use dpdk_for_beginners.Vxlan.{be16_bytes, be32_bytes, ether_type_ipv4, ipproto_udp}
use dpdk_for_beginners.Mbuf.{Segment}
use dpdk_for_beginners.Dpdk.Sample.{little_endian}
use dpdk_for_beginners.Frame.{of_list, be16_at}
use dpdk_for_beginners.Threads.Parse.{
  Report, ipv4, udp, parse_packet, parse_l3, parse_ipv4, parse_ipv4_l4,
}

-- "Hello from DPDK AF_PACKET!"
abbrev pub payload : List ℕ
payload =
    72 ∷ 101 ∷ 108 ∷ 108 ∷ 111 ∷ 32 ∷ 102 ∷ 114 ∷ 111 ∷ 109 ∷ 32 ∷ 68 ∷ 80 ∷ 68 ∷ 75 ∷ 32 ∷ 65 ∷ 70
    ∷ 95 ∷ 80 ∷ 65 ∷ 67 ∷ 75 ∷ 69 ∷ 84 ∷ 33 ∷ []

abbrev pub payload_len : ℕ
payload_len = length payload

abbrev pub eth_header : List ℕ
eth_header =
    0xFF
    ∷ 0xFF
    ∷ 0xFF
    ∷ 0xFF
    ∷ 0xFF
    ∷ 0xFF
    ∷ 0x00
    ∷ 0x15
    ∷ 0x5d
    ∷ 0x0e
    ∷ 0x66
    ∷ 0x03
    ∷ be16_bytes ether_type_ipv4

-- the IPv4 header with the two bytes of `hdr_checksum`
abbrev pub ip_header : ℕ × ℕ → List ℕ
ip_header (c, d) =
    (0x45 ∷ 0 ∷ be16_bytes (20 + 8 + payload_len))
    ++ ((0 ∷ 0 ∷ 0 ∷ 0 ∷ 64 ∷ ipproto_udp ∷ c ∷ d ∷ be32_bytes 0x7F000001) ++ be32_bytes 0x7F000001)

abbrev pub udp_hdr : List ℕ
udp_hdr = be16_bytes 1234 ++ (be16_bytes 5678 ++ (be16_bytes (8 + payload_len) ++ (0 ∷ 0 ∷ [])))

module _ (ipv4_cksum : List ℕ → ℕ × ℕ) where
  -- `build_udp_packet`: what is written from the start of the data on; `rte_ipv4_cksum` is called when the
  -- checksum field holds 0
  abbrev pub udp_packet : List ℕ
  udp_packet = eth_header ++ (ip_header (ipv4_cksum (ip_header (0, 0))) ++ (udp_hdr ++ payload))

  -- the packet is written over the bytes behind the headroom
  unfoldable pub build_udp_packet : Segment → Segment
  build_udp_packet m = record m {
    bytes = udp_packet;
    tailroom = drop (length udp_packet) (m.bytes ++ m.tailroom);
  }

  -- The length fields agree with the packet: the one of IPv4 leaves out the 14 bytes of Ethernet, and the one
  -- of UDP the 20 of IPv4 too.
  pub build_udp_packet-lengths :
      (m : Segment)
      → let b = (build_udp_packet m).bytes in
        (be16_at (of_list b) 16 + 14 ≡ length b) × (be16_at (of_list b) 38 + 34 ≡ length b)
  unfolding build_udp_packet
  build_udp_packet-lengths m = (refl, refl)

  -- The parser of thread_parsing/threaded_project/parser.c reports the ports and addresses of the packet.
  pub parse_packet-build_udp_packet :
      (m : Segment)
      → (parse_packet little_endian (of_list (build_udp_packet m).bytes)).layer3
        ≡ ipv4 (127 ∷ 0 ∷ 0 ∷ 1 ∷ []) (127 ∷ 0 ∷ 0 ∷ 1 ∷ []) (udp 1234 5678)
  unfolding build_udp_packet parse_packet parse_l3 parse_ipv4 parse_ipv4_l4
  parse_packet-build_udp_packet m = refl
