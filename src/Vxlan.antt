-- ===== src/Vxlan.antt =====
-- vxlan/main.c: packets are wrapped into VXLAN, and VXLAN packets unwrapped.
pub mod Roundtrip
use dpdk_for_beginners.Base.{
  ℕ, ◌+◌, ◌-◌, ◌*◌, ◌/◌, ◌%◌, ◌^◌, ◌<◌, Bool, true, false, Option, none, some, List, [], ◌∷◌, ◌++◌,
  length, get_or, take, drop, ltb, ◌==◌, ◌&&◌, if◌then◌else◌,
}

-- The headers as bytes, in the order in which they lie in memory: what `rte_cpu_to_be_16` and
-- `rte_cpu_to_be_32` make the processor store is the number with its high byte first.
abbrev pub be16_bytes : ℕ → List ℕ
be16_bytes x = (x / 2 ^ 8 % 256) ∷ (x % 256) ∷ []

abbrev pub be32_bytes : ℕ → List ℕ
be32_bytes x = (x / 2 ^ 24 % 256) ∷ (x / 2 ^ 16 % 256) ∷ (x / 2 ^ 8 % 256) ∷ (x % 256) ∷ []

abbrev pub ether_type_ipv4 : ℕ
ether_type_ipv4 = 0x0800

abbrev pub ipproto_udp : ℕ
ipproto_udp = 17

abbrev pub vxlan_port : ℕ
vxlan_port = 4789

abbrev pub vxlan_vni : ℕ
vxlan_vni = 100

-- the sizes of the four headers together
abbrev pub header_len : ℕ
header_len = 14 + 20 + 8 + 8

-- MAKE_IPV4
abbrev pub make_ipv4 : ℕ → ℕ → ℕ → ℕ → ℕ
make_ipv4 a b c d = (a % 256) * 2 ^ 24 + (b % 256) * 2 ^ 16 + (c % 256) * 2 ^ 8 + d % 256

-- `rte_ether_hdr`
unfoldable pub ether_header : List ℕ
ether_header =
    0x08
    ∷ 0x00
    ∷ 0x27
    ∷ 0xab
    ∷ 0xcd
    ∷ 0xef
    ∷ 0x08
    ∷ 0x00
    ∷ 0x27
    ∷ 0x12
    ∷ 0x34
    ∷ 0x56
    ∷ be16_bytes ether_type_ipv4

-- `rte_ipv4_hdr` with the two bytes of the checksum field; `total_length` is a `uint16_t`
unfoldable pub ipv4_header : ℕ → ℕ × ℕ → List ℕ
ipv4_header pkt_len (c, d) =
    (0x45 ∷ 0 ∷ be16_bytes (20 + 8 + 8 + pkt_len))
    ++ ((0 ∷ 0 ∷ 0 ∷ 0 ∷ 64 ∷ ipproto_udp ∷ c ∷ d ∷ be32_bytes (make_ipv4 10 0 0 1))
        ++ be32_bytes (make_ipv4 10 0 0 2))

-- `rte_udp_hdr`, without a checksum
unfoldable pub udp_header : ℕ → List ℕ
udp_header pkt_len =
    be16_bytes 12345 ++ (be16_bytes vxlan_port ++ (be16_bytes (8 + 8 + pkt_len) ++ (0 ∷ 0 ∷ [])))

-- `rte_vxlan_hdr`
unfoldable pub vxlan_header : List ℕ
vxlan_header = be32_bytes 0x08000000 ++ be32_bytes (vxlan_vni * 2 ^ 8)

-- A packet of one segment: the data, and what lies before and behind it in the buffer.
pub record Mbuf : Type 0 where
  pub headroom : List ℕ
  pub bytes : List ℕ
  pub tailroom : List ℕ

-- the byte at an offset from the start of the data, which may lie behind its end
abbrev pub byte : Mbuf → ℕ → ℕ
byte m i = get_or (m.bytes ++ m.tailroom) i 0

-- `rte_ipv4_cksum` of the header, as the two bytes in which the processor stores its result
module _ (ipv4_cksum : List ℕ → ℕ × ℕ) where
  -- The header that is written; `stale` is what was in the bytes of the checksum field, which
  -- `rte_ipv4_cksum` reads.
  unfoldable pub encap_header : ℕ × ℕ → ℕ → List ℕ
  unfolding ether_header ipv4_header udp_header vxlan_header
  encap_header stale pkt_len =
      let ip = ipv4_header pkt_len (ipv4_cksum (ipv4_header pkt_len stale)) in
      ether_header ++ (ip ++ (udp_header pkt_len ++ vxlan_header))

  -- `vxlan_encap`; `pkt_len` is a `uint16_t`. `none`: the headroom is too small, and the program
  -- writes through the null pointer that `rte_pktmbuf_prepend` returned.
  unfoldable pub vxlan_encap : Mbuf → Option Mbuf
  vxlan_encap m =
      let start = length m.headroom - header_len in
      let stale : ℕ × ℕ = (get_or m.headroom (start + 24) 0, get_or m.headroom (start + 25) 0) in
      if ltb (length m.headroom) header_len
      then none
      else some (record m {
        headroom = take start m.headroom;
        bytes = encap_header stale (length m.bytes % 2 ^ 16) ++ m.bytes;
      })

-- the three tests of `vxlan_decap`
unfoldable pub is_vxlan : Mbuf → Bool
is_vxlan m =
    if byte m 12 == ether_type_ipv4 / 256 && byte m 13 == ether_type_ipv4 % 256
    then if byte m 23 == ipproto_udp
      then byte m 36 == vxlan_port / 256 && byte m 37 == vxlan_port % 256
      else false
    else false

-- `rte_pktmbuf_adj`, which takes no more off than there is
unfoldable pub adj : ℕ → Mbuf → Mbuf
adj n m =
    if ltb (length m.bytes) n
    then m
    else record m { headroom = m.headroom ++ take n m.bytes; bytes = drop n m.bytes }

-- `vxlan_decap`; `none` is -1
unfoldable pub vxlan_decap : Mbuf → Option Mbuf
vxlan_decap m = if is_vxlan m then some (adj header_len m) else none

-- the body of the loop of `main`: what goes to the other port
unfoldable pub translate : (List ℕ → ℕ × ℕ) → Mbuf → Option Mbuf
unfolding vxlan_decap
translate ipv4_cksum m = elim (vxlan_decap m) [ some d ↦ some d | none ↦ vxlan_encap ipv4_cksum m ]
