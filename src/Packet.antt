-- ===== src/Packet.antt =====
-- A received frame as the programs see it: the fields of `struct rte_ether_hdr`, of
-- `struct rte_ipv4_hdr` behind it and of the TCP or UDP header behind that, which the code reaches by
-- casts to fixed offsets. Fields that hold more than a byte keep the byte order of the network. Both
-- headers of layer 4 have their ports in the same bytes; their checksums lie at different places.
use dpdk_for_beginners.Base.{ℕ, ◌≡◌, Bool, true, List}

pub record Packet : Type 0 where
  pub ether_type : ℕ
  pub next_proto_id : ℕ
  pub src_addr : ℕ
  pub dst_addr : ℕ
  pub hdr_checksum : ℕ
  pub src_port : ℕ
  pub dst_port : ℕ
  pub tcp_cksum : ℕ
  pub udp_cksum : ℕ
  pub rest : List ℕ

-- RTE_ETHER_TYPE_IPV4, IPPROTO_TCP and IPPROTO_UDP, in the byte order of the processor
abbrev pub ether_type_ipv4 : ℕ
ether_type_ipv4 = 0x0800

abbrev pub ipproto_tcp : ℕ
ipproto_tcp = 6

abbrev pub ipproto_udp : ℕ
ipproto_udp = 17

-- `rte_ipv4_cksum` and `rte_ipv4_udptcp_cksum` of `rte_ip.h`, and what a receiver checks. As their
-- documentation says, the field must be 0 when the function is called; the value that it returns
-- makes the header valid. The header checksum covers the IPv4 header alone, and the other one covers
-- the addresses, the protocol and layer 4.
pub record Checksums : Type 0 where
  pub ipv4_cksum : Packet → ℕ
  pub udptcp_cksum : Packet → ℕ
  pub ip_ok : Packet → Bool
  pub l4_ok : Packet → Bool
  pub ip_ok-ipv4_cksum :
      (p : Packet) → p.hdr_checksum ≡ 0 → ip_ok (record p { hdr_checksum = ipv4_cksum p }) ≡ true
  pub ip_ok-tcp : (p : Packet) (c : ℕ) → ip_ok (record p { tcp_cksum = c }) ≡ ip_ok p
  pub ip_ok-udp : (p : Packet) (c : ℕ) → ip_ok (record p { udp_cksum = c }) ≡ ip_ok p
  pub l4_ok-tcp :
      (p : Packet)
      → p.next_proto_id ≡ ipproto_tcp
      → p.tcp_cksum ≡ 0
      → l4_ok (record p { tcp_cksum = udptcp_cksum p }) ≡ true
  pub l4_ok-udp :
      (p : Packet)
      → p.next_proto_id ≡ ipproto_udp
      → p.udp_cksum ≡ 0
      → l4_ok (record p { udp_cksum = udptcp_cksum p }) ≡ true
  pub l4_ok-hdr : (p : Packet) (c : ℕ) → l4_ok (record p { hdr_checksum = c }) ≡ l4_ok p
