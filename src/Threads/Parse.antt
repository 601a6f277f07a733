-- ===== src/Threads/Parse.antt =====
-- `parse_packet` of thread_parsing/threaded_project/parser.c, which ports/packet_parsing/packet_parsing.c
-- repeats: the values that it prints, as a report.
use dpdk_for_beginners.Base.{
  ℕ, zero, suc, ◌+◌, ◌*◌, ◌/◌, ◌%◌, ◌^◌, Option, none, some, List, [], ◌∷◌, ◌==◌, if◌then◌else◌,
}
use dpdk_for_beginners.Dpdk.{ByteOrder}
use dpdk_for_beginners.Packet.{ether_type_ipv4, ipproto_tcp, ipproto_udp}
use dpdk_for_beginners.Frame.{Memory, be16_at, be32_at, load32}

pub data Layer4 : Type 0 where
  udp : ℕ → ℕ → Layer4  -- the ports
  tcp : ℕ → ℕ → ℕ → ℕ → ℕ → Layer4  -- the ports, `sent_seq`, `recv_ack` and the flags
  tcp_ports : ℕ → ℕ → Layer4  -- what is printed of TCP over IPv6
  icmp : ℕ → ℕ → Layer4  -- the type and the code
  other4 : Layer4

pub data Layer3 : Type 0 where
  ipv4 : List ℕ → List ℕ → Layer4 → Layer3  -- the two addresses, as they are printed
  ipv6 : List ℕ → List ℕ → Layer4 → Layer3
  other3 : Layer3

pub record Report : Type 0 where
  pub src_mac : List ℕ
  pub dst_mac : List ℕ
  pub vlan_tci : Option ℕ
  pub layer3 : Layer3

-- bytes from an offset on, in the order in which the code prints them
abbrev pub bytes_at : Memory → ℕ → ℕ → List ℕ
bytes_at pkt zero i = []
bytes_at pkt (suc n) i = pkt i ∷ bytes_at pkt n (i + 1)

unfoldable pub parse_ipv4_l4 : Memory → ℕ → ℕ → Layer4
parse_ipv4_l4 pkt proto offset =
    if proto == ipproto_udp
    then udp (be16_at pkt offset) (be16_at pkt (offset + 2))
    else if proto == ipproto_tcp
    then tcp (be16_at pkt offset) (be16_at pkt (offset + 2)) (be32_at pkt (offset + 4))
        (be32_at pkt (offset + 8)) (pkt (offset + 13))
    else if proto == 1
    then icmp (pkt offset) (pkt (offset + 1))
    else other4

unfoldable pub parse_ipv6 : Memory → ℕ → Layer3
parse_ipv6 pkt offset = ipv6 (bytes_at pkt 16 (offset + 8)) (bytes_at pkt 16 (offset + 24)) (
    if pkt (offset + 6) == ipproto_udp
    then udp (be16_at pkt (offset + 40)) (be16_at pkt (offset + 42))
    else if pkt (offset + 6) == ipproto_tcp
    then tcp_ports (be16_at pkt (offset + 40)) (be16_at pkt (offset + 42))
    else other4)

module _ (O : ByteOrder) where
  -- The four numbers of an address, which the code takes from the low bits of the loaded field up.
  abbrev pub octets : ℕ → List ℕ
  octets a = a % 2 ^ 8 ∷ a / 2 ^ 8 % 2 ^ 8 ∷ a / 2 ^ 16 % 2 ^ 8 ∷ a / 2 ^ 24 % 2 ^ 8 ∷ []

  unfoldable pub parse_ipv4 : Memory → ℕ → Layer3
  unfolding parse_ipv4_l4
  parse_ipv4 pkt offset =
      ipv4 (octets (load32 O pkt (offset + 12))) (octets (load32 O pkt (offset + 16)))
        (parse_ipv4_l4 pkt (pkt (offset + 9)) (offset + (pkt offset % 2 ^ 4) * 4))

  unfoldable pub parse_l3 : Memory → ℕ → ℕ → Layer3
  unfolding parse_ipv4 parse_ipv6
  parse_l3 pkt eth_type offset =
      if eth_type == ether_type_ipv4
      then parse_ipv4 pkt offset
      else if eth_type == 0x86dd
      then parse_ipv6 pkt offset
      else other3

  unfoldable pub parse_packet : Memory → Report
  unfolding parse_l3
  parse_packet pkt =
      let tagged = be16_at pkt 12 == 0x8100 in
      record {
        src_mac = bytes_at pkt 6 6;
        dst_mac = bytes_at pkt 6 0;
        vlan_tci = if tagged then some (be16_at pkt 14) else none;
        layer3 =
            if tagged then parse_l3 pkt (be16_at pkt 16) 18 else parse_l3 pkt (be16_at pkt 12) 14;
      }
