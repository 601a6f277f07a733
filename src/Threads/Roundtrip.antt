-- ===== src/Threads/Roundtrip.antt =====
-- The parser reads back what a frame was built from.
use dpdk_for_beginners.Base.{
  ℕ, ◌+◌, ◌*◌, ◌/◌, ◌%◌, ◌^◌, ◌<◌, ◌≡◌, refl, Option, none, some, List, arith,
}
use dpdk_for_beginners.Dpdk.Sample.{little_endian, swap32, join, join_bytes}
use dpdk_for_beginners.Frame.{of_list}
use dpdk_for_beginners.Threads.Parse.{parse_packet, parse_l3, parse_ipv4, parse_ipv4_l4, octets}
use dpdk_for_beginners.Threads.Build.{
  Mac, Address, IsAddress, address_bytes, Transport, udp_to, tcp_to, icmp_of, IsTransport, Headers,
  IsTag, IsFrame, build, report,
}

join16 : (x : ℕ) → x < 2 ^ 16 → (x / 2 ^ 8 % 256) * 256 + x % 256 ≡ x
join16 x h = omega arith

join32 :
    (x : ℕ)
    → x < 2 ^ 32
    → (x / 2 ^ 24 % 256) * 2 ^ 24
        + (x / 2 ^ 16 % 256) * 2 ^ 16
        + (x / 2 ^ 8 % 256) * 2 ^ 8
        + x % 256
      ≡ x
join32 x h = omega arith

-- The four numbers of an address are printed in the order in which they lie in memory.
octets-address :
    (a : Address)
    → IsAddress a
    → octets little_endian (swap32 (join a.b0 a.b1 a.b2 a.b3)) ≡ address_bytes a
octets-address a (h0, h1, h2, h3) =
    let b = join_bytes a.b0 a.b1 a.b2 a.b3 h0 h1 h2 h3 in
    let c = join_bytes a.b3 a.b2 a.b1 a.b0 h3 h2 h1 h0 in
    rw (b.0, b.1, b.2, b.3) (rw (c.0, c.1, c.2, c.3) refl)

abbrev headers : Mac → Mac → Option ℕ → Address → Address → Transport → Headers
headers dst src vlan from to t = record {
  dst = dst;
  src = src;
  vlan = vlan;
  src_addr = from;
  dst_addr = to;
  transport = t;
}

parse-headers :
    (dst src : Mac) (vlan : Option ℕ) (from to : Address) (t : Transport) (payload : List ℕ)
    → IsTag vlan
    → IsAddress from
    → IsAddress to
    → IsTransport t
    → parse_packet little_endian (of_list (build (headers dst src vlan from to t) payload))
      ≡ report (headers dst src vlan from to t)
unfolding parse_packet parse_l3 parse_ipv4 parse_ipv4_l4
parse-headers dst src none from to (udp_to s d) payload v f g h =
    rw (octets-address from f, octets-address to g, join16 s h.0, join16 d h.1) refl
parse-headers dst src none from to (tcp_to s d q a flags) payload v f g h =
    rw
      (
        octets-address from f,
        octets-address to g,
        join16 s h.0,
        join16 d h.1,
        join32 q h.2,
        join32 a h.3,
      )
      refl
parse-headers dst src none from to (icmp_of ty code) payload v f g h =
    rw (octets-address from f, octets-address to g) refl
parse-headers dst src (some tci) from to (udp_to s d) payload v f g h =
    rw (octets-address from f, octets-address to g, join16 s h.0, join16 d h.1, join16 tci v) refl
parse-headers dst src (some tci) from to (tcp_to s d q a flags) payload v f g h =
    rw
      (
        octets-address from f,
        octets-address to g,
        join16 s h.0,
        join16 d h.1,
        join32 q h.2,
        join32 a h.3,
        join16 tci v,
      )
      refl
parse-headers dst src (some tci) from to (icmp_of ty code) payload v f g h =
    rw (octets-address from f, octets-address to g, join16 tci v) refl

-- On a little-endian processor the parser reports of a frame of Ethernet, with or without a VLAN tag,
-- IPv4 without options, and UDP, TCP or ICMP the fields that the frame was built from, with the
-- addresses in the order in which they are written.
pub parse_packet-build :
    (h : Headers) (payload : List ℕ)
    → IsFrame h
    → parse_packet little_endian (of_list (build h payload)) ≡ report h
parse_packet-build h payload v =
    parse-headers h.dst h.src h.vlan h.src_addr h.dst_addr h.transport payload v.tag v.from v.to
      v.ports
