-- ===== src/Threads/Build.antt =====
-- Frames as RFC 791, 768, 793 and 792 lay them out, to compare with what the parser reports: Ethernet, with
-- or without a VLAN tag, IPv4 without options, and UDP, TCP or ICMP.
use dpdk_for_beginners.Base.{ℕ, ◌^◌, ◌<◌, Option, none, some, List, [], ◌∷◌, ◌++◌}
use dpdk_for_beginners.Vxlan.{be16_bytes, be32_bytes}
use dpdk_for_beginners.Threads.Parse.{Layer4, udp, tcp, icmp, ipv4, Report}

pub record Mac : Type 0 where
  pub a0 : ℕ
  pub a1 : ℕ
  pub a2 : ℕ
  pub a3 : ℕ
  pub a4 : ℕ
  pub a5 : ℕ

abbrev pub mac_bytes : Mac → List ℕ
mac_bytes m = m.a0 ∷ m.a1 ∷ m.a2 ∷ m.a3 ∷ m.a4 ∷ m.a5 ∷ []

pub record Address : Type 0 where
  pub b0 : ℕ
  pub b1 : ℕ
  pub b2 : ℕ
  pub b3 : ℕ

abbrev pub address_bytes : Address → List ℕ
address_bytes a = a.b0 ∷ a.b1 ∷ a.b2 ∷ a.b3 ∷ []

abbrev pub IsAddress : Address → Type 0
IsAddress a = (a.b0 < 256) × (a.b1 < 256) × (a.b2 < 256) × (a.b3 < 256)

pub data Transport : Type 0 where
  udp_to : ℕ → ℕ → Transport
  tcp_to : ℕ → ℕ → ℕ → ℕ → ℕ → Transport
  icmp_of : ℕ → ℕ → Transport

-- the fields fit into their places
abbrev pub IsTransport : Transport → Type 0
IsTransport (udp_to s d) = (s < 2 ^ 16) × (d < 2 ^ 16)
IsTransport (tcp_to s d seq ack flags) =
    (s < 2 ^ 16) × (d < 2 ^ 16) × (seq < 2 ^ 32) × (ack < 2 ^ 32)
IsTransport (icmp_of ty code) = Unit

abbrev pub protocol : Transport → ℕ
protocol (udp_to s d) = 17
protocol (tcp_to s d seq ack flags) = 6
protocol (icmp_of ty code) = 1

abbrev pub transport_bytes : Transport → List ℕ → List ℕ
transport_bytes (udp_to s d) payload = be16_bytes s ++ (be16_bytes d ++ payload)
transport_bytes (tcp_to s d seq ack flags) payload =
    be16_bytes s
    ++ (be16_bytes d ++ (be32_bytes seq ++ (be32_bytes ack ++ (0x50 ∷ flags ∷ payload))))
transport_bytes (icmp_of ty code) payload = ty ∷ code ∷ payload

abbrev pub reported : Transport → Layer4
reported (udp_to s d) = udp s d
reported (tcp_to s d seq ack flags) = tcp s d seq ack flags
reported (icmp_of ty code) = icmp ty code

pub record Headers : Type 0 where
  pub dst : Mac
  pub src : Mac
  pub vlan : Option ℕ
  pub src_addr : Address
  pub dst_addr : Address
  pub transport : Transport

abbrev tag_bytes : Option ℕ → List ℕ → List ℕ
tag_bytes none rest = rest
tag_bytes (some tci) rest = 0x81 ∷ 0x00 ∷ (be16_bytes tci ++ rest)

-- the bytes of a frame with a payload
abbrev pub build : Headers → List ℕ → List ℕ
build h payload =
    mac_bytes h.dst
    ++ (mac_bytes h.src
        ++ tag_bytes h.vlan (
            0x08
            ∷ 0x00
            ∷ 0x45
            ∷ 0
            ∷ 0
            ∷ 0
            ∷ 0
            ∷ 0
            ∷ 0
            ∷ 0
            ∷ 64
            ∷ protocol h.transport
            ∷ 0
            ∷ 0
            ∷ (address_bytes h.src_addr
                ++ (address_bytes h.dst_addr ++ transport_bytes h.transport payload))))

abbrev pub IsTag : Option ℕ → Type 0
IsTag none = Unit
IsTag (some tci) = tci < 2 ^ 16

pub record IsFrame (h : Headers) : Type 0 where
  pub tag : IsTag h.vlan
  pub from : IsAddress h.src_addr
  pub to : IsAddress h.dst_addr
  pub ports : IsTransport h.transport

-- what the parser should report of it
abbrev pub report : Headers → Report
report h = record {
  src_mac = mac_bytes h.src;
  dst_mac = mac_bytes h.dst;
  vlan_tci = h.vlan;
  layer3 = ipv4 (address_bytes h.src_addr) (address_bytes h.dst_addr) (reported h.transport);
}
