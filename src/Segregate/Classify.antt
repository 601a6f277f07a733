-- ===== src/Segregate/Classify.antt =====
-- `classify_packet` of control_data_segregation/main.c, on the bytes of a packet.
use dpdk_for_beginners.Base.{
  ℕ, ◌+◌, ◌*◌, ◌%◌, ◌<◌, ◌≤◌, ◌≡◌, ◌⊎◌, ◌↔◌, inl, inr, Bool, true, false, List, [], ◌∷◌, ltb, ◌==◌,
  ◌||◌, if◌then◌else◌, arith,
}
use dpdk_for_beginners.Frame.{Memory, be16_at}

unfoldable pub is_control_tcp_port : ℕ → Bool
is_control_tcp_port port = port == 22 || port == 53 || port == 179 || port == 389

unfoldable pub is_control_udp_port : ℕ → Bool
is_control_udp_port port = port == 53 || port == 67 || port == 68 || port == 123 || port == 161

-- from the header of layer 4 on
unfoldable pub classify_l4 : Memory → ℕ → ℕ → ℕ → Bool
unfolding is_control_tcp_port is_control_udp_port
classify_l4 pkt n proto offset =
    if proto == 1
    then true
    else if proto == 89
    then true
    else if proto == 17
    then if ltb (n) (offset + 8) then false else is_control_udp_port (be16_at pkt (offset + 2))
    else if proto == 6
    then if ltb (n) (offset + 20) then false else is_control_tcp_port (be16_at pkt (offset + 2))
    else false

-- from the header of layer 3 on
unfoldable pub classify_l3 : Memory → ℕ → ℕ → ℕ → Bool
classify_l3 pkt n eth_type offset =
    if eth_type == 0x0800
    then if ltb (n) (offset + 20)
      then false
      else classify_l4 pkt n (pkt (offset + 9)) (offset + (pkt offset % 16) * 4)
    else false

unfoldable pub classify_packet : Memory → ℕ → Bool
classify_packet pkt n =
    if ltb (n) 14
    then false
    else if be16_at pkt 12 == 0x8100
    then if ltb (n) 18 then false else classify_l3 pkt n (be16_at pkt 16) 18
    else classify_l3 pkt n (be16_at pkt 12) 14

abbrev pub OneOf : ℕ → List ℕ → Type 0
OneOf p [] = ⊥
OneOf p (q ∷ qs) = (p ≡ q) ⊎ OneOf p qs

-- Control traffic behind an IPv4 header of the protocol `proto`, with layer 4 at `l4`: ICMP, OSPF, DNS,
-- DHCP, NTP and SNMP over UDP, and SSH, DNS, BGP and LDAP over TCP, where the header of layer 4 is
-- whole.
abbrev pub Control4 : Memory → ℕ → ℕ → ℕ → Type 0
Control4 pkt n proto l4 =
    OneOf proto (1 ∷ 89 ∷ [])
    ⊎ ((proto ≡ 17) × (l4 + 8 ≤ n) × OneOf (be16_at pkt (l4 + 2)) (53 ∷ 67 ∷ 68 ∷ 123 ∷ 161 ∷ []))
    ⊎ ((proto ≡ 6) × (l4 + 20 ≤ n) × OneOf (be16_at pkt (l4 + 2)) (22 ∷ 53 ∷ 179 ∷ 389 ∷ []))

-- A whole IPv4 header at `off` with control traffic behind it.
abbrev pub Control3 : Memory → ℕ → ℕ → Type 0
Control3 pkt n off = (off + 20 ≤ n) × Control4 pkt n (pkt (off + 9)) (off + (pkt off % 16) * 4)

-- A whole Ethernet header with IPv4 behind it, or with a VLAN tag and IPv4 behind that.
abbrev pub Control : Memory → ℕ → Type 0
Control pkt n =
    ((be16_at pkt 12 ≡ 0x0800) × Control3 pkt n 14)
    ⊎ ((be16_at pkt 12 ≡ 0x8100) × (be16_at pkt 16 ≡ 0x0800) × Control3 pkt n 18)

classify_l4_iff :
    (pkt : Memory) (n proto l4 : ℕ) → (classify_l4 pkt n proto l4 ≡ true) ↔ Control4 pkt n proto l4
unfolding classify_l4
classify_l4_iff pkt n proto l4 = ((λ h. ground arith), (λ h. ground arith))

classify_l3_iff :
    (pkt : Memory) (n ty off : ℕ)
    → (classify_l3 pkt n ty off ≡ true) ↔ ((ty ≡ 0x0800) × Control3 pkt n off)
unfolding classify_l3
classify_l3_iff pkt n ty off = (forth, back)
  where
    forth : classify_l3 pkt n ty off ≡ true → (ty ≡ 0x0800) × Control3 pkt n off
    forth h = ground (arith, (classify_l4_iff pkt n (pkt (off + 9)) (off + (pkt off % 16) * 4)).0)

    back : (ty ≡ 0x0800) × Control3 pkt n off → classify_l3 pkt n ty off ≡ true
    back h =
        ground (arith, (classify_l4_iff pkt n (pkt (off + 9)) (off + (pkt off % 16) * 4)).1 h.1.1)

-- A packet is classified as control exactly if it is whole up to what is looked at, has IPv4 behind its Ethernet
-- header or behind one VLAN tag, and is ICMP, OSPF, UDP to the port 53, 67, 68, 123 or 161, or TCP to the port
-- 22, 53, 179 or 389. (README.md does not name the port 53 for TCP.)
pub classify_packet_iff : (pkt : Memory) (n : ℕ) → (classify_packet pkt n ≡ true) ↔ Control pkt n
unfolding classify_packet
classify_packet_iff pkt n = (forth, back)
  where
    forth : classify_packet pkt n ≡ true → Control pkt n
    forth h = ground (
      arith,
      (classify_l3_iff pkt n (be16_at pkt 16) 18).0,
      (classify_l3_iff pkt n (be16_at pkt 12) 14).0,
    )

    back : Control pkt n → classify_packet pkt n ≡ true
    back (inl (ty, c)) = ground (arith, (classify_l3_iff pkt n (be16_at pkt 12) 14).1 (ty, c))
    back (inr (ty, tz, c)) = ground (arith, (classify_l3_iff pkt n (be16_at pkt 16) 18).1 (tz, c))

-- Two memories agree on the first `n` bytes.
abbrev pub Agree : Memory → Memory → ℕ → Type 0
Agree a b n = (i : ℕ) → i < n → a i ≡ b i

classify_l4-local :
    (a b : Memory) (n proto l4 : ℕ)
    → Agree a b n
    → classify_l4 a n proto l4 ≡ classify_l4 b n proto l4
unfolding classify_l4
classify_l4-local a b n proto l4 same =
    ground (arith, λ (h : l4 + 2 < n). same (l4 + 2) h, λ (h : l4 + 2 + 1 < n). same (l4 + 2 + 1) h)

classify_l3-local :
    (a b : Memory) (n ty off : ℕ) → Agree a b n → classify_l3 a n ty off ≡ classify_l3 b n ty off
unfolding classify_l3
classify_l3-local a b n ty off same = ground (
  arith,
  λ (h : off < n). same off h,
  λ (h : off + 9 < n). same (off + 9) h,
  classify_l4-local a b n (a (off + 9)) (off + (a off % 16) * 4) same,
)

-- The classification reads no byte behind the end of the packet: it is the same for two memories that
-- agree on the packet.
pub classify_packet-local :
    (a b : Memory) (n : ℕ) → Agree a b n → classify_packet a n ≡ classify_packet b n
unfolding classify_packet
classify_packet-local a b n same = ground (
  arith,
  λ (h : 12 < n). same 12 h,
  λ (h : 13 < n). same 13 h,
  λ (h : 16 < n). same 16 h,
  λ (h : 17 < n). same 17 h,
  classify_l3-local a b n (be16_at a 16) 18 same,
  classify_l3-local a b n (be16_at a 12) 14 same,
)
