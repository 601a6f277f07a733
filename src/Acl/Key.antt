-- ===== src/Acl/Key.antt =====
-- The key of a packet that ACL/l2fwd_acl, ACL/exp, ACL/real_packet_acl and ACL/dual_rule_implementation
-- share, and the bytes of it that the library reads.
use dpdk_for_beginners.Base.{
  ℕ, ◌+◌, ◌-◌, ◌*◌, ◌/◌, ◌%◌, ◌^◌, ◌<◌, ◌≡◌, refl, Bool, true, List, [], ◌∷◌, get_or, ltb, ◌==◌,
  ◌&&◌, if◌then◌else◌, arith,
}
use dpdk_for_beginners.Dpdk.{ByteOrder}
use dpdk_for_beginners.Packet.{ipproto_tcp, ipproto_udp}
use dpdk_for_beginners.Frame.{Memory}
use dpdk_for_beginners.Acl.Field.{
  FieldDef, FieldType, bitmask, mask, range, Rule, no_field, field_matches, rule_matches,
}

-- `struct pkt_key`
pub record PktKey : Type 0 where
  pub proto : ℕ
  pub src_ip : ℕ
  pub dst_ip : ℕ
  pub src_port : ℕ
  pub dst_port : ℕ

-- RTE_IPV4
abbrev pub rte_ipv4 : ℕ → ℕ → ℕ → ℕ → ℕ
rte_ipv4 a b c d = a * 2 ^ 24 + b * 2 ^ 16 + c * 2 ^ 8 + d

-- The definitions of the fields, where `dport_input` is the input of the destination port. The offsets
-- are those of `struct pkt_key`, which has three bytes of padding behind `proto`.
abbrev pub field_defs : ℕ → List FieldDef
field_defs dport_input =
    record { kind = bitmask; size = 1; field_index = 0; input_index = 0; offset = 0 }
    ∷ record { kind = mask; size = 4; field_index = 1; input_index = 1; offset = 4 }
    ∷ record { kind = mask; size = 4; field_index = 2; input_index = 2; offset = 8 }
    ∷ record { kind = range; size = 2; field_index = 3; input_index = 3; offset = 12 }
    ∷ record { kind = range; size = 2; field_index = 4; input_index = dport_input; offset = 14 }
    ∷ []

-- the bytes of a number of 16 or 32 bits, the high one first
abbrev pub half : ℕ → ℕ → ℕ
half x i = if i == 0 then x / 2 ^ 8 % 256 else x % 256

abbrev pub word : ℕ → ℕ → ℕ
word x i =
    if i == 0
    then x / 2 ^ 24 % 256
    else if i == 1
    then x / 2 ^ 16 % 256
    else if i == 2
    then x / 2 ^ 8 % 256
    else x % 256

half-bytes : (x : ℕ) → x < 2 ^ 16 → half x 0 * 256 + half x 1 ≡ x
half-bytes x h = omega arith

word-bytes :
    (x : ℕ) → x < 2 ^ 32 → word x 0 * 2 ^ 24 + word x 1 * 2 ^ 16 + word x 2 * 2 ^ 8 + word x 3 ≡ x
word-bytes x h = omega arith

-- the widths of the fields
pub record Fits (k : PktKey) : Type 0 where
  pub proto_fits : k.proto < 2 ^ 8
  pub src_ip_fits : k.src_ip < 2 ^ 32
  pub dst_ip_fits : k.dst_ip < 2 ^ 32
  pub src_port_fits : k.src_port < 2 ^ 16
  pub dst_port_fits : k.dst_port < 2 ^ 16

-- the ports of a key, which stay 0 when layer 4 is neither TCP nor UDP
abbrev pub with_ports : ℕ → ℕ → ℕ → PktKey → PktKey
with_ports proto src dst k =
    if proto == ipproto_tcp
    then record k { src_port = src; dst_port = dst }
    else if proto == ipproto_udp
    then record k { src_port = src; dst_port = dst }
    else k

-- They change nothing but the ports.
pub with_ports-keeps :
    (proto src dst : ℕ) (k : PktKey)
    → ((with_ports proto src dst k).proto ≡ k.proto)
      × ((with_ports proto src dst k).src_ip ≡ k.src_ip)
      × ((with_ports proto src dst k).dst_ip ≡ k.dst_ip)
with_ports-keeps proto src dst k = (ground arith, ground arith, ground arith)

pub with_ports-Fits :
    (proto : ℕ) {src dst : ℕ} {k : PktKey}
    → src < 2 ^ 16
    → dst < 2 ^ 16
    → Fits k
    → Fits (with_ports proto src dst k)
with_ports-Fits proto hs hd w = ground arith

-- a field of a rule, matched with a value
abbrev pub nth_matches : Rule → ℕ → FieldType → ℕ → ℕ → Bool
nth_matches r i kind size x = field_matches kind size (get_or r.field i no_field) x

module _ (O : ByteOrder) where
  -- The bytes of a key in memory: a number that the processor stores lies there in its own byte order,
  -- whose high byte first is that of the number with the order changed. The padding is 0.
  abbrev pub key_bytes : PktKey → Memory
  key_bytes k i =
      if i == 0
      then k.proto
      else if ltb i 4
      then 0
      else if ltb i 8
      then word (O.be32 k.src_ip) (i - 4)
      else if ltb i 12
      then word (O.be32 k.dst_ip) (i - 8)
      else if ltb i 14
      then half (O.be16 k.src_port) (i - 12)
      else half (O.be16 k.dst_port) (i - 14)

  -- What a rule says of a key: the addresses and ports that it is matched with are those of the key
  -- with their byte order changed.
  pub rule_matches-key_bytes :
      (r : Rule) (k : PktKey) (dport_input : ℕ)
      → Fits k
      → rule_matches (field_defs dport_input) r (key_bytes k) ≡ (
          nth_matches r 0 bitmask 1 k.proto
          && (nth_matches r 1 mask 4 (O.be32 k.src_ip)
              && (nth_matches r 2 mask 4 (O.be32 k.dst_ip)
                  && (nth_matches r 3 range 2 (O.be16 k.src_port)
                      && (nth_matches r 4 range 2 (O.be16 k.dst_port) && true)))))
  rule_matches-key_bytes r k dport_input w =
      rw
        (
          word-bytes (O.be32 k.src_ip) (O.be32-lt _ w.src_ip_fits),
          word-bytes (O.be32 k.dst_ip) (O.be32-lt _ w.dst_ip_fits),
          half-bytes (O.be16 k.src_port) (O.be16-lt _ w.src_port_fits),
          half-bytes (O.be16 k.dst_port) (O.be16-lt _ w.dst_port_fits),
        )
        refl
