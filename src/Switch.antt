-- ===== src/Switch.antt =====
-- l2_forwarding/main.c: a switch that learns behind which port an address is. Its packets are printed,
-- not sent; what it prints is the port to which a packet goes, or the ports to which it is flooded.
pub mod Learning
use dpdk_for_beginners.Base.{
  ℕ, zero, suc, ◌+◌, ◌%◌, ◌^◌, Option, none, some, List, [], ◌∷◌, ◌==◌, if◌then◌else◌,
}
use dpdk_for_beginners.Dpdk.{HashTable, add_quietly}

abbrev pub max_ports : ℕ
max_ports = 4

abbrev pub hash_entries : ℕ
hash_entries = 1024

pub data Output : Type 0 where
  forward : ℕ → Output
  flood : List ℕ → Output

-- the ports from `p` on, of which `left` are left, without the one where the packet came in
unfoldable pub flood_from : ℕ → ℕ → ℕ → List ℕ
flood_from zero p in_port = []
flood_from (suc left) p in_port =
    let others = flood_from left (suc p) in_port in if p == in_port then others else p ∷ others

unfoldable pub flood_packet : ℕ → List ℕ
unfolding flood_from
flood_packet in_port = flood_from max_ports 0 in_port

-- a packet by its addresses and the port where it came in
pub record Packet : Type 0 where
  pub src : ℕ
  pub dst : ℕ
  pub in_port : ℕ

-- a port that the table holds as a pointer, cast back to `uint16_t`
abbrev pub out_port : Option ℕ → Option ℕ
out_port none = none
out_port (some p) = some (p % 2 ^ 16)

abbrev pub output_of : Option ℕ → ℕ → Output
output_of none in_port = flood (flood_packet in_port)
output_of (some p) in_port = forward p

module _ (H : HashTable ℕ ℕ) where
  unfoldable pub mac_learn : H.Table → ℕ → ℕ → H.Table
  mac_learn table src_mac port = add_quietly H table src_mac port

  unfoldable pub mac_lookup : H.Table → ℕ → Option ℕ
  mac_lookup table dst_mac = out_port (H.lookup table dst_mac)

  unfoldable pub process_packet : H.Table → Packet → H.Table × Output
  unfolding mac_learn mac_lookup
  process_packet table p =
      let learned = mac_learn table p.src p.in_port in
      (learned, output_of (mac_lookup learned p.dst) p.in_port)

  -- a sequence of packets
  unfoldable pub process_all : H.Table → List Packet → H.Table
  unfolding process_packet
  process_all table [] = table
  process_all table (p ∷ ps) = process_all (process_packet table p).0 ps
