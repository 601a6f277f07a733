-- ===== src/Tests/Data.antt =====
-- The packet and the file that several runs share.
use dpdk_for_beginners.Base.{ℕ, ◌≡◌, refl, Option, none, some, List, [], ◌∷◌, ℕ_discrete}
use dpdk_for_beginners.Dpdk.{HashTable}
use dpdk_for_beginners.Dpdk.Capacity.{HasEntries}
use dpdk_for_beginners.Dpdk.Sample.{assoc}
use dpdk_for_beginners.Packet.{Packet}
use dpdk_for_beginners.Config.{
  Text, Malloc, StaticEntry, is_skipped, take_line, load_lines, load_file, nat_add_mapping,
  nat_load_mappings,
}

abbrev pub udp_from : ℕ → Packet
udp_from src = record {
  ether_type = 8;
  next_proto_id = 17;
  src_addr = src;
  dst_addr = 77;
  hdr_checksum = 9;
  src_port = 3;
  dst_port = 4;
  tcp_cksum = 0;
  udp_cksum = 1;
  rest = 5 ∷ [];
}

-- A line of two bytes stands for the two texts that `sscanf` finds, and a text of one byte for an
-- address; the empty text is no address.
abbrev pub two_texts : Text → Option (Text × Text)
two_texts (a ∷ b ∷ []) = some (a ∷ [], b ∷ [])
two_texts _ = none

abbrev pub address : Text → ℕ → ℕ
address [] before = before
address (a ∷ rest) before = a

-- a comment, a mapping, a line that is not valid, another mapping and one for the first address again
abbrev pub lines : List (Malloc × Text)
lines =
    (some (0, 0), 35 ∷ 7 ∷ [])
    ∷ (some (0, 0), 100 ∷ 1 ∷ [])
    ∷ (some (0, 0), 9 ∷ [])
    ∷ (some (0, 0), 200 ∷ 2 ∷ [])
    ∷ (some (0, 0), 100 ∷ 3 ∷ [])
    ∷ []

abbrev pub static_table : HashTable ℕ StaticEntry
static_table = assoc ℕ_discrete

abbrev entry_of : ℕ → ℕ → StaticEntry
entry_of a b = record { private_ip = a; public_ip = b }

abbrev pub loaded_table : List (ℕ × StaticEntry)
loaded_table = (100, entry_of 100 3) ∷ (200, entry_of 200 2) ∷ (100, entry_of 100 1) ∷ []

pub load : nat_load_mappings address static_table two_texts (some lines) [] ≡ some (loaded_table, 3)
unfolding nat_load_mappings load_file load_lines take_line is_skipped nat_add_mapping
load = refl

-- a table that refuses nothing
pub assoc-HasEntries :
    {K V : Type 0} (d : Discrete K) (n : ℕ) → HasEntries (assoc {K = K} {V = V} d) n
assoc-HasEntries d n = record { refused = λ t k v e. cc }
