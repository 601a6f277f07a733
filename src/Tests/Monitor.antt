-- ===== src/Tests/Monitor.antt =====
-- Runs of the programs of nat_project that watch the traffic: a clock of 10 ticks a second.
use dpdk_for_beginners.Base.{ℕ, ◌≡◌, refl, List, [], ◌∷◌, ℕ_discrete}
use dpdk_for_beginners.Dpdk.{HashTable}
use dpdk_for_beginners.Dpdk.Sample.{assoc, little_endian}
use dpdk_for_beginners.StaticNat.{IpPortKey, IpPortKey-discrete}
use dpdk_for_beginners.Monitor.{
  Turn, burst, silence, address_keys, note, note_keys, hash_packets, on_packets, on_silence, turn,
  turns, watch_sample,
}
use dpdk_for_beginners.Tests.Data.{udp_from}

abbrev ends : HashTable IpPortKey ℕ
ends = assoc IpPortKey-discrete

abbrev addresses : HashTable ℕ ℕ
addresses = assoc ℕ_discrete

-- a session that ends, and another one that goes on
abbrev day : List Turn
day =
    burst 1 2 1 (udp_from 200) [] ∷ silence 60 ∷ burst 70 71 1 (udp_from 100) [] ∷ silence 100 ∷ []

abbrev client : IpPortKey
client = record { ip = 100; port = 3 }

-- the two clients and the one to whom they send
abbrev all_ends : List IpPortKey
all_ends = record { ip = 200; port = 3 } ∷ record { ip = 77; port = 4 } ∷ client ∷ []

-- sample has not forgotten the first client
kept : watch_sample little_endian 10 addresses day [] ≡ ((100, 100) ∷ (77, 77) ∷ (200, 200) ∷ [])
unfolding watch_sample turns turn on_packets on_silence hash_packets note_keys note address_keys
    ℕ_discrete
kept = refl
