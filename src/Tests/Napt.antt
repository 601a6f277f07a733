-- ===== src/Tests/Napt.antt =====
-- Runs of nat_project/version6: a host behind the public address 203.0.113.10, on a machine whose clock
-- has 10 ticks a second.
use dpdk_for_beginners.Base.{
  ℕ, ◌≡◌, ◌≢◌, ◌↔◌, ◌==◌, if◌then◌else◌, refl, none, some, [], ◌∷◌, arith,
}
use dpdk_for_beginners.Dpdk.{HashTable}
use dpdk_for_beginners.Dpdk.Sample.{assoc, little_endian, plain_sums}
use dpdk_for_beginners.Packet.{Packet}
use dpdk_for_beginners.Napt.State.{NatKey, NatKey-discrete, NatEntry, Nat, new_entry, next_port}
use dpdk_for_beginners.Napt.Process.{
  drop, forward, fault, parse, recalc, rewrite_out, outbound, outbound_new, process,
  nat_process_packet,
}
use dpdk_for_beginners.Napt.Main.{nat_timer_manage}
use dpdk_for_beginners.Napt.Memory.{IsLive, nat_timer_manage-IsLive, nat_process_packet-Safe}
use dpdk_for_beginners.Napt.Flows.{mirror, reply_returns}
use dpdk_for_beginners.Napt.Drops.{Dropped, nat_process_packet-drops}

abbrev nat_table : HashTable NatKey ℕ
nat_table = assoc NatKey-discrete

abbrev empty : Nat nat_table
empty = record {
  heap = λ a. none;
  fwd_hash = [];
  rev_hash = [];
  public_ip = 0x0a7100cb;
  current_port = 1024;
}

abbrev udp : ℕ → ℕ → ℕ → ℕ → Packet
udp src dst src_port dst_port = record {
  ether_type = 8;
  next_proto_id = 17;
  src_addr = src;
  dst_addr = dst;
  hdr_checksum = 9;
  src_port = src_port;
  dst_port = dst_port;
  tcp_cksum = 0;
  udp_cksum = 1;
  rest = 5 ∷ [];
}

abbrev key : ℕ → ℕ → ℕ → ℕ → NatKey
key src dst src_port dst_port = record {
  src_ip = src;
  dst_ip = dst;
  src_port = src_port;
  dst_port = dst_port;
  proto = 17;
}

-- what the packet of the host becomes; its port 1025 is 260 in the byte order of the network
abbrev left : Packet
left = record (udp 0x0a7100cb 77 260 4) { hdr_checksum = 65230; udp_cksum = 64974 }

empty-IsLive : IsLive nat_table empty
empty-IsLive = record { fwd = λ k a e. cc; rev = λ k a e. cc }

nat_process_packet-Safe_example :
    IsLive nat_table
      (nat_process_packet nat_table little_endian plain_sums 10 0 (some 7) (udp 100 77 3 4) empty).0
    × ((nat_process_packet nat_table little_endian plain_sums 10 0
          (some 7)
          (udp 100 77 3 4)
          empty).1
        ≢ fault)
nat_process_packet-Safe_example =
    nat_process_packet-Safe nat_table little_endian plain_sums 10 0 (some 7) (udp 100 77 3 4) empty
      (λ a e. refl) empty-IsLive

nat_timer_manage-IsLive_example : IsLive nat_table (
    nat_timer_manage nat_table
      (7 ∷ [])
      (nat_process_packet nat_table little_endian plain_sums 10 0
        (some 7)
        (udp 100 77 3 4)
        empty).0)
nat_timer_manage-IsLive_example =
    nat_timer_manage-IsLive nat_table (7 ∷ [])
      (nat_process_packet nat_table little_endian plain_sums 10 0 (some 7) (udp 100 77 3 4) empty).0
      nat_process_packet-Safe_example.0

reply_returns_example :
    (r : Packet) × ((nat_process_packet nat_table little_endian plain_sums 10 5 none
        (udp 77 0x0a7100cb 4 260)
        (nat_process_packet nat_table little_endian plain_sums 10 0
          (some 7)
          (udp 100 77 3 4)
          empty).0).1
      ≡ forward r)
    × (parse little_endian r ≡ some (mirror (key 100 77 3 4)))
    × (◌≡◌ {A = ℕ} 0x0a7100cb 0x0a7100cb)
    × (260 ≡ little_endian.be16 (next_port 1024))
unfolding parse nat_process_packet process outbound outbound_new rewrite_out recalc new_entry
    next_port
reply_returns_example =
    reply_returns nat_table little_endian plain_sums 10 0 5 7 none (udp 100 77 3 4)
      (udp 77 0x0a7100cb 4 260) left empty (key 100 77 3 4) (key 0x0a7100cb 77 260 4) refl
      (omega arith) refl (λ j e. cc) refl refl refl

-- the entry of another host that was given the port 1025 a round of the ports ago
abbrev old_entry : NatEntry
old_entry = record {
  fwd_key = key 200 77 9 4;
  rev_key = key 77 0x0a7100cb 4 260;
  private_ip = 200;
  private_port = 9;
  public_ip = 0x0a7100cb;
  public_port = 260;
  remote_ip = 77;
  remote_port = 4;
  proto = 17;
  timer = 900;
}

abbrev wrapped : Nat nat_table
wrapped = record empty {
  heap = λ a. if a == 6 then some old_entry else none;
  fwd_hash = (key 200 77 9 4, 6) ∷ [];
  rev_hash = (key 77 0x0a7100cb 4 260, 6) ∷ [];
}

-- an ARP frame
abbrev arp : Packet
arp = record (udp 1 2 3 4) { ether_type = 0x0608 }

nat_process_packet-drops_example :
    let r = nat_process_packet nat_table little_endian plain_sums 10 0 (some 7) arp empty in
    (r.1 ≡ drop)
    ↔ (Dropped nat_table little_endian plain_sums 10 (some 7) arp empty × (r.0 ≡ empty))
nat_process_packet-drops_example =
    nat_process_packet-drops nat_table little_endian plain_sums 10 0 (some 7) arp empty
