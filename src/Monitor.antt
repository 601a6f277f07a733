-- ===== src/Monitor.antt =====
-- The two programs of nat_project that only watch the traffic: sample, with saveip.c, and version2, with its
-- hash.c. They keep on record which ends of the packets they have seen, and measure idle time.
pub mod Record
pub mod Sessions
use dpdk_for_beginners.Base.{
  ℕ, ◌/◌, Bool, true, false, Option, none, some, List, [], ◌∷◌, take, drop, leb, ◌==◌, ◌||◌,
  if◌then◌else◌,
}
use dpdk_for_beginners.Dpdk.{HashTable, ByteOrder, add_quietly}
use dpdk_for_beginners.Packet.{Packet, ether_type_ipv4, ipproto_tcp, ipproto_udp}
use dpdk_for_beginners.NatPool.Timers.{elapsed}
use dpdk_for_beginners.StaticNat.{IpPortKey}

-- the entries of the table, in both programs
abbrev pub max_ips : ℕ
max_ips = 1024

-- The keys of a packet: in sample the two addresses of an IPv4 packet, in version2 the two addresses with their
-- ports, if it is TCP or UDP over IPv4.
unfoldable pub address_keys : ByteOrder → Packet → List ℕ
address_keys B m =
    if m.ether_type == B.be16 ether_type_ipv4 then m.src_addr ∷ m.dst_addr ∷ [] else []

unfoldable pub end_keys : ByteOrder → Packet → List IpPortKey
end_keys B m =
    if m.ether_type == B.be16 ether_type_ipv4
    then if m.next_proto_id == ipproto_tcp || m.next_proto_id == ipproto_udp
      then record { ip = m.src_addr; port = m.src_port }
        ∷ record { ip = m.dst_addr; port = m.dst_port }
        ∷ []
      else []
    else []

-- One poll of the loop: a burst, with the clock as it is read when a session starts and after the burst, and
-- with the number of packets that the port takes; or nothing, with the clock as it is read then.
pub data Turn : Type 0 where
  burst : (first now nb_tx : ℕ) → Packet → List Packet → Turn
  silence : ℕ → Turn

module _ {K : Type 0} (H : HashTable K ℕ) (data_of : K → ℕ) (keys : Packet → List K) where
  -- a key that is not yet there is stored; the result of the insertion is not looked at
  unfoldable pub note : H.Table → K → H.Table
  note t k = elim (H.lookup t k) [ none ↦ add_quietly H t k (data_of k) | some v ↦ t ]

  unfoldable pub note_keys : H.Table → List K → H.Table
  unfolding note
  note_keys t [] = t
  note_keys t (k ∷ ks) = note_keys (note t k) ks

  -- `hash_ips`
  unfoldable pub hash_packets : H.Table → List Packet → H.Table
  unfolding note_keys
  hash_packets t [] = t
  hash_packets t (m ∷ ms) = hash_packets (note_keys t (keys m)) ms

  -- the variables of `main`
  pub record Watch : Type 0 where
    pub start_tsc : ℕ
    pub last_rx_tsc : ℕ
    pub started : Bool
    pub seen : H.Table

  abbrev pub before_packets : H.Table → Watch
  before_packets t = record { start_tsc = 0; last_rx_tsc = 0; started = false; seen = t }

  module _ (at_end : H.Table → H.Table) (hz : ℕ) where
    -- the branch with packets: the state after it, and the packets that are sent and freed
    unfoldable pub on_packets : ℕ → ℕ → ℕ → List Packet → Watch → Watch × List Packet × List Packet
    unfolding hash_packets
    on_packets first now nb_tx ms s = (
      record {
        start_tsc = if s.started then s.start_tsc else first;
        last_rx_tsc = now;
        started = true;
        seen = hash_packets s.seen ms;
      },
      take nb_tx ms,
      drop nb_tx ms,
    )

    -- the branch without packets: after five seconds the session ends
    unfoldable pub on_silence : ℕ → Watch → Watch
    on_silence now s =
        if s.started
        then if leb 5 (elapsed now s.last_rx_tsc / hz) then before_packets (at_end s.seen) else s
        else s

    unfoldable pub turn : Turn → Watch → Watch
    unfolding on_packets on_silence
    turn (burst first now nb_tx m ms) s = (on_packets first now nb_tx (m ∷ ms) s).0
    turn (silence now) s = on_silence now s

    unfoldable pub turns : List Turn → Watch → Watch
    unfolding turn
    turns [] s = s
    turns (e ∷ es) s = turns es (turn e s)

-- The main loop of version2, which stores 1 with a key and resets the table at the end of a session, and that
-- of sample, which stores the address itself and never resets the table.
module _ (B : ByteOrder) (hz : ℕ) where
  unfoldable pub watch_v2 : (H : HashTable IpPortKey ℕ) → List Turn → H.Table → H.Table
  unfolding turns
  watch_v2 H es t =
      (turns H (λ k. 1) (end_keys B) H.reset hz es (before_packets H (λ k. 1) (end_keys B) t)).seen

  unfoldable pub watch_sample : (H : HashTable ℕ ℕ) → List Turn → H.Table → H.Table
  unfolding turns
  watch_sample H es t =
      (turns H (λ k. k) (address_keys B) (λ u. u) hz es
        (before_packets H (λ k. k) (address_keys B) t)).seen
