-- ===== src/Balancer.antt =====
-- Load_Balancer/load_balancer.c: packets go to the backends in turn.
pub mod Fair
pub mod Rewrite
use dpdk_for_beginners.Base.{
  ℕ, ◌+◌, ◌-◌, ◌*◌, ◌%◌, ◌^◌, Bool, true, false, Option, none, some, List, [], ◌∷◌, map, length,
  get_or, set, take, drop, ◌==◌, ◌||◌, if◌then◌else◌,
}
use dpdk_for_beginners.Dpdk.{ByteOrder}
use dpdk_for_beginners.Packet.{Packet, Checksums, ether_type_ipv4, ipproto_tcp, ipproto_udp}

-- `struct backend`
pub record Backend : Type 0 where
  pub ip : ℕ
  pub port : ℕ

-- RTE_IPV4: the address as a number, in the byte order of the processor
abbrev pub rte_ipv4 : ℕ → ℕ → ℕ → ℕ → ℕ
rte_ipv4 a b c d = a * 2 ^ 24 + b * 2 ^ 16 + c * 2 ^ 8 + d

abbrev pub n_backends : ℕ
n_backends = 3

-- `backends`, with the ports that `main` fills in
unfoldable pub backends : ByteOrder → List Backend
backends B =
    record { ip = rte_ipv4 192 168 0 101; port = B.be16 10000 }
    ∷ record { ip = rte_ipv4 192 168 0 102; port = B.be16 10000 }
    ∷ record { ip = rte_ipv4 192 168 0 103; port = B.be16 10000 }
    ∷ []

-- the static variables that the packet path changes
pub record Selector : Type 0 where
  pub next_backend : ℕ
  pub backend_hits : List ℕ

abbrev pub initial : Selector
initial = record { next_backend = 0; backend_hits = 0 ∷ 0 ∷ 0 ∷ [] }

-- the packets that `rewrite_l4_packet` rewrites; for any other it returns -1
unfoldable pub is_supported : ByteOrder → Packet → Bool
is_supported B m =
    if m.ether_type == B.be16 ether_type_ipv4
    then m.next_proto_id == ipproto_tcp || m.next_proto_id == ipproto_udp
    else false

abbrev pub no_backend : Backend
no_backend = record { ip = 0; port = 0 }

-- the selector after a packet was sent to its backend
unfoldable pub advance : Selector → Selector
advance s = record {
  next_backend = ((s.next_backend + 1) % 2 ^ 32) % n_backends;
  backend_hits =
      set s.backend_hits s.next_backend ((get_or s.backend_hits s.next_backend 0 + 1) % 2 ^ 64);
}

-- the counters of `lcore_main`
pub record Totals : Type 0 where
  pub total_rx : ℕ
  pub total_tx : ℕ
  pub total_drop : ℕ

abbrev pub plus64 : ℕ → ℕ → ℕ
plus64 a b = (a + b) % 2 ^ 64

module _ (B : ByteOrder) (C : Checksums) where
  open C use {ipv4_cksum, udptcp_cksum}

  -- the rewrite of the packet for the backend `bk`
  unfoldable pub redirect : Backend → Packet → Packet
  redirect bk m =
      let d : Packet = record m { dst_addr = bk.ip } in
      let t : Packet = record d { dst_port = bk.port; tcp_cksum = 0 } in
      let u : Packet = record d { dst_port = bk.port; udp_cksum = 0 } in
      let l4 : Packet =
        if m.next_proto_id == ipproto_tcp
        then record t { tcp_cksum = udptcp_cksum t }
        else if m.next_proto_id == ipproto_udp
        then record u { udp_cksum = udptcp_cksum u }
        else d in
      let z : Packet = record l4 { hdr_checksum = 0 } in record z { hdr_checksum = ipv4_cksum z }

  -- `rewrite_l4_packet`: `none` is -1, `some i` the index of the backend
  unfoldable pub rewrite_l4_packet : Selector → Packet → Selector × Packet × Option ℕ
  unfolding is_supported redirect advance
  rewrite_l4_packet s m =
      if is_supported B m
      then (
        advance s,
        redirect (get_or (backends B) s.next_backend no_backend) m,
        some s.next_backend,
      )
      else (s, m, none)

  -- the loop of `lcore_main` over a burst
  unfoldable pub rewrite_all : Selector → List Packet → Selector × List Packet
  unfolding rewrite_l4_packet
  rewrite_all s [] = (s, [])
  rewrite_all s (m ∷ ms) =
      let (t, out, _) = rewrite_l4_packet s m in let (u, outs) = rewrite_all t ms in (u, out ∷ outs)

  -- One round of `lcore_main`, in which the port takes `nb_tx` packets: the selector, the counters,
  -- what was sent and what was freed.
  unfoldable pub lcore_round :
      ℕ → Selector → Totals → List Packet → Selector × Totals × List Packet × List Packet
  unfolding rewrite_all
  lcore_round nb_tx s t ms =
      let (u, outs) = rewrite_all s ms in
      (
        u,
        record {
          total_rx = plus64 t.total_rx (length ms);
          total_tx = plus64 t.total_tx nb_tx;
          total_drop = plus64 t.total_drop (length ms - nb_tx);
        },
        take nb_tx outs,
        drop nb_tx outs,
      )
