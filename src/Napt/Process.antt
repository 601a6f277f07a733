-- ===== src/Napt/Process.antt =====
-- The packet path of nat_project/version6/static_nat.c.
use dpdk_for_beginners.Base.{ℕ, Option, none, some, ◌==◌, ◌||◌, if◌then◌else◌}
use dpdk_for_beginners.Dpdk.{HashTable, ByteOrder}
use dpdk_for_beginners.Packet.{Packet, Checksums, ether_type_ipv4, ipproto_tcp, ipproto_udp}
use dpdk_for_beginners.Napt.State.{
  NatKey, NatEntry, Nat, refresh, new_entry, next_port, create_entry,
}

-- `nat_process_packet` returns -1, or 0 for a packet that it rewrote. `fault` is a read through a
-- pointer to memory that was freed.
pub data Verdict : Type 0 where
  drop : Verdict
  forward : Packet → Verdict
  fault : Verdict

-- `parse`: the five fields as they stand in the packet
unfoldable pub parse : ByteOrder → Packet → Option NatKey
parse B m =
    if m.ether_type == B.be16 ether_type_ipv4
    then if m.next_proto_id == ipproto_tcp || m.next_proto_id == ipproto_udp
      then some (record {
        src_ip = m.src_addr;
        dst_ip = m.dst_addr;
        src_port = m.src_port;
        dst_port = m.dst_port;
        proto = m.next_proto_id;
      })
      else none
    else none

module _ (C : Checksums) where
  open C use {ipv4_cksum, udptcp_cksum}

  -- the end of both rewrites; no checksum field is set to 0 first
  unfoldable pub recalc : ℕ → Packet → Packet
  recalc proto ip =
      let l4 : Packet =
        if proto == ipproto_tcp
        then record ip { tcp_cksum = udptcp_cksum ip }
        else record ip { udp_cksum = udptcp_cksum ip } in
      record l4 { hdr_checksum = ipv4_cksum l4 }

  unfoldable pub rewrite_out : Packet → NatEntry → Packet
  unfolding recalc
  rewrite_out m e = recalc e.proto (record m { src_addr = e.public_ip; src_port = e.public_port })

  unfoldable pub rewrite_in : Packet → NatEntry → Packet
  unfolding recalc
  rewrite_in m e = recalc e.proto (record m { dst_addr = e.private_ip; dst_port = e.private_port })

module _ (H : HashTable NatKey ℕ) (B : ByteOrder) (C : Checksums) (hz now : ℕ) where
  -- a packet whose entry is at `a`: the timer is refreshed and the packet rewritten
  unfoldable pub found :
      (Packet → NatEntry → Packet) → ℕ → Option NatEntry → Packet → Nat H → Nat H × Verdict
  found rewrite a none m n = (n, fault)
  found rewrite a (some e) m n = (refresh H hz now a e n, forward (rewrite m e))

  unfoldable pub inbound : Option ℕ → Packet → Nat H → Nat H × Verdict
  unfolding found
  inbound none m n = (n, drop)
  inbound (some a) m n = found (rewrite_in C) a (n.heap a) m n

  -- a new flow, with what `rte_malloc` returned
  unfoldable pub outbound_new : Option ℕ → NatKey → Packet → Nat H → Nat H × Verdict
  outbound_new none flow m n = (n, drop)
  outbound_new (some a) flow m n =
      let e = new_entry H B hz now n.public_ip (next_port n.current_port) flow in
      (create_entry H B hz now a flow n, forward (rewrite_out C m e))

  unfoldable pub outbound : Option ℕ → Option ℕ → NatKey → Packet → Nat H → Nat H × Verdict
  unfolding found outbound_new
  outbound malloc none flow m n = outbound_new malloc flow m n
  outbound malloc (some a) flow m n = found (rewrite_out C) a (n.heap a) m n

  unfoldable pub process : Option ℕ → Option NatKey → Packet → Nat H → Nat H × Verdict
  unfolding inbound outbound
  process malloc none m n = (n, drop)
  process malloc (some flow) m n =
      if flow.dst_ip == n.public_ip
      then inbound (H.lookup n.rev_hash flow) m n
      else outbound malloc (H.lookup n.fwd_hash flow) flow m n

  -- `nat_process_packet`; `malloc` is what `rte_malloc` would return
  unfoldable pub nat_process_packet : Option ℕ → Packet → Nat H → Nat H × Verdict
  unfolding process
  nat_process_packet malloc m n = process malloc (parse B m) m n
