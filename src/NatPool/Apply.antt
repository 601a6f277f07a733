-- ===== src/NatPool/Apply.antt =====
-- The packet path of nat_project/version5/static_nat.c.
use dpdk_for_beginners.Base.{
  ℕ, zero, suc, Bool, true, false, Option, none, some, List, [], ◌∷◌, ◌==◌, if◌then◌else◌,
}
use dpdk_for_beginners.Dpdk.{HashTable, ByteOrder, add_quietly}
use dpdk_for_beginners.Packet.{Packet, Checksums, ether_type_ipv4, ipproto_tcp, ipproto_udp}
use dpdk_for_beginners.NatPool.State.{Entry, InboundEntry, Pool, entry, write}

module _ (C : Checksums) where
  open C use {ipv4_cksum, udptcp_cksum}

  abbrev pub set_address : Packet → ℕ → Bool → Packet
  set_address ip new_ip is_src =
      if is_src then record ip { src_addr = new_ip } else record ip { dst_addr = new_ip }

  unfoldable pub recalc_ip : Packet → Packet
  recalc_ip ip =
      let z : Packet = record ip { hdr_checksum = 0 } in record z { hdr_checksum = ipv4_cksum z }

  unfoldable pub recalc_l4 : Packet → Packet
  recalc_l4 ip =
      let t : Packet = record ip { tcp_cksum = 0 } in
      let u : Packet = record ip { udp_cksum = 0 } in
      if ip.next_proto_id == ipproto_tcp
      then record t { tcp_cksum = udptcp_cksum t }
      else if ip.next_proto_id == ipproto_udp
      then record u { udp_cksum = udptcp_cksum u }
      else ip

  unfoldable pub rewrite_and_recalc : Packet → ℕ → Bool → Packet
  unfolding recalc_ip recalc_l4
  rewrite_and_recalc ip new_ip is_src = recalc_l4 (recalc_ip (set_address ip new_ip is_src))

module _ (O : HashTable ℕ ℕ) (I : HashTable ℕ InboundEntry) where
  -- the loop of `find_free_slot` over `left` slots from `i` on; `none` is -1. The index stands for
  -- the `int` of the code as long as a pool has no more than 2 ^ 31 slots.
  unfoldable pub free_from : Pool O I → ℕ → ℕ → Option ℕ
  free_from p zero i = none
  free_from p (suc left) i =
      let rest = free_from p left (suc i) in if (entry O I p i).in_use then rest else some i

  unfoldable pub find_free_slot : Pool O I → Option ℕ
  unfolding free_from
  find_free_slot p = free_from p p.pool_size 0

  -- the slot as a packet from its owner leaves it
  abbrev pub touch : ℕ → ℕ → Pool O I → Pool O I
  touch now slot p = write O I p slot (record e { last_seen_tsc = now })
    where
      e : Entry
      e = entry O I p slot

  -- the assignments that take a free slot for `src`; the result of the insertion is not looked at
  unfoldable pub assign : ℕ → ℕ → ℕ → Pool O I → Pool O I
  assign now src slot p =
      record (write O I p slot
        (record e { private_ip = src; in_use = true; last_seen_tsc = now })) {
          outbound_map = add_quietly O p.outbound_map src slot;
        }
    where
      e : Entry
      e = entry O I p slot

  module _ (B : ByteOrder) (C : Checksums) where
    -- a new source; `none` for a packet is a packet that was freed
    unfoldable pub outbound_new : ℕ → Option ℕ → Pool O I → Packet → Pool O I × Option Packet
    unfolding assign
    outbound_new now none p m = (p, none)
    outbound_new now (some slot) p m =
        let q = assign now m.src_addr slot p in
        (q, some (rewrite_and_recalc C m (entry O I q slot).public_ip true))

    unfoldable pub outbound : ℕ → Option ℕ → Pool O I → Packet → Pool O I × Option Packet
    unfolding outbound_new find_free_slot
    outbound now none p m = outbound_new now (find_free_slot p) p m
    outbound now (some slot) p m =
        let q = touch now slot p in
        (q, some (rewrite_and_recalc C m (entry O I q slot).public_ip true))

    unfoldable pub ipv4 : ℕ → Option InboundEntry → Pool O I → Packet → Pool O I × Option Packet
    unfolding outbound
    ipv4 now (some e) p m = (p, some (rewrite_and_recalc C m e.private_ip false))
    ipv4 now none p m = outbound now (O.lookup p.outbound_map m.src_addr) p m

    -- the body of the loop of `nat_pool_apply`, with the clock at `now`
    unfoldable pub apply_one : ℕ → Pool O I → Packet → Pool O I × Option Packet
    unfolding ipv4
    apply_one now p m =
        if m.ether_type == B.be16 ether_type_ipv4
        then ipv4 now (I.lookup p.inbound_map m.dst_addr) p m
        else (p, some m)

    -- `nat_pool_apply` on a burst, each packet with the clock as it is read for it
    unfoldable pub nat_pool_apply : Pool O I → List (ℕ × Packet) → Pool O I × List (Option Packet)
    unfolding apply_one
    nat_pool_apply p [] = (p, [])
    nat_pool_apply p ((now, m) ∷ ms) =
        let (q, out) = apply_one now p m in let (r, outs) = nat_pool_apply q ms in (r, out ∷ outs)
