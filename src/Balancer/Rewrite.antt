-- ===== src/Balancer/Rewrite.antt =====
-- What Load_Balancer/load_balancer.c makes of a packet and of a burst.
use dpdk_for_beginners.Base.{
  ℕ, suc, ◌+◌, ◌%◌, ◌^◌, ◌≤◌, ◌≡◌, ◌⊎◌, refl, ◌∙◌, ap, inl, inr, true, false, some, List, [], ◌∷◌,
  ◌++◌, length, length-take, get_or, take-append-drop, arith, ◌==◌, ==_iff,
}
use dpdk_for_beginners.Dpdk.{ByteOrder}
use dpdk_for_beginners.Packet.{Packet, Checksums, ipproto_tcp, ipproto_udp}
use dpdk_for_beginners.Balancer.{
  Backend, Selector, Totals, backends, no_backend, is_supported, redirect, rewrite_l4_packet,
  rewrite_all, lcore_round,
}

module _ (B : ByteOrder) (C : Checksums) where
  open C use {ip_ok, l4_ok}

  supported_proto :
      (m : Packet)
      → is_supported B m ≡ true
      → (m.next_proto_id ≡ ipproto_tcp) ⊎ (m.next_proto_id ≡ ipproto_udp)
  unfolding is_supported
  supported_proto m h = ground arith

  redirect-ip_ok : (bk : Backend) (m : Packet) → ip_ok (redirect B C bk m) ≡ true
  unfolding redirect
  redirect-ip_ok bk m = C.ip_ok-ipv4_cksum _ refl

  redirect-l4_ok :
      (bk : Backend) (m : Packet)
      → (m.next_proto_id ≡ ipproto_tcp) ⊎ (m.next_proto_id ≡ ipproto_udp)
      → l4_ok (redirect B C bk m) ≡ true
  unfolding redirect
  redirect-l4_ok bk m (inl t) =
      let d : Packet = record m { dst_addr = bk.ip; dst_port = bk.port; tcp_cksum = 0 } in
      rw ((==_iff _ _).1 t)
        (C.l4_ok-hdr (record d { tcp_cksum = C.udptcp_cksum d }) _ ∙ C.l4_ok-tcp d t refl)
  redirect-l4_ok bk m (inr u) =
      let d : Packet = record m { dst_addr = bk.ip; dst_port = bk.port; udp_cksum = 0 } in
      let n : (m.next_proto_id == ipproto_tcp) ≡ false = ground arith in
      rw (n, (==_iff _ _).1 u)
        (C.l4_ok-hdr (record d { udp_cksum = C.udptcp_cksum d }) _ ∙ C.l4_ok-udp d u refl)

  redirect_kept :
      (bk : Backend) (m : Packet)
      → (m.next_proto_id ≡ ipproto_tcp) ⊎ (m.next_proto_id ≡ ipproto_udp)
      → let r = redirect B C bk m in
        (r.dst_addr ≡ bk.ip)
        × (r.dst_port ≡ bk.port)
        × (r.src_addr ≡ m.src_addr)
        × (r.src_port ≡ m.src_port)
        × (r.rest ≡ m.rest)
  unfolding redirect
  redirect_kept bk m h = ground arith

  -- A supported packet goes to the next backend: its destination becomes the backend's address and
  -- port, its source and its data stay, both of its checksums are valid, and the index is returned.
  pub rewrite_l4_packet_lem :
      (s : Selector) (m : Packet)
      → is_supported B m ≡ true
      → let bk = get_or (backends B) s.next_backend no_backend in
        let r = rewrite_l4_packet B C s m in
        (r.1.dst_addr ≡ bk.ip)
        × (r.1.dst_port ≡ bk.port)
        × (r.1.src_addr ≡ m.src_addr)
        × (r.1.src_port ≡ m.src_port)
        × (r.1.rest ≡ m.rest)
        × (ip_ok r.1 ≡ true)
        × (l4_ok r.1 ≡ true)
        × (r.2 ≡ some s.next_backend)
  unfolding rewrite_l4_packet
  rewrite_l4_packet_lem s m h =
      let p = supported_proto m h in
      let bk = get_or (backends B) s.next_backend no_backend in
      let k = redirect_kept bk m p in
      rw h (k.0, k.1, k.2, k.3, k.4, redirect-ip_ok bk m, redirect-l4_ok bk m p, refl)

  rewrite_all-length :
      (ms : List Packet) (s : Selector) → length (rewrite_all B C s ms).1 ≡ length ms
  unfolding rewrite_all
  rewrite_all-length [] s = refl
  rewrite_all-length (m ∷ ms) s = ap suc (rewrite_all-length ms _)

  -- A round in which the port takes no more than there is keeps the books, if they were right
  -- before: what the port did not take is freed and counted as dropped, so that the packets
  -- received are those sent and those dropped, also where the counters wrap.
  pub lcore_round-balance :
      (nb_tx : ℕ) (s : Selector) (t : Totals) (ms : List Packet)
      → nb_tx ≤ length ms
      → t.total_rx ≡ (t.total_tx + t.total_drop) % 2 ^ 64
      → let r = lcore_round B C nb_tx s t ms in
        (r.1.total_rx ≡ (r.1.total_tx + r.1.total_drop) % 2 ^ 64)
        × (r.2 ++ r.3 ≡ (rewrite_all B C s ms).1)
        × (length r.2 ≡ nb_tx)
  unfolding lcore_round
  lcore_round-balance nb_tx s t ms le books =
      let outs = (rewrite_all B C s ms).1 in
      (
        omega arith,
        take-append-drop nb_tx outs,
        omega (arith, length-take nb_tx outs, rewrite_all-length ms s),
      )
