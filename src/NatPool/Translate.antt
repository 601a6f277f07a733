-- ===== src/NatPool/Translate.antt =====
-- What `nat_pool_apply` of nat_project/version5/static_nat.c does to a packet.
use dpdk_for_beginners.Base.{
  ℕ, ◌+◌, ◌%◌, ◌^◌, ◌<◌, ◌≡◌, ◌≢◌, ◌⊎◌, refl, sym, ◌∙◌, ap, ℕ_discrete, inl, inr, Bool, true, false,
  some, arith, ◌==◌, ==_iff, if◌then◌else◌, Bool-cases,
}
use dpdk_for_beginners.Dpdk.{HashTable, ByteOrder}
use dpdk_for_beginners.Packet.{Packet, Checksums, ipproto_tcp, ipproto_udp}
use dpdk_for_beginners.NatPool.State.{InboundEntry, Pool, entry}
use dpdk_for_beginners.NatPool.Apply.{set_address, recalc_ip, recalc_l4, rewrite_and_recalc}
use dpdk_for_beginners.NatPool.Sound.{IsSound}

be32-injective : (B : ByteOrder) (x y : ℕ) → x < 2 ^ 32 → y < 2 ^ 32 → B.be32 x ≡ B.be32 y → x ≡ y
be32-injective B x y hx hy e = sym (B.be32-be32 x hx) ∙ ap B.be32 e ∙ B.be32-be32 y hy

module _ (O : HashTable ℕ ℕ) (I : HashTable ℕ InboundEntry) (B : ByteOrder) where
  -- In a sound pool of fewer than 2 ^ 32 slots two clients with a mapping never share a public
  -- address.
  pub addresses_distinct :
      (p : Pool O I) (k l i j : ℕ)
      → IsSound O I B p
      → p.pool_size < 2 ^ 32
      → O.lookup p.outbound_map k ≡ some i
      → O.lookup p.outbound_map l ≡ some j
      → (entry O I p i).public_ip ≡ (entry O I p j).public_ip
      → k ≡ l
  addresses_distinct p k l i j v small hk hl e =
      sym bk.2 ∙ ap (λ s. (entry O I p s).private_ip) same ∙ bl.2
    where
      bk : (i < p.pool_size) × ((entry O I p i).in_use ≡ true) × ((entry O I p i).private_ip ≡ k)
      bk = v.backed k i hk

      bl : (j < p.pool_size) × ((entry O I p j).in_use ≡ true) × ((entry O I p j).private_ip ≡ l)
      bl = v.backed l j hl

      sums : (p.pool_start_ip + i) % 2 ^ 32 ≡ (p.pool_start_ip + j) % 2 ^ 32
      sums =
          be32-injective B _ _ (omega arith) (omega arith)
            (sym (v.laid_out.addressed i bk.0) ∙ e ∙ v.laid_out.addressed j bl.0)

      same : i ≡ j
      same = omega (arith, sums, bk.0, bl.0)

module _ (C : Checksums) where
  open C use {ip_ok, l4_ok}

  recalc_l4-ip_ok : (p : Packet) → ip_ok (recalc_l4 C p) ≡ ip_ok p
  unfolding recalc_l4
  recalc_l4-ip_ok p = elim (Bool-cases (p.next_proto_id == ipproto_tcp)) [
    | inl t ↦ rw t (C.ip_ok-tcp _ _)
    | inr n ↦ elim (Bool-cases (p.next_proto_id == ipproto_udp)) [
      | inl u ↦ rw (n, u) (C.ip_ok-udp _ _)
      | inr m ↦ rw (n, m)
    ]
  ]

  recalc_l4-l4_ok :
      (p : Packet)
      → (p.next_proto_id ≡ ipproto_tcp) ⊎ (p.next_proto_id ≡ ipproto_udp)
      → l4_ok (recalc_l4 C p) ≡ true
  unfolding recalc_l4
  recalc_l4-l4_ok p (inl t) =
      rw ((==_iff _ _).1 t) (C.l4_ok-tcp (record p { tcp_cksum = 0 }) t refl)
  recalc_l4-l4_ok p (inr u) =
      let n : (p.next_proto_id == ipproto_tcp) ≡ false = ground arith in
      rw (n, (==_iff _ _).1 u) (C.l4_ok-udp (record p { udp_cksum = 0 }) u refl)

  recalc_ip-ip_ok : (p : Packet) → ip_ok (recalc_ip C p) ≡ true
  unfolding recalc_ip
  recalc_ip-ip_ok p = C.ip_ok-ipv4_cksum (record p { hdr_checksum = 0 }) refl

  recalc_ip-proto :
      (m : Packet) (a : ℕ) (is_src : Bool)
      → (recalc_ip C (set_address C m a is_src)).next_proto_id ≡ m.next_proto_id
  unfolding recalc_ip
  recalc_ip-proto m a true = refl
  recalc_ip-proto m a false = refl

  rewrite_kept :
      (m : Packet) (a : ℕ) (is_src : Bool)
      → let r = rewrite_and_recalc C m a is_src in
        (r.src_addr ≡ (if is_src then a else m.src_addr))
        × (r.dst_addr ≡ (if is_src then m.dst_addr else a))
        × (r.src_port ≡ m.src_port)
        × (r.dst_port ≡ m.dst_port)
        × (r.next_proto_id ≡ m.next_proto_id)
        × (r.rest ≡ m.rest)
  unfolding rewrite_and_recalc
  rewrite_kept m a true = ground arith
  rewrite_kept m a false = ground arith

  -- A rewritten packet has the new address at the side that was meant, the old one at the other side,
  -- its ports, protocol and data as before, a valid header checksum, and for TCP and UDP a valid
  -- checksum of layer 4.
  pub rewrite_and_recalc_lem :
      (m : Packet) (a : ℕ) (is_src : Bool)
      → let r = rewrite_and_recalc C m a is_src in
        (r.src_addr ≡ (if is_src then a else m.src_addr))
        × (r.dst_addr ≡ (if is_src then m.dst_addr else a))
        × (r.src_port ≡ m.src_port)
        × (r.dst_port ≡ m.dst_port)
        × (r.next_proto_id ≡ m.next_proto_id)
        × (r.rest ≡ m.rest)
        × (ip_ok r ≡ true)
        × (((m.next_proto_id ≢ ipproto_tcp) × (m.next_proto_id ≢ ipproto_udp)) ⊎ (l4_ok r ≡ true))
  unfolding rewrite_and_recalc
  rewrite_and_recalc_lem m a is_src =
      let kept = rewrite_kept m a is_src in
      (
        kept.0,
        kept.1,
        kept.2,
        kept.3,
        kept.4,
        kept.5,
        recalc_l4-ip_ok (recalc_ip C s) ∙ recalc_ip-ip_ok s,
        layer4 (ℕ_discrete m.next_proto_id ipproto_tcp) (ℕ_discrete m.next_proto_id ipproto_udp),
      )
    where
      s : Packet
      s = set_address C m a is_src

      proto : (recalc_ip C s).next_proto_id ≡ m.next_proto_id
      proto = recalc_ip-proto m a is_src

      layer4 :
          Dec (m.next_proto_id ≡ ipproto_tcp)
          → Dec (m.next_proto_id ≡ ipproto_udp)
          → ((m.next_proto_id ≢ ipproto_tcp) × (m.next_proto_id ≢ ipproto_udp))
            ⊎ (l4_ok (recalc_l4 C (recalc_ip C s)) ≡ true)
      layer4 (yes t) _ = inr (recalc_l4-l4_ok (recalc_ip C s) (inl (proto ∙ t)))
      layer4 (no n) (yes u) = inr (recalc_l4-l4_ok (recalc_ip C s) (inr (proto ∙ u)))
      layer4 (no n) (no k) = inl (n, k)
