-- ===== src/NatPool/Outcome.antt =====
-- What becomes of a packet and of the pool in one step of `nat_pool_apply`
-- (nat_project/version5/static_nat.c).
use dpdk_for_beginners.Base.{
  ℕ, ◌<◌, ◌≡◌, ◌↔◌, refl, ap, inl, inr, true, false, Option, none, some, arith, ◌==◌, ==_iff,
  Bool-cases, Option-cases,
}
use dpdk_for_beginners.Dpdk.{HashTable, ByteOrder}
use dpdk_for_beginners.Packet.{Packet, Checksums, ether_type_ipv4}
use dpdk_for_beginners.NatPool.State.{Entry, InboundEntry, Pool, entry}
use dpdk_for_beginners.NatPool.Apply.{
  rewrite_and_recalc, free_from, find_free_slot, assign, outbound_new, outbound, ipv4, apply_one,
}
use dpdk_for_beginners.NatPool.Sound.{IsSound, entry-write_self}
use dpdk_for_beginners.NatPool.Sound.Steps.{free_from-first, free_from-none}

module _ (O : HashTable ℕ ℕ) (I : HashTable ℕ InboundEntry) (B : ByteOrder) (C : Checksums) where
  -- an IPv4 packet whose destination has no static mapping
  pub record IsOutbound (p : Pool O I) (m : Packet) : Type 0 where
    pub is_ipv4 : m.ether_type ≡ B.be16 ether_type_ipv4
    pub unmapped : I.lookup p.inbound_map m.dst_addr ≡ none

  pub apply_outbound :
      (now : ℕ) (p : Pool O I) (m : Packet)
      → IsOutbound p m
      → apply_one O I B C now p m ≡ outbound O I B C now (O.lookup p.outbound_map m.src_addr) p m
  unfolding apply_one ipv4
  apply_outbound now p m o = rw ((==_iff _ _).1 o.is_ipv4, o.unmapped)

  pub not_none : {m : Packet} → some m ≡ none → ⊥
  not_none e = cc

  full_pool :
      (p : Pool O I)
      → find_free_slot O I p ≡ none
      → (i : ℕ) → i < p.pool_size
      → (entry O I p i).in_use ≡ true
  unfolding find_free_slot
  full_pool p e i h = free_from-none O I B p p.pool_size 0 e i (omega arith) (omega arith)

  no_slot :
      (p : Pool O I)
      → ((i : ℕ) → i < p.pool_size → (entry O I p i).in_use ≡ true)
      → find_free_slot O I p ≡ none
  unfolding find_free_slot
  no_slot p used = elim (Option-cases (free_from O I p p.pool_size 0)) [
    | inl e ↦ e
    | inr (s, e) ↦
        let f = free_from-first O I B p p.pool_size 0 s e in
        let u = used s (omega (arith, f.1)) in cc (f.2, u)
  ]

  outbound_new-drops :
      (now : ℕ) (o : Option ℕ) (p : Pool O I) (m : Packet)
      → (outbound_new O I B C now o p m).1 ≡ none
      → o ≡ none
  unfolding outbound_new
  outbound_new-drops now none p m e = refl
  outbound_new-drops now (some s) p m e = absurd (not_none e)

  drop_new :
      (now : ℕ) (p : Pool O I) (m : Packet)
      → find_free_slot O I p ≡ none
      → (outbound O I B C now none p m).1 ≡ none
  unfolding outbound
  drop_new now p m e = rw (e, outbound_new)

  outbound-drops :
      (now : ℕ) (o : Option ℕ) (p : Pool O I) (m : Packet)
      → (outbound O I B C now o p m).1 ≡ none
      → (o ≡ none) × (find_free_slot O I p ≡ none)
  unfolding outbound
  outbound-drops now none p m e = (refl, outbound_new-drops now _ p m e)
  outbound-drops now (some s) p m e = absurd (not_none e)

  drops-IsOutbound :
      (now : ℕ) (p : Pool O I) (m : Packet) → (apply_one O I B C now p m).1 ≡ none → IsOutbound p m
  unfolding apply_one ipv4
  drops-IsOutbound now p m e = elim (Bool-cases (m.ether_type == B.be16 ether_type_ipv4)) [
    | inr other ↦ absurd (not_none (rw other at e))
    | inl ip ↦ elim (Option-cases (I.lookup p.inbound_map m.dst_addr)) [
      | inr (s, found) ↦ absurd (not_none (rw (ip, found) at e))
      | inl missing ↦ record { is_ipv4 = (==_iff _ _).0 ip; unmapped = missing }
    ]
  ]

  -- A packet is dropped exactly if it is outbound, its source has no slot and all slots are in use.
  pub apply_one-drops :
      (now : ℕ) (p : Pool O I) (m : Packet)
      → ((apply_one O I B C now p m).1 ≡ none) ↔ (
          IsOutbound p m
          × (O.lookup p.outbound_map m.src_addr ≡ none)
          × ((i : ℕ) → i < p.pool_size → (entry O I p i).in_use ≡ true))
  apply_one-drops now p m = (dropped, full)
    where
      dropped :
          (apply_one O I B C now p m).1 ≡ none
          → IsOutbound p m
            × (O.lookup p.outbound_map m.src_addr ≡ none)
            × ((i : ℕ) → i < p.pool_size → (entry O I p i).in_use ≡ true)
      dropped e =
          let o = drops-IsOutbound now p m e in
          let d = outbound-drops now _ p m (rw (apply_outbound now p m o) at e) in
          (o, d.0, full_pool p d.1)

      full :
          IsOutbound p m
            × (O.lookup p.outbound_map m.src_addr ≡ none)
            × ((i : ℕ) → i < p.pool_size → (entry O I p i).in_use ≡ true)
          → (apply_one O I B C now p m).1 ≡ none
      full (o, e, used) = rw (apply_outbound now p m o, e) (drop_new now p m (no_slot p used))

  leak :
      (now : ℕ) (p : Pool O I) (m : Packet) (s : ℕ)
      → IsSound O I B p
      → find_free_slot O I p ≡ some s
      → O.add p.outbound_map m.src_addr s ≡ none
      → O.lookup p.outbound_map m.src_addr ≡ none
      → let r = outbound_new O I B C now (some s) p m in
        ((entry O I p s).in_use ≡ false)
        × ((entry O I r.0 s).in_use ≡ true)
        × (O.lookup r.0.outbound_map m.src_addr ≡ none)
        × (r.1 ≡ some (rewrite_and_recalc C m (entry O I p s).public_ip true))
  unfolding outbound_new assign find_free_slot
  leak now p m s v free full e =
      let f = free_from-first O I B p p.pool_size 0 s free in
      let w = entry-write_self O I p s _ (omega (arith, f.1, v.laid_out.sized)) in
      (
        f.2,
        ap (λ (x : Entry). x.in_use) w,
        rw full e,
        ap (λ (x : Entry). some (rewrite_and_recalc C m x.public_ip true)) w,
      )

  -- If the outbound table of a sound pool with a free slot refuses a new source, its packet still
  -- takes a free slot and leaves with that slot's address, but the source stays unknown: the slot
  -- is in use and no packet finds it.
  pub apply_one-leaks :
      (now : ℕ) (p : Pool O I) (m : Packet) (s : ℕ)
      → IsSound O I B p
      → IsOutbound p m
      → O.lookup p.outbound_map m.src_addr ≡ none
      → find_free_slot O I p ≡ some s
      → O.add p.outbound_map m.src_addr s ≡ none
      → let q = (apply_one O I B C now p m).0 in
        ((entry O I p s).in_use ≡ false)
        × ((entry O I q s).in_use ≡ true)
        × (O.lookup q.outbound_map m.src_addr ≡ none)
        × ((apply_one O I B C now p m).1
            ≡ some (rewrite_and_recalc C m (entry O I p s).public_ip true))
  unfolding outbound
  apply_one-leaks now p m s v o e free full =
      rw (apply_outbound now p m o, e, free) (leak now p m s v free full e)
