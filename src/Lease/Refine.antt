-- ===== src/Lease/Refine.antt =====
-- nat_project/version4 does to a packet what nat_project/version5 does, if the latter lets its expiry
-- callback run before a packet from a source that has no slot.
use dpdk_for_beginners.Base.{
  ℕ, zero, suc, ◌+◌, ◌%◌, ◌^◌, some-inj, ◌≡◌, ◌≤◌, refl, sym, ◌∙◌, ap, subst, inl, inr, true,
  Option, none, some, List, [], ◌∷◌, arith, length, ◌==◌, Bool-cases, Option-cases, if◌then◌else◌,
}
use dpdk_for_beginners.Dpdk.{HashTable, ByteOrder}
use dpdk_for_beginners.Packet.{Packet, Checksums, ether_type_ipv4}
use dpdk_for_beginners.NatPool.State.{
  InboundEntry, Pool, blank, fill, new_pool, create_with, nat_pool_create,
}
use dpdk_for_beginners.NatPool.Timers.{expiry_timer_cb}
use dpdk_for_beginners.NatPool.Apply.{assign, outbound_new, outbound, ipv4, apply_one}
use dpdk_for_beginners.NatPool.Sound.{IsSound}
use dpdk_for_beginners.NatPool.Sound.Loop.{expiry_timer_cb-IsSound, apply_one-IsSound, run-IsSound}
use dpdk_for_beginners.NatPool.Main.{main_loop}
use dpdk_for_beginners.NatPool.Expiry.{lookup-expiry_timer_cb}
use dpdk_for_beginners.Lease.{
  Lease, find_slot, lend, lend_found, translate_source, lease_one, lease_all, lease_fill,
  lease_create,
}
use dpdk_for_beginners.Lease.Pass.{as_pool, find_slot_lem}

module _ (O : HashTable ℕ ℕ) (I : HashTable ℕ InboundEntry) (B : ByteOrder) (C : Checksums)
    (t : I.Table) where
  -- the pool of version5 that the packet finds, by what the table holds for its source
  abbrev aired_if : ℕ → Option ℕ → Lease O → Pool O I
  aired_if scan none p = expiry_timer_cb O I scan (as_pool O I t p)
  aired_if scan (some i) p = as_pool O I t p

  -- The pool of version5 that the packet finds: the expiry callback has run if the source is new.
  abbrev pub aired : ℕ → Lease O → Packet → Pool O I
  aired scan p m =
      if m.ether_type == B.be16 ether_type_ipv4
      then aired_if scan (O.lookup p.addresses m.src_addr) p
      else as_pool O I t p

  lend_found-as_pool :
      (now : ℕ) (q : Lease O) (s : Option ℕ) (m : Packet)
      → let r = lend_found O B C now q s m in
        (as_pool O I t r.0, r.1) ≡ outbound_new O I B C now s (as_pool O I t q) m
  unfolding lend_found lend outbound_new assign
  lend_found-as_pool now q none m = refl
  lend_found-as_pool now q (some i) m = refl

  still_new :
      (scan : ℕ) (p : Lease O) (k : ℕ)
      → IsSound O I B (as_pool O I t p)
      → O.lookup p.addresses k ≡ none
      → O.lookup (find_slot O scan p).0.addresses k ≡ none
  still_new scan p k v e = elim (Option-cases (O.lookup (find_slot O scan p).0.addresses k)) [
    | inl n ↦ n
    | inr (i, h) ↦
        let pass = find_slot_lem O I t scan p (omega (arith, v.laid_out.sized)) in
        let old =
          lookup-expiry_timer_cb O I B scan (as_pool O I t p) v k i
            (subst (λ (q : Pool O I). O.lookup q.outbound_map k ≡ some i) pass.0 h) in
        absurd (clash i old.0)
  ]
    where
      clash : (i : ℕ) → O.lookup p.addresses k ≡ some i → ⊥
      clash i h = cc (h, e)

  source-as_pool :
      (scan now : ℕ) (o : Option ℕ) (p : Lease O) (m : Packet)
      → IsSound O I B (as_pool O I t p)
      → O.lookup p.addresses m.src_addr ≡ o
      → I.lookup t m.dst_addr ≡ none
      → let r = translate_source O B C scan now o p m in
        (as_pool O I t r.0, r.1) ≡ ipv4 O I B C now none (aired_if scan o p) m
  unfolding translate_source ipv4 outbound
  source-as_pool scan now (some i) p m v e u = rw e refl
  source-as_pool scan now none p m v e u =
      let q = (find_slot O scan p).0 in
      let pass = find_slot_lem O I t scan p (omega (arith, v.laid_out.sized)) in
      lend_found-as_pool now q (find_slot O scan p).1 m
      ∙ ap (λ s. outbound_new O I B C now s (as_pool O I t q) m) pass.1
      ∙ ap (λ o. outbound O I B C now o (as_pool O I t q) m) (sym (still_new scan p m.src_addr v e))
      ∙ ap (λ (x : Pool O I). outbound O I B C now (O.lookup x.outbound_map m.src_addr) x m) pass.0

  aired_if-inbound_map :
      (scan : ℕ) (o : Option ℕ) (p : Lease O)
      → p.pool_size ≤ length p.entries
      → (aired_if scan o p).inbound_map ≡ t
  aired_if-inbound_map scan (some i) p h = refl
  aired_if-inbound_map scan none p h =
      ap (λ (x : Pool O I). x.inbound_map) (sym (find_slot_lem O I t scan p h).0)

  -- What a packet does to a sound pool, and what becomes of it, is what version5 makes of it
  -- without static mappings, if its expiry callback has run just before whenever the source of the
  -- packet is new.
  pub lease_one_refines :
      (scan now : ℕ) (p : Lease O) (m : Packet)
      → IsSound O I B (as_pool O I t p)
      → I.lookup t m.dst_addr ≡ none
      → let r = lease_one O B C scan now p m in
        (as_pool O I t r.0, r.1) ≡ apply_one O I B C now (aired scan p m) m
  unfolding lease_one apply_one
  lease_one_refines scan now p m v u = elim (Bool-cases (m.ether_type == B.be16 ether_type_ipv4)) [
    | inr n ↦ rw n refl
    | inl y ↦
        let o = O.lookup p.addresses m.src_addr in
        let sized : p.pool_size ≤ length p.entries = omega (arith, v.laid_out.sized) in
        rw y (
          source-as_pool scan now o p m v refl u
          ∙ ap (λ x. ipv4 O I B C now x (aired_if scan o p) m)
              (sym (ap (λ x. I.lookup x m.dst_addr) (aired_if-inbound_map scan o p sized) ∙ u)))
  ]

  aired-IsSound :
      (scan : ℕ) (p : Lease O) (m : Packet)
      → IsSound O I B (as_pool O I t p)
      → IsSound O I B (aired scan p m)
  aired-IsSound scan p m v = elim (Bool-cases (m.ether_type == B.be16 ether_type_ipv4)) [
    | inr n ↦ rw n v
    | inl y ↦ elim (Option-cases (O.lookup p.addresses m.src_addr)) [
      | inl e ↦ rw (y, e) (expiry_timer_cb-IsSound O I B scan (as_pool O I t p) v)
      | inr (i, e) ↦ rw (y, e) v
    ]
  ]

  lease_one-IsSound :
      (scan now : ℕ) (p : Lease O) (m : Packet)
      → IsSound O I B (as_pool O I t p)
      → I.lookup t m.dst_addr ≡ none
      → IsSound O I B (as_pool O I t (lease_one O B C scan now p m).0)
  lease_one-IsSound scan now p m v u =
      subst (λ (x : Pool O I × Option Packet). IsSound O I B x.0)
        (sym (lease_one_refines scan now p m v u))
        (apply_one-IsSound O I B C now (aired scan p m) m (aired-IsSound scan p m v))

  -- A sound pool stays sound over a burst, whatever the packets are and whichever slots are released.
  pub lease_all-IsSound :
      (ms : List (ℕ × ℕ × Packet)) (p : Lease O)
      → IsSound O I B (as_pool O I t p)
      → ((k : ℕ) → I.lookup t k ≡ none)
      → IsSound O I B (as_pool O I t (lease_all O B C p ms).0)
  unfolding lease_all
  lease_all-IsSound [] p v u = v
  lease_all-IsSound ((scan, now, m) ∷ ms) p v u =
      lease_all-IsSound ms _ (lease_one-IsSound scan now p m v (u m.dst_addr)) u

  fill-lease_fill : (start left i : ℕ) → lease_fill O B start left i ≡ fill O I B start left i
  unfolding lease_fill fill
  fill-lease_fill start zero i = refl
  fill-lease_fill start (suc left) i =
      ap (λ es. record blank { public_ip = B.be32 ((start + i) % 2 ^ 32) } ∷ es)
        (fill-lease_fill start left (suc i))

  -- The pool that is created is that of version5, and sound after any bursts, if its table is created
  -- empty.
  pub lease_run-IsSound :
      (o : O.Table) (s_addr range hz : ℕ) (p : Lease O) (ms : List (ℕ × ℕ × Packet))
      → ((k : ℕ) → O.lookup o k ≡ none)
      → ((k : ℕ) → I.lookup t k ≡ none)
      → lease_create O B true true (some o) s_addr range hz ≡ some p
      → IsSound O I B (as_pool O I t (lease_all O B C p ms).0)
  unfolding lease_create nat_pool_create create_with main_loop
  lease_run-IsSound o s_addr range hz p ms empty u e =
      lease_all-IsSound ms p (subst (IsSound O I B) same start) u
    where
      start : IsSound O I B (new_pool O I B s_addr range hz o t)
      start =
          run-IsSound O I B C
            (record {
              pool_memory = true;
              entries_memory = true;
              outbound_table = some o;
              inbound_table = some t;
            })
            s_addr range hz [] _ (λ x k q. subst (λ y. O.lookup y k ≡ none) (some-inj q) (empty k))
            refl

      same : new_pool O I B s_addr range hz o t ≡ as_pool O I t p
      same =
          ap (λ es. record (new_pool O I B s_addr range hz o t) { entries = es })
            (sym (fill-lease_fill (B.be32 s_addr) range 0))
          ∙ ap (as_pool O I t) (some-inj e)
