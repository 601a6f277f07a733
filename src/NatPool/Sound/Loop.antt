-- ===== src/NatPool/Sound/Loop.antt =====
-- The whole program keeps the pool sound, from its creation on.
use dpdk_for_beginners.Base.{
  ℕ, zero, suc, ◌+◌, ◌<◌, ◌≡◌, refl, ◌∙◌, ap, subst, inl, inr, Bool, true, Option, none, some, List,
  [], ◌∷◌, arith, some-inj, ◌==◌, length, get_or, rounds_rule, Bool-cases,
}
use dpdk_for_beginners.Dpdk.{HashTable, ByteOrder}
use dpdk_for_beginners.Packet.{Packet, Checksums, ether_type_ipv4}
use dpdk_for_beginners.NatPool.State.{
  InboundEntry, Pool, Resources, blank, clear, clear_slot, clear_all, fill, slot_address,
  create_with, nat_pool_create,
}
use dpdk_for_beginners.NatPool.Timers.{
  expire_slot, expiry_timer_cb, table_timer_cb, nat_table_timer_arm,
}
use dpdk_for_beginners.NatPool.Apply.{
  find_free_slot, outbound_new, outbound, ipv4, apply_one, nat_pool_apply,
}
use dpdk_for_beginners.NatPool.Main.{
  Callback, expiry, table, Round, run_callback, run_callbacks, traffic, round, main_loop,
}
use dpdk_for_beginners.NatPool.Sound.{IsLaidOut, IsSound, write-IsLaidOut}
use dpdk_for_beginners.NatPool.Sound.Steps.{
  expire_slot-IsSound, touch-IsSound, assign-IsSound, free_from-first,
}

module _ (O : HashTable ℕ ℕ) (I : HashTable ℕ InboundEntry) (B : ByteOrder) where
  -- The size of the array is never written.
  pool_size-expire_slot :
      (now i : ℕ) (p : Pool O I) → (expire_slot O I now i p).pool_size ≡ p.pool_size
  unfolding expire_slot
  pool_size-expire_slot now i p = ground arith

  pub expiry_timer_cb-IsSound :
      (now : ℕ) (p : Pool O I) → IsSound O I B p → IsSound O I B (expiry_timer_cb O I now p)
  unfolding expiry_timer_cb
  expiry_timer_cb-IsSound now p v =
      (rounds_rule (expire_slot O I now) (λ i q. (q.pool_size ≡ p.pool_size) × IsSound O I B q)
        p.pool_size
        (λ i q h s. (
          pool_size-expire_slot now i q ∙ s.0,
          expire_slot-IsSound O I B now i q (omega (arith, s.0)) s.1,
        ))
        p.pool_size 0 p (omega arith) (refl, v)).1

  clear_slot-IsLaidOut :
      (i : ℕ) (p : Pool O I) → IsLaidOut O I B p → IsLaidOut O I B (clear_slot O I i p)
  unfolding clear_slot clear
  clear_slot-IsLaidOut i p v = write-IsLaidOut O I B p i _ refl v

  after_reset : (t : O.Table) (k i : ℕ) → O.lookup (O.reset t) k ≡ some i → ⊥
  after_reset t k i h = cc (O.lookup-reset t k)

  pub clear_all-IsSound : (p : Pool O I) → IsSound O I B p → IsSound O I B (clear_all O I p)
  unfolding clear_all
  clear_all-IsSound p v =
      let w =
        rounds_rule (clear_slot O I) (λ _ q. IsLaidOut O I B q) p.pool_size
          (λ i q _ s. clear_slot-IsLaidOut i q s) p.pool_size 0 p (omega arith) v.laid_out in
      record {
        laid_out = record { sized = w.sized; addressed = w.addressed };
        backed = λ k i h. absurd (after_reset _ k i h);
      }

  -- The invariant does not look at the table timer, nor at `started`.
  flags-IsSound :
      (t : Option ℕ) (s : Bool) (p : Pool O I)
      → IsSound O I B p
      → IsSound O I B (record p { table_timer = t; started = s })
  flags-IsSound t s p v = record {
    laid_out = record { sized = v.laid_out.sized; addressed = v.laid_out.addressed };
    backed = v.backed;
  }

  run_callback-IsSound :
      (c : Callback) (p : Pool O I) → IsSound O I B p → IsSound O I B (run_callback O I c p)
  unfolding run_callback table_timer_cb
  run_callback-IsSound (expiry now) p v = expiry_timer_cb-IsSound now p v
  run_callback-IsSound table p v =
      clear_all-IsSound (record p { table_timer = none }) (flags-IsSound none p.started p v)

  pub run_callbacks-IsSound :
      (cs : List Callback) (p : Pool O I) → IsSound O I B p → IsSound O I B (run_callbacks O I cs p)
  unfolding run_callbacks
  run_callbacks-IsSound [] p v = v
  run_callbacks-IsSound (c ∷ cs) p v = run_callbacks-IsSound cs _ (run_callback-IsSound c p v)

  module _ (C : Checksums) where
    outbound_new-IsSound :
        (now : ℕ) (o : Option ℕ) (p : Pool O I) (m : Packet)
        → find_free_slot O I p ≡ o
        → IsSound O I B p
        → IsSound O I B (outbound_new O I B C now o p m).0
    unfolding outbound_new find_free_slot
    outbound_new-IsSound now none p m e v = v
    outbound_new-IsSound now (some slot) p m e v =
        let f = free_from-first O I B p p.pool_size 0 slot e in
        assign-IsSound O I B now m.src_addr slot p (omega (arith, f.1)) f.2 v

    outbound-IsSound :
        (now : ℕ) (o : Option ℕ) (p : Pool O I) (m : Packet)
        → O.lookup p.outbound_map m.src_addr ≡ o
        → IsSound O I B p
        → IsSound O I B (outbound O I B C now o p m).0
    unfolding outbound
    outbound-IsSound now none p m e v = outbound_new-IsSound now _ p m refl v
    outbound-IsSound now (some slot) p m e v = touch-IsSound O I B now m.src_addr slot p e v

    ipv4-IsSound :
        (now : ℕ) (o : Option InboundEntry) (p : Pool O I) (m : Packet)
        → IsSound O I B p
        → IsSound O I B (ipv4 O I B C now o p m).0
    unfolding ipv4
    ipv4-IsSound now (some e) p m v = v
    ipv4-IsSound now none p m v = outbound-IsSound now _ p m refl v

    pub apply_one-IsSound :
        (now : ℕ) (p : Pool O I) (m : Packet)
        → IsSound O I B p
        → IsSound O I B (apply_one O I B C now p m).0
    unfolding apply_one
    apply_one-IsSound now p m v = elim (Bool-cases (m.ether_type == B.be16 ether_type_ipv4)) [
      | inl e ↦ rw e (ipv4-IsSound now _ p m v)
      | inr e ↦ rw e v
    ]

    pub nat_pool_apply-IsSound :
        (ms : List (ℕ × Packet)) (p : Pool O I)
        → IsSound O I B p
        → IsSound O I B (nat_pool_apply O I B C p ms).0
    unfolding nat_pool_apply
    nat_pool_apply-IsSound [] p v = v
    nat_pool_apply-IsSound ((now, m) ∷ ms) p v =
        nat_pool_apply-IsSound ms _ (apply_one-IsSound now p m v)

    round-IsSound :
        (hz : ℕ) (r : Round) (bufs : List (ℕ × Packet)) (p : Pool O I)
        → r.bufs ≡ bufs
        → IsSound O I B p
        → IsSound O I B (round O I B C hz r p).0
    unfolding round traffic nat_table_timer_arm
    round-IsSound hz r [] p e v = rw (e, round) (run_callbacks-IsSound r.due p v)
    round-IsSound hz r (b ∷ bs) p e v =
        rw (e, round)
          (nat_pool_apply-IsSound (b ∷ bs) _
            (flags-IsSound _ true (run_callbacks O I r.due p) (run_callbacks-IsSound r.due p v)))

    pub main_loop-IsSound :
        (hz : ℕ) (rs : List Round) (p : Pool O I)
        → IsSound O I B p
        → IsSound O I B (main_loop O I B C hz rs p)
    unfolding main_loop
    main_loop-IsSound hz [] p v = v
    main_loop-IsSound hz (r ∷ rs) p v = main_loop-IsSound hz rs _ (round-IsSound hz r _ p refl v)

  fill-length : (start left i : ℕ) → length (fill O I B start left i) ≡ left
  unfolding fill
  fill-length start zero i = refl
  fill-length start (suc left) i = ap suc (fill-length start left (suc i))

  fill-address :
      (start left i j : ℕ)
      → j < left
      → (get_or (fill O I B start left i) j blank).public_ip ≡ slot_address O I B start (i + j)
  unfolding fill
  fill-address start zero i j h = absurd (omega arith)
  fill-address start (suc left) i zero h = ap (slot_address O I B start) (omega arith)
  fill-address start (suc left) i (suc j) h =
      fill-address start left (suc i) j (omega arith) ∙ ap (slot_address O I B start) (omega arith)

  -- What `nat_pool_create` returns is sound, if the tables that it is given are empty.
  create_with-IsSound :
      (a b : Bool) (o : Option O.Table) (t : Option I.Table) (s_addr range hz : ℕ) (p : Pool O I)
      → ((u : O.Table) (k : ℕ) → o ≡ some u → O.lookup u k ≡ none)
      → create_with O I B a b o t s_addr range hz ≡ some p
      → IsSound O I B p
  unfolding create_with
  create_with-IsSound true true (some o) (some t) s_addr range hz p empty e =
      subst (IsSound O I B) (some-inj e) (record {
        laid_out = record {
          sized = fill-length (B.be32 s_addr) range 0;
          addressed = λ i h.
              fill-address (B.be32 s_addr) range 0 i h
              ∙ ap (slot_address O I B (B.be32 s_addr)) (omega arith);
        };
        backed = λ k i h. absurd (none_in o (empty o k refl) h);
      })
    where
      none_in : (u : O.Table) {k i : ℕ} → O.lookup u k ≡ none → O.lookup u k ≡ some i → ⊥
      none_in u e h = cc
  create_with-IsSound _ _ _ _ s_addr range hz p empty e = cc

  -- A pool that `nat_pool_create` built over empty tables is sound after any rounds of the main loop,
  -- whatever packets come, whichever callbacks run and whichever insertions fail.
  pub run-IsSound :
      (C : Checksums) (r : Resources O I) (s_addr range hz : ℕ) (rs : List Round) (p : Pool O I)
      → ((u : O.Table) (k : ℕ) → r.outbound_table ≡ some u → O.lookup u k ≡ none)
      → nat_pool_create O I B r s_addr range hz ≡ some p
      → IsSound O I B (main_loop O I B C hz rs p)
  unfolding nat_pool_create
  run-IsSound C r s_addr range hz rs p empty e =
      main_loop-IsSound C hz rs p (create_with-IsSound _ _ _ _ s_addr range hz p empty e)
