-- ===== src/NatPool/Expiry.antt =====
-- What the timers of nat_project/version5/static_nat.c release.
use dpdk_for_beginners.Base.{
  ℕ, suc, ◌≤◌, ◌<◌, ◌≡◌, ◌≢◌, refl, sym, ◌∙◌, ap, ap₂, Bool, true, false, none, some, arith, ◌&&◌,
  leb, if◌then◌else◌, length, length-set, rounds_rule, ℕ_discrete,
}
use dpdk_for_beginners.Dpdk.{HashTable, ByteOrder}
use dpdk_for_beginners.NatPool.State.{
  Entry, InboundEntry, Pool, entry, clear, clear_slot, clear_all,
}
use dpdk_for_beginners.NatPool.Timers.{elapsed, expire_slot, expiry_timer_cb, table_timer_cb}
use dpdk_for_beginners.NatPool.Sound.{IsSound, entry-write_self, entry-write_ne}
use dpdk_for_beginners.NatPool.Sound.Loop.{expiry_timer_cb-IsSound}

-- A slot is idle if it is in use and its last packet is `idle` ticks old or more.
abbrev pub is_idle : ℕ → ℕ → Entry → Bool
is_idle now idle e = e.in_use && leb idle (elapsed now e.last_seen_tsc)

abbrev pub released : ℕ → ℕ → Entry → Entry
released now idle e = if is_idle now idle e then clear e else e

module _ (O : HashTable ℕ ℕ) (I : HashTable ℕ InboundEntry) (B : ByteOrder) (now : ℕ)
    (p : Pool O I) where
  -- the state of the loop before round `i`
  record Swept (i : ℕ) (q : Pool O I) : Type 0 where
    size : q.pool_size ≡ p.pool_size
    idle : q.idle_tsc ≡ p.idle_tsc
    room : length q.entries ≡ p.pool_size
    done :
        (j : ℕ) → j < i → j < p.pool_size → entry O I q j ≡ released now p.idle_tsc (entry O I p j)
    todo : (j : ℕ) → i ≤ j → entry O I q j ≡ entry O I p j
    less : (k j : ℕ) → O.lookup q.outbound_map k ≡ some j → O.lookup p.outbound_map k ≡ some j

  expire_slot_self :
      (i : ℕ) (q : Pool O I)
      → i < length q.entries
      → entry O I (expire_slot O I now i q) i ≡ released now q.idle_tsc (entry O I q i)
  unfolding expire_slot
  expire_slot_self i q h = ground (arith, entry-write_self O I q i (clear (entry O I q i)))

  expire_slot-ne :
      (i j : ℕ) (q : Pool O I) → i ≢ j → entry O I (expire_slot O I now i q) j ≡ entry O I q j
  unfolding expire_slot
  expire_slot-ne i j q h = ground (arith, entry-write_ne O I q i j (clear (entry O I q i)))

  size-expire_slot :
      (i : ℕ) (q : Pool O I)
      → let r = expire_slot O I now i q in
        (r.pool_size ≡ q.pool_size)
        × (r.idle_tsc ≡ q.idle_tsc)
        × (length r.entries ≡ length q.entries)
  unfolding expire_slot
  size-expire_slot i q = ground (arith, length-set q.entries i (clear (entry O I q i)))

  less-del : (t : O.Table) (x k j : ℕ) → O.lookup (O.del t x) k ≡ some j → O.lookup t k ≡ some j
  less-del t x k j h = elim (ℕ_discrete x k) [
    | yes e ↦ absurd (gone e)
    | no n ↦ sym (O.lookup-del_ne t x k n) ∙ h
  ]
    where
      gone : x ≡ k → ⊥
      gone e = cc (O.lookup-del_self t k, h, e)

  less-expire_slot :
      (i : ℕ) (q : Pool O I) (k j : ℕ)
      → O.lookup (expire_slot O I now i q).outbound_map k ≡ some j
      → O.lookup q.outbound_map k ≡ some j
  unfolding expire_slot
  less-expire_slot i q k j h =
      ground (arith, less-del q.outbound_map (entry O I q i).private_ip k j)

  sweep :
      (i : ℕ) (q : Pool O I) → i < p.pool_size → Swept i q → Swept (suc i) (expire_slot O I now i q)
  sweep i q hi s =
      let z = size-expire_slot i q in
      record {
        size = z.0 ∙ s.size;
        idle = z.1 ∙ s.idle;
        room = z.2 ∙ s.room;
        done = λ j lt hj. elim (ℕ_discrete i j) [
          | yes e ↦ rw (← e) (
              expire_slot_self i q (omega (arith, s.room))
              ∙ ap₂ (released now) s.idle (s.todo i (omega arith)))
          | no n ↦ expire_slot-ne i j q n ∙ s.done j (omega arith) hj
        ];
        todo = λ j le. expire_slot-ne i j q (omega arith) ∙ s.todo j (omega arith);
        less = λ k j h. s.less k j (less-expire_slot i q k j h);
      }

  swept : IsSound O I B p → Swept p.pool_size (expiry_timer_cb O I now p)
  unfolding expiry_timer_cb
  swept v =
      rounds_rule (expire_slot O I now) (λ i q. Swept i q) p.pool_size (λ i q h s. sweep i q h s)
        p.pool_size 0 p (omega arith)
        (record {
          size = refl;
          idle = refl;
          room = v.laid_out.sized;
          done = λ j lt hj. absurd (omega arith);
          todo = λ j le. refl;
          less = λ k j h. h;
        })

  released-fresh :
      (idle : ℕ) (e : Entry) → (released now idle e).in_use ≡ true → is_idle now idle e ≡ false
  unfolding clear
  released-fresh idle e h = ground arith

  module _ (v : IsSound O I B p) where
    -- In a sound pool the expiry callback frees exactly the idle slots, and leaves every other
    -- slot as it is.
    pub entry-expiry_timer_cb :
        (i : ℕ)
        → i < p.pool_size
        → entry O I (expiry_timer_cb O I now p) i ≡ released now p.idle_tsc (entry O I p i)
    entry-expiry_timer_cb i h = (swept v).done i h h

    -- In a sound pool, a mapping that is there after the expiry callback was there before, and its
    -- slot is not idle.
    pub lookup-expiry_timer_cb :
        (k i : ℕ)
        → O.lookup (expiry_timer_cb O I now p).outbound_map k ≡ some i
        → (O.lookup p.outbound_map k ≡ some i) × (is_idle now p.idle_tsc (entry O I p i) ≡ false)
    lookup-expiry_timer_cb k i h =
        let b = (expiry_timer_cb-IsSound O I B now p v).backed k i h in
        let hi : i < p.pool_size = omega (arith, b.0, (swept v).size) in
        (
          (swept v).less k i h,
          released-fresh p.idle_tsc (entry O I p i) (rw (entry-expiry_timer_cb i hi) at b.1),
        )

module _ (O : HashTable ℕ ℕ) (I : HashTable ℕ InboundEntry) (p : Pool O I) where
  record Cleared (i : ℕ) (q : Pool O I) : Type 0 where
    size : q.pool_size ≡ p.pool_size
    room : length q.entries ≡ p.pool_size
    done : (j : ℕ) → j < i → entry O I q j ≡ clear (entry O I p j)
    todo : (j : ℕ) → i ≤ j → entry O I q j ≡ entry O I p j

  clear_slot-Cleared :
      (i : ℕ) (q : Pool O I) → i < p.pool_size → Cleared i q → Cleared (suc i) (clear_slot O I i q)
  unfolding clear_slot
  clear_slot-Cleared i q hi s = record {
    size = s.size;
    room = length-set q.entries i _ ∙ s.room;
    done = λ j lt. elim (ℕ_discrete i j) [
      | yes e ↦
          rw (← e)
            (entry-write_self O I q i _ (omega (arith, s.room)) ∙ ap clear (s.todo i (omega arith)))
      | no n ↦ entry-write_ne O I q i j _ n ∙ s.done j (omega arith)
    ];
    todo = λ j le. entry-write_ne O I q i j _ (omega arith) ∙ s.todo j (omega arith);
  }

  -- If the array has its size, the table callback frees every slot, which keeps its public
  -- address, forgets every mapping, and waits for the next packet.
  pub table_timer_cb-clears :
      length p.entries ≡ p.pool_size
      → (i k : ℕ) → i < p.pool_size
      → let q = table_timer_cb O I p in
        (entry O I q i ≡ clear (entry O I p i))
        × (O.lookup q.outbound_map k ≡ none)
        × (q.started ≡ false)
  unfolding table_timer_cb clear_all
  table_timer_cb-clears sized i k hi =
      let s =
        rounds_rule (clear_slot O I) (λ j q. Cleared j q) p.pool_size
          (λ j q h t. clear_slot-Cleared j q h t) p.pool_size 0 p (omega arith)
          (record {
            size = refl;
            room = sized;
            done = λ j lt. absurd (omega arith);
            todo = λ j le. refl;
          }) in
      (s.done i hi, O.lookup-reset _ k, refl)
