-- ===== src/NatPool/Sound/Steps.antt =====
-- Each step on a slot keeps the pool sound.
use dpdk_for_beginners.Base.{
  ℕ, zero, suc, ◌+◌, ◌≤◌, ◌<◌, ◌≡◌, ◌≢◌, refl, sym, ◌∙◌, ◌⊎◌, inl, inr, true, false, none, some,
  arith, leb, Bool-cases, Option-cases, ℕ_discrete,
}
use dpdk_for_beginners.Dpdk.{HashTable, ByteOrder, add_quietly}
use dpdk_for_beginners.NatPool.State.{InboundEntry, Pool, entry, clear}
use dpdk_for_beginners.NatPool.Timers.{elapsed, expire_slot}
use dpdk_for_beginners.NatPool.Apply.{free_from, touch, assign}
use dpdk_for_beginners.NatPool.Sound.{IsSound, update-IsSound}

module _ (O : HashTable ℕ ℕ) (I : HashTable ℕ InboundEntry) (B : ByteOrder) where
  -- what is left in the outbound table when the key of slot `i` is deleted
  del_keys :
      (p : Pool O I) (i : ℕ)
      → IsSound O I B p
      → (k j : ℕ) → O.lookup (O.del p.outbound_map (entry O I p i).private_ip) k ≡ some j
      → (i ≢ j) × (O.lookup p.outbound_map k ≡ some j)
  del_keys p i v k j h = elim (ℕ_discrete (entry O I p i).private_ip k) [
    | yes e ↦ absurd (absent e)
    | no n ↦
        let old = sym (O.lookup-del_ne p.outbound_map _ k n) ∙ h in
        ((λ q. n (rw q (v.backed k j old).2)), old)
  ]
    where
      absent : (entry O I p i).private_ip ≡ k → ⊥
      absent e = cc (O.lookup-del_self p.outbound_map k, h, e)

  pub expire_slot-IsSound :
      (now i : ℕ) (p : Pool O I)
      → i < p.pool_size
      → IsSound O I B p
      → IsSound O I B (expire_slot O I now i p)
  unfolding expire_slot clear
  expire_slot-IsSound now i p hi v = elim (Bool-cases (entry O I p i).in_use) [
    | inr free ↦ rw free v
    | inl used ↦ elim (Bool-cases (leb p.idle_tsc (elapsed now (entry O I p i).last_seen_tsc))) [
      | inr fresh ↦ rw (used, fresh) v
      | inl stale ↦
          rw (used, stale)
            (update-IsSound O I B p i (clear (entry O I p i)) _ hi refl
              (λ k j h. inr (del_keys p i v k j h)) v)
    ]
  ]

  pub touch-IsSound :
      (now k i : ℕ) (p : Pool O I)
      → O.lookup p.outbound_map k ≡ some i
      → IsSound O I B p
      → IsSound O I B (touch O I now i p)
  touch-IsSound now k i p h v =
      update-IsSound O I B p i _ p.outbound_map (v.backed k i h).0 refl
        (λ l j q. keys l j q (ℕ_discrete i j)) v
    where
      keys :
          (l j : ℕ)
          → O.lookup p.outbound_map l ≡ some j
          → Dec (i ≡ j)
          → ((i ≡ j) × ((entry O I p i).in_use ≡ true) × ((entry O I p i).private_ip ≡ l))
            ⊎ ((i ≢ j) × (O.lookup p.outbound_map l ≡ some j))
      keys l j q (yes e) = let b = v.backed l j q in inl (e, rw e b.1, rw e b.2)
      keys l j q (no n) = inr (n, q)

  -- The key `k` in the table after an insertion that may have failed.
  pub add_quietly-keys :
      (t : O.Table) (src slot k j : ℕ)
      → O.lookup (add_quietly O t src slot) k ≡ some j
      → ((slot ≡ j) × (src ≡ k)) ⊎ (O.lookup t k ≡ some j)
  add_quietly-keys t src slot k j h = elim (Option-cases (O.add t src slot)) [
    | inl full ↦ inr (rw full at h)
    | inr (u, added) ↦ elim (ℕ_discrete src k) [
      | yes e ↦
          let here : O.lookup u k ≡ some j = rw added at h in
          inl (cc (O.lookup-add_self t src slot u added), e)
      | no n ↦ inr (sym (O.lookup-add_ne t src slot u k added n) ∙ (rw added at h))
    ]
  ]

  pub assign-IsSound :
      (now src slot : ℕ) (p : Pool O I)
      → slot < p.pool_size
      → (entry O I p slot).in_use ≡ false
      → IsSound O I B p
      → IsSound O I B (assign O I now src slot p)
  unfolding assign
  assign-IsSound now src slot p hs free v =
      update-IsSound O I B p slot _ _ hs refl
        (λ k j h. keys k j (add_quietly-keys p.outbound_map src slot k j h)) v
    where
      keys :
          (k j : ℕ)
          → ((slot ≡ j) × (src ≡ k)) ⊎ (O.lookup p.outbound_map k ≡ some j)
          → ((slot ≡ j) × (true ≡ true) × (src ≡ k))
            ⊎ ((slot ≢ j) × (O.lookup p.outbound_map k ≡ some j))
      keys k j (inl (e, own)) = inl (e, refl, own)
      keys k j (inr old) = inr ((λ e. cc (v.backed k j old).1), old)

  -- `find_free_slot` finds the first slot that is free, and fails only if there is none.
  pub free_from-first :
      (p : Pool O I) (left i : ℕ) (s : ℕ)
      → free_from O I p left i ≡ some s
      → (i ≤ s) × (s < i + left) × ((entry O I p s).in_use ≡ false)
  unfolding free_from
  free_from-first p zero i s h = cc
  free_from-first p (suc left) i s h = ground (arith, free_from-first p left (suc i) s)

  pub free_from-none :
      (p : Pool O I) (left i : ℕ)
      → free_from O I p left i ≡ none
      → (j : ℕ) → i ≤ j
      → j < i + left
      → (entry O I p j).in_use ≡ true
  unfolding free_from
  free_from-none p zero i h j lo hi = absurd (omega arith)
  free_from-none p (suc left) i h j lo hi = elim (Bool-cases (entry O I p i).in_use) [
    | inr e ↦ absurd (refuse (rw e at h))
    | inl e ↦ elim (ℕ_discrete i j) [
      | yes q ↦ rw (← q) e
      | no n ↦ free_from-none p left (suc i) (rw e at h) j (omega arith) (omega arith)
    ]
  ]
    where
      refuse : some i ≡ none → ⊥
      refuse e = cc
