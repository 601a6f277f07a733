-- ===== src/Lease/Pass.antt =====
-- The search of nat_project/version4/static_nat.c in one pass does what nat_project/version5 does in
-- two: its expiry callback, and the plain search for a slot after it.
use dpdk_for_beginners.Base.{
  ℕ, zero, suc, ◌+◌, ◌≤◌, ◌<◌, ◌≡◌, ◌≢◌, refl, sym, ◌∙◌, ap, inl, inr, Bool, true, false, Option,
  none, some, arith, length, length-set, get_or-set_self, get_or-set_ne, leb, Bool-cases, rounds,
  if◌then◌else◌,
}
use dpdk_for_beginners.Dpdk.{HashTable}
use dpdk_for_beginners.NatPool.State.{Entry, InboundEntry, Pool, blank, clear}
use dpdk_for_beginners.NatPool.Timers.{elapsed, expire_slot, expiry_timer_cb}
use dpdk_for_beginners.NatPool.Apply.{free_from, find_free_slot}
use dpdk_for_beginners.Lease.{Lease, slot, or_first, visit, find_slot}

module _ (O : HashTable ℕ ℕ) (I : HashTable ℕ InboundEntry) (t : I.Table) where
  -- The pool as one of version5, with `t` for the table that version4 does not have.
  abbrev pub as_pool : Lease O → Pool O I
  as_pool p = record {
    entries = p.entries;
    pool_start_ip = p.pool_start_ip;
    pool_size = p.pool_size;
    idle_tsc = p.idle_tsc;
    outbound_map = p.addresses;
    inbound_map = t;
    table_timer = none;
    started = false;
  }

  visit-as_pool :
      (now i : ℕ) (p : Lease O) (f : Option ℕ)
      → as_pool (visit O now i (p, f)).0 ≡ expire_slot O I now i (as_pool p)
  unfolding visit expire_slot
  visit-as_pool now i p f = elim (Bool-cases (slot O p i).in_use) [
    | inr n ↦ rw n
    | inl y ↦ elim (Bool-cases (leb p.idle_tsc (elapsed now (slot O p i).last_seen_tsc))) [
      | inl a ↦ rw (y, a)
      | inr b ↦ rw (y, b)
    ]
  ]

  rounds-as_pool :
      (now left i : ℕ) (p : Lease O) (f : Option ℕ)
      → as_pool (rounds (visit O now) left i (p, f)).0
        ≡ rounds (expire_slot O I now) left i (as_pool p)
  unfolding rounds
  rounds-as_pool now zero i p f = refl
  rounds-as_pool now (suc left) i p f =
      rounds-as_pool now left (suc i) (visit O now i (p, f)).0 (visit O now i (p, f)).1
      ∙ ap (rounds (expire_slot O I now) left (suc i)) (visit-as_pool now i p f)

  visit-slot :
      (now i j : ℕ) (p : Lease O) (f : Option ℕ)
      → i ≢ j
      → slot O (visit O now i (p, f)).0 j ≡ slot O p j
  unfolding visit
  visit-slot now i j p f h =
      ground (arith, get_or-set_ne p.entries i j (clear (slot O p i)) blank h)

  -- Slot `j` stays as it is where the loop goes on from a later index.
  rounds-slot :
      (now left i j : ℕ) (p : Lease O) (f : Option ℕ)
      → j < i
      → slot O (rounds (visit O now) left i (p, f)).0 j ≡ slot O p j
  unfolding rounds
  rounds-slot now zero i j p f h = refl
  rounds-slot now (suc left) i j p f h =
      rounds-slot now left (suc i) j (visit O now i (p, f)).0 (visit O now i (p, f)).1 (omega arith)
      ∙ visit-slot now i j p f (omega arith)

  abbrev or_rest : Option ℕ → Option ℕ → Option ℕ
  or_rest none r = r
  or_rest (some s) r = some s

  or_rest_assoc :
      (f r : Option ℕ) (used : Bool) (i : ℕ)
      → or_rest (or_rest f (if used then none else some i)) r
        ≡ or_rest f (if used then r else some i)
  or_rest_assoc none r true i = refl
  or_rest_assoc none r false i = refl
  or_rest_assoc (some s) r used i = refl

  or_first-or_rest : (f : Option ℕ) (i : ℕ) → or_first O f i ≡ or_rest f (some i)
  or_first-or_rest none i = refl
  or_first-or_rest (some s) i = refl

  or_rest_right : (f : Option ℕ) → f ≡ or_rest f none
  or_rest_right none = refl
  or_rest_right (some s) = refl

  -- A round takes the index if the slot is free after it.
  visit-found :
      (now i : ℕ) (p : Lease O) (f : Option ℕ)
      → i < length p.entries
      → let r = visit O now i (p, f) in
        r.1 ≡ or_rest f (if (slot O r.0 i).in_use then none else some i)
  unfolding visit
  visit-found now i p f h = elim (Bool-cases (slot O p i).in_use) [
    | inr n ↦ rw (n, n) (or_first-or_rest f i)
    | inl y ↦ elim (Bool-cases (leb p.idle_tsc (elapsed now (slot O p i).last_seen_tsc))) [
      | inl a ↦
          rw (y, a, get_or-set_self p.entries i (clear (slot O p i)) blank h) (or_first-or_rest f i)
      | inr b ↦ rw (y, b, y) (or_rest_right f)
    ]
  ]

  size-visit :
      (now i : ℕ) (p : Lease O) (f : Option ℕ)
      → length (visit O now i (p, f)).0.entries ≡ length p.entries
  unfolding visit
  size-visit now i p f = ground (arith, length-set p.entries i (clear (slot O p i)))

  pool_size-visit :
      (now i : ℕ) (p : Lease O) (f : Option ℕ) → (visit O now i (p, f)).0.pool_size ≡ p.pool_size
  unfolding visit
  pool_size-visit now i p f = ground arith

  pool_size-rounds :
      (now left i : ℕ) (p : Lease O) (f : Option ℕ)
      → (rounds (visit O now) left i (p, f)).0.pool_size ≡ p.pool_size
  unfolding rounds
  pool_size-rounds now zero i p f = refl
  pool_size-rounds now (suc left) i p f =
      pool_size-rounds now left (suc i) (visit O now i (p, f)).0 (visit O now i (p, f)).1
      ∙ pool_size-visit now i p f

  -- The loop finds the first free slot of the pool that it leaves.
  rounds-found :
      (now left i : ℕ) (p : Lease O) (f : Option ℕ)
      → i + left ≤ length p.entries
      → let r = rounds (visit O now) left i (p, f) in
        r.1 ≡ or_rest f (free_from O I (as_pool r.0) left i)
  unfolding rounds free_from
  rounds-found now zero i p f h = or_rest_right f
  rounds-found now (suc left) i p f h =
      let p' = (visit O now i (p, f)).0 in
      let f' = (visit O now i (p, f)).1 in
      let r = rounds (visit O now) left (suc i) (p', f') in
      let rest = free_from O I (as_pool r.0) left (suc i) in
      rounds-found now left (suc i) p' f' (omega (arith, size-visit now i p f))
      ∙ ap (λ g. or_rest g rest) (visit-found now i p f (omega arith))
      ∙ or_rest_assoc f rest (slot O p' i).in_use i
      ∙ ap (λ (e : Entry). or_rest f (if e.in_use then rest else some i))
          (sym (rounds-slot now left (suc i) i p' f' (omega arith)))

  -- If the array has its size, the one pass over the slots leaves the pool as the expiry callback
  -- of version5 would, and finds the slot that the plain search of version5 finds after it.
  pub find_slot_lem :
      (now : ℕ) (p : Lease O)
      → p.pool_size ≤ length p.entries
      → let r = find_slot O now p in
        (as_pool r.0 ≡ expiry_timer_cb O I now (as_pool p))
        × (r.1 ≡ find_free_slot O I (as_pool r.0))
  unfolding find_slot expiry_timer_cb find_free_slot
  find_slot_lem now p h =
      let q = (rounds (visit O now) p.pool_size 0 (p, none)).0 in
      (
        rounds-as_pool now p.pool_size 0 p none,
        rounds-found now p.pool_size 0 p none (omega arith)
            ∙ ap (λ n. free_from O I (as_pool q) n 0)
                (sym (pool_size-rounds now p.pool_size 0 p none)),
      )
