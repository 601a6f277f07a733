-- ===== src/NatPool/Sound.antt =====
-- The invariant of a pool: its slots carry the addresses of the range, and the outbound table leads
-- only to slots that the key owns.
pub mod Steps
pub mod Loop
use dpdk_for_beginners.Base.{
  ℕ, suc, ◌+◌, ◌^◌, ◌<◌, ◌≡◌, ◌≢◌, refl, sym, ◌∙◌, ap, ◌⊎◌, inl, inr, true, some, arith, length,
  length-set, get_or-set_self, get_or-set_ne, ℕ_discrete,
}
use dpdk_for_beginners.Dpdk.{HashTable, ByteOrder}
use dpdk_for_beginners.NatPool.State.{Entry, InboundEntry, Pool, entry, write, blank, slot_address}

module _ (O : HashTable ℕ ℕ) (I : HashTable ℕ InboundEntry) where
  pub entry-write_self :
      (p : Pool O I) (i : ℕ) (e : Entry) → i < length p.entries → entry O I (write O I p i e) i ≡ e
  entry-write_self p i e h = get_or-set_self p.entries i e blank h

  pub entry-write_ne :
      (p : Pool O I) (i j : ℕ) (e : Entry) → i ≢ j → entry O I (write O I p i e) j ≡ entry O I p j
  entry-write_ne p i j e h = get_or-set_ne p.entries i j e blank h

  module _ (B : ByteOrder) where
    -- The array has its size, and slot `i` the `i`-th address.
    pub record IsLaidOut (p : Pool O I) : Type 0 where
      pub sized : length p.entries ≡ p.pool_size
      pub addressed :
          (i : ℕ)
          → i < p.pool_size
          → (entry O I p i).public_ip ≡ slot_address O I B p.pool_start_ip i

    -- What the outbound table holds under `k` is a slot of the array that is in use by `k`.
    pub record IsSound (p : Pool O I) : Type 0 where
      pub laid_out : IsLaidOut p
      pub backed :
          (k i : ℕ)
          → O.lookup p.outbound_map k ≡ some i
          → (i < p.pool_size) × ((entry O I p i).in_use ≡ true) × ((entry O I p i).private_ip ≡ k)

    pub write-IsLaidOut :
        (p : Pool O I) (i : ℕ) (e : Entry)
        → e.public_ip ≡ (entry O I p i).public_ip
        → IsLaidOut p
        → IsLaidOut (write O I p i e)
    write-IsLaidOut p i e same v = record {
      sized = length-set p.entries i e ∙ v.sized;
      addressed = λ j h. elim (ℕ_discrete i j) [
        | yes q ↦ rw (← q) (
            ap (λ (x : Entry). x.public_ip) (entry-write_self p i e (omega arith))
            ∙ same
            ∙ v.addressed i (omega arith))
        | no n ↦ ap (λ (x : Entry). x.public_ip) (entry-write_ne p i j e n) ∙ v.addressed j h
      ];
    }

    -- A slot and the table change together. Each key of the new table leads to the new slot, which it
    -- owns, or to another slot, as before.
    pub update-IsSound :
        (p : Pool O I) (i : ℕ) (e : Entry) (t : O.Table)
        → i < p.pool_size
        → e.public_ip ≡ (entry O I p i).public_ip
        → ((k j : ℕ)
            → O.lookup t k ≡ some j
            → ((i ≡ j) × (e.in_use ≡ true) × (e.private_ip ≡ k))
              ⊎ ((i ≢ j) × (O.lookup p.outbound_map k ≡ some j)))
        → IsSound p
        → IsSound (record (write O I p i e) { outbound_map = t })
    update-IsSound p i e t hi same keys v = record {
      laid_out = record { sized = w.sized; addressed = w.addressed };
      backed = λ k j h. owner k j h (keys k j h);
    }
      where
        w : IsLaidOut (write O I p i e)
        w = write-IsLaidOut p i e same v.laid_out

        owner :
            (k j : ℕ)
            → O.lookup t k ≡ some j
            → ((i ≡ j) × (e.in_use ≡ true) × (e.private_ip ≡ k))
              ⊎ ((i ≢ j) × (O.lookup p.outbound_map k ≡ some j))
            → (j < p.pool_size)
              × ((entry O I (write O I p i e) j).in_use ≡ true)
              × ((entry O I (write O I p i e) j).private_ip ≡ k)
        owner k j h (inl (q, used, own)) =
            let s = entry-write_self p i e (omega arith) in rw (← q) (hi, rw s used, rw s own)
        owner k j h (inr (n, old)) = rw (entry-write_ne p i j e n) (v.backed k j old)
