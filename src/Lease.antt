-- ===== src/Lease.antt =====
-- nat_project/version4, an earlier NAT with a pool of addresses: it has no timers, and the search for a
-- free slot releases the idle ones.
pub mod Pass
pub mod Refine
pub mod Start
use dpdk_for_beginners.Base.{
  ℕ, zero, suc, ◌+◌, ◌*◌, ◌%◌, ◌^◌, Bool, true, Option, none, some, List, [], ◌∷◌, leb, ◌==◌,
  if◌then◌else◌, get_or, set, rounds,
}
use dpdk_for_beginners.Dpdk.{HashTable, ByteOrder, add_quietly}
use dpdk_for_beginners.Packet.{Packet, Checksums, ether_type_ipv4}
use dpdk_for_beginners.NatPool.State.{Entry, blank, clear}
use dpdk_for_beginners.NatPool.Timers.{elapsed}
use dpdk_for_beginners.NatPool.Apply.{rewrite_and_recalc}

module _ (O : HashTable ℕ ℕ) where
  -- `struct nat_pool`
  pub record Lease : Type 0 where
    pub entries : List Entry
    pub pool_start_ip : ℕ
    pub pool_size : ℕ
    pub idle_tsc : ℕ
    pub addresses : O.Table

  abbrev pub slot : Lease → ℕ → Entry
  slot p i = get_or p.entries i blank

  -- the first slot that the loop has met
  abbrev pub or_first : Option ℕ → ℕ → Option ℕ
  or_first none i = some i
  or_first (some j) i = some j

  -- the assignments that release slot `i`
  abbrev pub release : ℕ → Lease → Lease
  release i p = record p {
    entries = set p.entries i (clear (slot p i));
    addresses = O.del p.addresses (slot p i).private_ip;
  }

  -- the body of the loop of `find_free_slot`, on the pool and `free_slot`
  unfoldable pub visit : ℕ → ℕ → Lease × Option ℕ → Lease × Option ℕ
  unfolding clear
  visit now i (p, free_slot) =
      if (slot p i).in_use
      then if leb p.idle_tsc (elapsed now (slot p i).last_seen_tsc)
        then (release i p, or_first free_slot i)
        else (p, free_slot)
      else (p, or_first free_slot i)

  -- `find_free_slot` with the clock at `now`; `none` is -1
  unfoldable pub find_slot : ℕ → Lease → Lease × Option ℕ
  unfolding visit
  find_slot now p = rounds (visit now) p.pool_size 0 (p, none)

  abbrev pub renew : ℕ → ℕ → Lease → Lease
  renew now i p = record p { entries = set p.entries i (record e { last_seen_tsc = now }) }
    where
      e : Entry
      e = slot p i

  -- the assignments that take a free slot for `src`; the result of the insertion is not looked at
  unfoldable pub lend : ℕ → ℕ → ℕ → Lease → Lease
  lend now src i p = record p {
    entries = set p.entries i (record e { private_ip = src; in_use = true; last_seen_tsc = now });
    addresses = add_quietly O p.addresses src i;
  }
    where
      e : Entry
      e = slot p i

  module _ (B : ByteOrder) (C : Checksums) where
    -- What follows the search for a slot.
    unfoldable pub lend_found : ℕ → Lease → Option ℕ → Packet → Lease × Option Packet
    unfolding lend
    lend_found now p none m = (p, none)
    lend_found now p (some i) m =
        let q = lend now m.src_addr i p in
        (q, some (rewrite_and_recalc C m (slot q i).public_ip true))

    -- an IPv4 packet, with what the table holds for its source; the clock is read at `scan` by the
    -- search for a slot and at `now` for the packet
    unfoldable pub translate_source : ℕ → ℕ → Option ℕ → Lease → Packet → Lease × Option Packet
    unfolding lend_found find_slot
    translate_source scan now (some i) p m =
        let q = renew now i p in (q, some (rewrite_and_recalc C m (slot q i).public_ip true))
    translate_source scan now none p m =
        let (q, free_slot) = find_slot scan p in lend_found now q free_slot m

    -- the body of the loop of `nat_pool_apply`
    unfoldable pub lease_one : ℕ → ℕ → Lease → Packet → Lease × Option Packet
    unfolding translate_source
    lease_one scan now p m =
        if m.ether_type == B.be16 ether_type_ipv4
        then translate_source scan now (O.lookup p.addresses m.src_addr) p m
        else (p, some m)

    -- `nat_pool_apply` on a burst, each packet with the two readings of the clock
    unfoldable pub lease_all : Lease → List (ℕ × ℕ × Packet) → Lease × List (Option Packet)
    unfolding lease_one
    lease_all p [] = (p, [])
    lease_all p ((scan, now, m) ∷ ms) =
        let (q, out) = lease_one scan now p m in let (r, outs) = lease_all q ms in (r, out ∷ outs)

  module _ (B : ByteOrder) where
    -- the loop that fills in the addresses
    unfoldable pub lease_fill : ℕ → ℕ → ℕ → List Entry
    lease_fill start zero i = []
    lease_fill start (suc left) i =
        record blank { public_ip = B.be32 ((start + i) % 2 ^ 32) } ∷ lease_fill start left (suc i)

    -- `nat_pool_create`: whether there was memory for the pool and for its slots, and the table. `none`
    -- is the exit of the program.
    unfoldable pub lease_create : Bool → Bool → Option O.Table → ℕ → ℕ → ℕ → Option Lease
    unfolding lease_fill
    lease_create true true (some o) s_addr range hz = some (record {
      entries = lease_fill (B.be32 s_addr) range 0;
      pool_start_ip = B.be32 s_addr;
      pool_size = range;
      idle_tsc = (hz * 5) % 2 ^ 64;
      addresses = o;
    })
    lease_create _ _ _ s_addr range hz = none
