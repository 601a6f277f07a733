-- ===== src/Tests/Lease.antt =====
-- Runs of nat_project/version4: a pool of two addresses, one of which an idle client holds.
use dpdk_for_beginners.Base.{ℕ, ◌≡◌, refl, true, false, [], ◌∷◌, arith, ℕ_discrete}
use dpdk_for_beginners.Dpdk.{HashTable}
use dpdk_for_beginners.Dpdk.Sample.{assoc, little_endian, plain_sums}
use dpdk_for_beginners.NatPool.State.{InboundEntry}
use dpdk_for_beginners.NatPool.Sound.{IsSound}
use dpdk_for_beginners.NatPool.Timers.{expiry_timer_cb}
use dpdk_for_beginners.NatPool.Apply.{find_free_slot, apply_one}
use dpdk_for_beginners.Lease.{Lease, find_slot, lease_one, lease_all, lease_create, lease_fill}
use dpdk_for_beginners.Lease.Pass.{as_pool, find_slot_lem}
use dpdk_for_beginners.Lease.Refine.{aired, lease_one_refines, lease_run-IsSound}
use dpdk_for_beginners.Tests.Data.{udp_from}

abbrev table : HashTable ℕ ℕ
table = assoc ℕ_discrete

abbrev statics : HashTable ℕ InboundEntry
statics = assoc ℕ_discrete

abbrev new : Lease table
new = record {
  entries =
      record { private_ip = 0; public_ip = 0x0a7100cb; last_seen_tsc = 0; in_use = false }
      ∷ record { private_ip = 0; public_ip = 0x0b7100cb; last_seen_tsc = 0; in_use = false }
      ∷ [];
  pool_start_ip = 0xcb00710a;
  pool_size = 2;
  idle_tsc = 50;
  addresses = [];
}

-- the pool with an idle client in its first slot and an active one in its second
abbrev held : Lease table
held = record new {
  entries =
      record { private_ip = 100; public_ip = 0x0a7100cb; last_seen_tsc = 3; in_use = true }
      ∷ record { private_ip = 200; public_ip = 0x0b7100cb; last_seen_tsc = 90; in_use = true }
      ∷ [];
  addresses = (200, 1) ∷ (100, 0) ∷ [];
}

find_slot_lem_example :
    (as_pool table statics [] (find_slot table 100 held).0
      ≡ expiry_timer_cb table statics 100 (as_pool table statics [] held))
    × ((find_slot table 100 held).1
        ≡ find_free_slot table statics (as_pool table statics [] (find_slot table 100 held).0))
find_slot_lem_example = find_slot_lem table statics [] 100 held (omega arith)

new-IsSound : IsSound table statics little_endian (as_pool table statics [] new)
unfolding lease_create lease_fill lease_all
new-IsSound =
    lease_run-IsSound table statics little_endian plain_sums [] [] 0x0a7100cb 2 10 new []
      (λ k. refl) (λ k. refl) refl

lease_one_refines_example :
    let r = lease_one table little_endian plain_sums 4 5 new (udp_from 100) in
    (as_pool table statics [] r.0, r.1)
    ≡ apply_one table statics little_endian plain_sums 5
        (aired table statics little_endian plain_sums [] 4 new (udp_from 100))
        (udp_from 100)
lease_one_refines_example =
    lease_one_refines table statics little_endian plain_sums [] 4 5 new (udp_from 100) new-IsSound
      refl
