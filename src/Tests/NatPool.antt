-- ===== src/Tests/NatPool.antt =====
-- Runs of nat_project/version5: a pool of two addresses, on a machine whose clock has 10 ticks a second.
use dpdk_for_beginners.Base.{
  ℕ, ◌≡◌, ◌≢◌, ◌<◌, ◌⊎◌, ◌↔◌, refl, sym, subst, some-inj, true, false, none, some, [], ◌∷◌, arith,
  ℕ_discrete, rounds,
}
use dpdk_for_beginners.Dpdk.{HashTable}
use dpdk_for_beginners.Dpdk.Sample.{assoc, bounded, find, little_endian, plain_sums}
use dpdk_for_beginners.Packet.{Packet}
use dpdk_for_beginners.NatPool.State.{
  InboundEntry, Pool, Resources, entry, fill, create_with, nat_pool_create,
}
use dpdk_for_beginners.NatPool.Timers.{expire_slot, expiry_timer_cb, nat_table_timer_arm}
use dpdk_for_beginners.NatPool.Apply.{
  recalc_ip, recalc_l4, rewrite_and_recalc, free_from, find_free_slot, assign, outbound_new,
  outbound, ipv4, apply_one, nat_pool_apply,
}
use dpdk_for_beginners.NatPool.Main.{
  Round, expiry, table, transmit, run_callback, run_callbacks, traffic, round, main_loop,
}
use dpdk_for_beginners.NatPool.Sound.{IsSound}
use dpdk_for_beginners.NatPool.Sound.Loop.{run-IsSound}
use dpdk_for_beginners.NatPool.Translate.{addresses_distinct, rewrite_and_recalc_lem}
use dpdk_for_beginners.NatPool.Outcome.{IsOutbound, apply_one-drops}
use dpdk_for_beginners.NatPool.Sticky.{nat_pool_apply-sticky}
use dpdk_for_beginners.Tests.Data.{udp_from}

abbrev outbound_table : HashTable ℕ ℕ
outbound_table = assoc ℕ_discrete

abbrev inbound_table : HashTable ℕ InboundEntry
inbound_table = assoc ℕ_discrete

abbrev State : Type 0
State = Pool outbound_table inbound_table

-- 203.0.113.10, in the byte order of the network
abbrev start_ip : ℕ
start_ip = 0x0a7100cb

abbrev resources : Resources outbound_table inbound_table
resources = record {
  pool_memory = true;
  entries_memory = true;
  outbound_table = some [];
  inbound_table = some [];
}

-- two clients in one burst
abbrev two_clients : Round
two_clients = record {
  due = expiry 1 ∷ [];
  now = 2;
  bufs = (3, udp_from 100) ∷ (3, udp_from 200) ∷ [];
}

-- a round without packets in which both timers fire
abbrev quiet : Round
quiet = record { due = expiry 100 ∷ table ∷ []; now = 101; bufs = [] }

-- the pool after its creation
abbrev new : State
new = record {
  entries =
      record { private_ip = 0; public_ip = 0x0a7100cb; last_seen_tsc = 0; in_use = false }
      ∷ record { private_ip = 0; public_ip = 0x0b7100cb; last_seen_tsc = 0; in_use = false }
      ∷ [];
  pool_start_ip = 0xcb00710a;
  pool_size = 2;
  idle_tsc = 50;
  outbound_map = [];
  inbound_map = [];
  table_timer = none;
  started = false;
}

-- the pool after the round of the two clients
abbrev busy : State
busy = record new {
  entries =
      record { private_ip = 100; public_ip = 0x0a7100cb; last_seen_tsc = 3; in_use = true }
      ∷ record { private_ip = 200; public_ip = 0x0b7100cb; last_seen_tsc = 3; in_use = true }
      ∷ [];
  outbound_map = (200, 1) ∷ (100, 0) ∷ [];
  table_timer = some 102;
  started = true;
}

created :
    nat_pool_create outbound_table inbound_table little_endian resources start_ip 2 10 ≡ some new
unfolding nat_pool_create create_with fill
created = refl

new-busy :
    main_loop outbound_table inbound_table little_endian plain_sums 10 (two_clients ∷ []) new ≡ busy
unfolding main_loop round traffic transmit run_callbacks run_callback expiry_timer_cb expire_slot
    rounds ℕ_discrete nat_table_timer_arm nat_pool_apply apply_one ipv4 outbound outbound_new assign
    find_free_slot free_from rewrite_and_recalc recalc_ip recalc_l4
new-busy = refl

run-IsSound_example : IsSound outbound_table inbound_table little_endian (
    main_loop outbound_table inbound_table little_endian plain_sums 10
      (two_clients ∷ quiet ∷ two_clients ∷ [])
      new)
run-IsSound_example =
    run-IsSound outbound_table inbound_table little_endian plain_sums resources start_ip 2 10
      (two_clients ∷ quiet ∷ two_clients ∷ []) new
      (λ u k e. subst (λ w. find ℕ_discrete w k ≡ none) (some-inj e) refl) created

busy-IsSound : IsSound outbound_table inbound_table little_endian busy
busy-IsSound =
    subst (λ (p : State). IsSound outbound_table inbound_table little_endian p) new-busy
      (run-IsSound outbound_table inbound_table little_endian plain_sums resources start_ip 2 10
        (two_clients ∷ []) new (λ u k e. subst (λ w. find ℕ_discrete w k ≡ none) (some-inj e) refl)
        created)

new-IsSound : IsSound outbound_table inbound_table little_endian new
unfolding main_loop
new-IsSound =
    run-IsSound outbound_table inbound_table little_endian plain_sums resources start_ip 2 10 [] new
      (λ u k e. subst (λ w. find ℕ_discrete w k ≡ none) (some-inj e) refl) created

addresses_distinct_example : ◌≡◌ {A = ℕ} 200 200
unfolding ℕ_discrete
addresses_distinct_example =
    addresses_distinct outbound_table inbound_table little_endian busy 200 200 1 1 busy-IsSound
      (omega arith) refl refl refl

rewrite_and_recalc_lem_example :
    let r = rewrite_and_recalc plain_sums (udp_from 100) 55 true in
    (r.src_addr ≡ 55)
    × (r.dst_addr ≡ 77)
    × (r.src_port ≡ 3)
    × (r.dst_port ≡ 4)
    × (r.next_proto_id ≡ 17)
    × (r.rest ≡ 5 ∷ [])
    × (plain_sums.ip_ok r ≡ true)
    × (((◌≢◌ {A = ℕ} 17 6) × (◌≢◌ {A = ℕ} 17 17)) ⊎ (plain_sums.l4_ok r ≡ true))
rewrite_and_recalc_lem_example = rewrite_and_recalc_lem plain_sums (udp_from 100) 55 true

apply_one-drops_example :
    ((apply_one outbound_table inbound_table little_endian plain_sums 4 busy (udp_from 300)).1
      ≡ none)
    ↔ (IsOutbound outbound_table inbound_table little_endian plain_sums busy (udp_from 300)
        × (find ℕ_discrete busy.outbound_map 300 ≡ none)
        × ((i : ℕ) → i < 2 → (entry outbound_table inbound_table busy i).in_use ≡ true))
apply_one-drops_example =
    apply_one-drops outbound_table inbound_table little_endian plain_sums 4 busy (udp_from 300)

IsOutbound-from :
    (p : State) (src : ℕ)
    → p.inbound_map ≡ []
    → IsOutbound outbound_table inbound_table little_endian plain_sums p (udp_from src)
IsOutbound-from p src e = record {
  is_ipv4 = refl;
  unmapped = subst (λ w. find ℕ_discrete w 77 ≡ none) (sym e) refl;
}

abbrev left : Packet
left = record (udp_from 100) { src_addr = 0x0a7100cb; hdr_checksum = 65239; udp_cksum = 65232 }

-- Another client comes between the two packets.
nat_pool_apply-sticky_example :
    (apply_one outbound_table inbound_table little_endian plain_sums 90
      (nat_pool_apply outbound_table inbound_table little_endian plain_sums
        (apply_one outbound_table inbound_table little_endian plain_sums 4 new (udp_from 100)).0
        ((50, udp_from 200) ∷ [])).0
      (udp_from 100)).1
    ≡ some (rewrite_and_recalc plain_sums (udp_from 100) left.src_addr true)
unfolding apply_one ipv4 outbound outbound_new assign find_free_slot free_from rewrite_and_recalc
    recalc_ip recalc_l4 ℕ_discrete
nat_pool_apply-sticky_example =
    nat_pool_apply-sticky outbound_table inbound_table little_endian plain_sums 4 90 new
      (udp_from 100) (udp_from 100) left 0 ((50, udp_from 200) ∷ []) new-IsSound
      (IsOutbound-from new 100 refl) (IsOutbound-from new 100 refl) refl refl refl

-- an outbound table without room
abbrev no_room : HashTable ℕ ℕ
no_room = bounded ℕ_discrete 0

abbrev cramped : Pool no_room inbound_table
cramped = record {
  entries =
      record { private_ip = 0; public_ip = 0x0a7100cb; last_seen_tsc = 0; in_use = false } ∷ [];
  pool_start_ip = 0xcb00710a;
  pool_size = 1;
  idle_tsc = 50;
  outbound_map = [];
  inbound_map = [];
  table_timer = none;
  started = false;
}

cramped-IsSound : IsSound no_room inbound_table little_endian cramped
unfolding main_loop nat_pool_create create_with fill
cramped-IsSound =
    run-IsSound no_room inbound_table little_endian plain_sums
      (record {
        pool_memory = true;
        entries_memory = true;
        outbound_table = some [];
        inbound_table = some [];
      })
      start_ip 1 10 [] cramped (λ u k e. subst (λ w. find ℕ_discrete w k ≡ none) (some-inj e) refl)
      refl
