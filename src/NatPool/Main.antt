-- ===== src/NatPool/Main.antt =====
-- One round of the loop in nat_project/version5/main.c.
use dpdk_for_beginners.Base.{ℕ, true, Option, none, some, List, [], ◌∷◌}
use dpdk_for_beginners.Dpdk.{HashTable, ByteOrder}
use dpdk_for_beginners.Packet.{Packet, Checksums}
use dpdk_for_beginners.NatPool.State.{InboundEntry, Pool, table_timeout_sec}
use dpdk_for_beginners.NatPool.Timers.{expiry_timer_cb, table_timer_cb, nat_table_timer_arm}
use dpdk_for_beginners.NatPool.Apply.{nat_pool_apply}

-- A callback that `rte_timer_manage` runs, with the clock as the callback reads it. The single timer
-- is no longer armed when its callback runs.
pub data Callback : Type 0 where
  expiry : ℕ → Callback
  table : Callback

-- What the system hands to one round: the callbacks that are due, in their order, the clock when the
-- table timer is armed, and the burst.
pub record Round : Type 0 where
  pub due : List Callback
  pub now : ℕ
  pub bufs : List (ℕ × Packet)

-- the loop that transmits; it skips what is NULL
unfoldable pub transmit : List (Option Packet) → List Packet
transmit [] = []
transmit (none ∷ ms) = transmit ms
transmit (some m ∷ ms) = m ∷ transmit ms

module _ (O : HashTable ℕ ℕ) (I : HashTable ℕ InboundEntry) where
  unfoldable pub run_callback : Callback → Pool O I → Pool O I
  run_callback (expiry now) p = expiry_timer_cb O I now p
  run_callback table p = table_timer_cb O I (record p { table_timer = none })

  unfoldable pub run_callbacks : List Callback → Pool O I → Pool O I
  unfolding run_callback
  run_callbacks [] p = p
  run_callbacks (c ∷ cs) p = run_callbacks cs (run_callback c p)

  module _ (B : ByteOrder) (C : Checksums) (hz : ℕ) where
    -- a burst that is not empty
    unfoldable pub traffic : ℕ → Pool O I → List (ℕ × Packet) → Pool O I × List Packet
    unfolding transmit
    traffic now p bufs =
        let q : Pool O I = record p { started = true } in
        let r = nat_table_timer_arm O I now hz table_timeout_sec q in
        let (s, outs) = nat_pool_apply O I B C r bufs in (s, transmit outs)

    -- one round: the pool after it, and what was handed to the port
    unfoldable pub round : Round → Pool O I → Pool O I × List Packet
    unfolding traffic run_callbacks
    round r p = elim r.bufs [
      | [] ↦ (run_callbacks r.due p, [])
      | b ∷ bs ↦ traffic r.now (run_callbacks r.due p) (b ∷ bs)
    ]

    -- the pool after some rounds
    unfoldable pub main_loop : List Round → Pool O I → Pool O I
    unfolding round
    main_loop [] p = p
    main_loop (r ∷ rs) p = main_loop rs (round r p).0
