-- ===== src/NatPool/Timers.antt =====
-- The callbacks of the two timers of nat_project/version5/static_nat.c.
use dpdk_for_beginners.Base.{ℕ, ◌+◌, ◌-◌, ◌*◌, ◌%◌, ◌^◌, some, leb, if◌then◌else◌, rounds}
use dpdk_for_beginners.Dpdk.{HashTable}
use dpdk_for_beginners.NatPool.State.{InboundEntry, Pool, entry, write, clear, clear_all}

-- `now - last_seen_tsc` on `uint64_t`
abbrev pub elapsed : ℕ → ℕ → ℕ
elapsed now seen = (now + 2 ^ 64 - seen) % 2 ^ 64

module _ (O : HashTable ℕ ℕ) (I : HashTable ℕ InboundEntry) where
  -- the body of the loop of `expiry_timer_cb`
  unfoldable pub expire_slot : ℕ → ℕ → Pool O I → Pool O I
  unfolding clear
  expire_slot now i p =
      let e = entry O I p i in
      if e.in_use
      then if leb p.idle_tsc (elapsed now e.last_seen_tsc)
        then record (write O I p i (clear e)) { outbound_map = O.del p.outbound_map e.private_ip }
        else p
      else p

  unfoldable pub expiry_timer_cb : ℕ → Pool O I → Pool O I
  unfolding expire_slot
  expiry_timer_cb now p = rounds (expire_slot now) p.pool_size 0 p

  unfoldable pub table_timer_cb : Pool O I → Pool O I
  unfolding clear_all
  table_timer_cb p = clear_all O I p

  -- `nat_table_timer_arm` at the tick `now`
  unfoldable pub nat_table_timer_arm : ℕ → ℕ → ℕ → Pool O I → Pool O I
  nat_table_timer_arm now hz timeout_sec p = record p {
    table_timer = some ((now + (hz * timeout_sec) % 2 ^ 64) % 2 ^ 64);
  }
