-- ===== src/Napt/Main.antt =====
-- One round of the loop in nat_project/version6/main.c.
use dpdk_for_beginners.Base.{ℕ, Option, none, some, List, [], ◌∷◌, ◌++◌, take, drop as list_drop}
use dpdk_for_beginners.Dpdk.{HashTable, ByteOrder}
use dpdk_for_beginners.Packet.{Packet, Checksums}
use dpdk_for_beginners.Napt.State.{NatKey, NatEntry, Nat, nat_entry_expire}
use dpdk_for_beginners.Napt.Process.{Verdict, forward, nat_process_packet}

-- a received packet, with the clock and the answer of `rte_malloc` while it is processed
pub record Arrival : Type 0 where
  pub now : ℕ
  pub malloc : Option ℕ
  pub mbuf : Packet

-- The burst after the loop: what is to be sent, and how many packets were freed.
pub record Burst : Type 0 where
  pub kept : List Packet
  pub freed : List Packet

unfoldable pub sort_out : Verdict → Packet → Burst → Burst
sort_out (forward out) m b = record b { kept = out ∷ b.kept }
sort_out _ m b = record b { freed = m ∷ b.freed }

module _ (H : HashTable NatKey ℕ) where
  -- the callback for the timer of the entry at `a`
  unfoldable pub fire : ℕ → Option NatEntry → Nat H → Nat H
  unfolding nat_entry_expire
  fire a none n = n
  fire a (some e) n = nat_entry_expire H a e n

  -- `nat_timer_manage`: the callbacks of the timers that are due, in their order
  unfoldable pub nat_timer_manage : List ℕ → Nat H → Nat H
  unfolding fire
  nat_timer_manage [] n = n
  nat_timer_manage (a ∷ fired) n = nat_timer_manage fired (fire a (n.heap a) n)

  module _ (B : ByteOrder) (C : Checksums) (hz : ℕ) where
    -- the loop over the burst
    unfoldable pub process_all : List Arrival → Nat H → Nat H × Burst
    unfolding nat_process_packet sort_out
    process_all [] n = (n, record { kept = []; freed = [] })
    process_all (r ∷ rs) n =
        let (n', v) = nat_process_packet H B C hz r.now r.malloc r.mbuf n in
        let (n'', b) = process_all rs n' in (n'', sort_out v r.mbuf b)

    -- One round, in which the port takes `sent` packets and the timers at `fired` are due: the state
    -- after it, what was sent, and what was freed.
    unfoldable pub round : ℕ → List ℕ → List Arrival → Nat H → Nat H × List Packet × List Packet
    unfolding process_all nat_timer_manage
    round sent fired rs n =
        let (n', b) = process_all rs n in
        (nat_timer_manage fired n', take sent b.kept, b.freed ++ list_drop sent b.kept)
