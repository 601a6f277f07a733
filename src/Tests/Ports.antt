-- ===== src/Tests/Ports.antt =====
-- Set-ups with a driver that refuses to start the port, and with one that refuses nothing.
use dpdk_for_beginners.Base.{◌≤◌, ◌≡◌, ◌⊎◌, refl, true, false, [], ◌∷◌, All}
use dpdk_for_beginners.Ports.{
  is_valid_port, dev_info_get, dev_start, promiscuous_enable, dev_configure, rx_queue_setup,
  tx_queue_setup, fresh, Driver, allowed, apply, perform, run, stopped,
}
use dpdk_for_beginners.Ports.Order.{IsSafe}
use dpdk_for_beginners.Ports.Checked.{set_ups, IsFinished, vxlan_port_init, set_ups-IsSafe}
use dpdk_for_beginners.Ports.Rss.{
  used_rx_queues, af_packet_rss_port, static_queues, polled, upto, af_packet_rss_lem,
}

abbrev never_starts : Driver
never_starts dev_start = true
never_starts is_valid_port = false
never_starts dev_info_get = false
never_starts promiscuous_enable = false
never_starts (dev_configure rx tx) = false
never_starts (rx_queue_setup q n) = false
never_starts (tx_queue_setup q n) = false

vxlan_stops : run never_starts vxlan_port_init fresh ≡ stopped dev_start
unfolding run perform allowed apply
vxlan_stops = refl

set_ups-IsSafe_example :
    All
      (λ ss.
        IsSafe never_starts (run never_starts ss fresh) × IsFinished (run (λ c. false) ss fresh))
      set_ups
set_ups-IsSafe_example = set_ups-IsSafe never_starts

-- three workers and a port with two queues
af_packet_rss_lem_example :
    let used = used_rx_queues 4 2 in
    IsSafe never_starts (run never_starts (af_packet_rss_port used) fresh)
    × (1 ≤ used)
    × ((used ≡ 1) ⊎ (used ≤ 2))
    × (polled 3 used ≡ upto used 0)
af_packet_rss_lem_example = af_packet_rss_lem never_starts 3 2

polled_by_one : polled 1 static_queues ≡ (0 ∷ 1 ∷ [])
unfolding polled
polled_by_one = refl
