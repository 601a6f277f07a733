-- ===== src/Ports/Checked.antt =====
-- The set-ups of a port that look at the results of their calls.
use dpdk_for_beginners.Base.{◌&&◌, ◌≡◌, refl, Bool, true, false, List, [], ◌∷◌, All}
use dpdk_for_beginners.Ports.{
  is_valid_port, dev_info_get, dev_start, promiscuous_enable, dev_configure, rx_queue_setup,
  tx_queue_setup, Dev, fresh, Stmt, must, may, Driver, Outcome, finished, run, allowed, apply,
}
use dpdk_for_beginners.Ports.Order.{is_orderly, IsSafe, &&-split, run-IsSafe, run-finished}

-- nat_project/sample/port.c
abbrev pub nat_sample_init_port : List Stmt
nat_sample_init_port =
    must (dev_configure 1 1)
    ∷ must (rx_queue_setup 0 1024)
    ∷ must (tx_queue_setup 0 1024)
    ∷ must dev_start
    ∷ may dev_info_get
    ∷ []

-- nat_project/version2/port.c
abbrev pub nat_version2_init_port : List Stmt
nat_version2_init_port =
    must (dev_configure 1 1)
    ∷ must (rx_queue_setup 0 1024)
    ∷ must (tx_queue_setup 0 1024)
    ∷ must dev_start
    ∷ may dev_info_get
    ∷ []

-- nat_project/version3/port.c
abbrev pub nat_version3_init_port : List Stmt
nat_version3_init_port =
    must (dev_configure 1 1)
    ∷ must (rx_queue_setup 0 1024)
    ∷ must (tx_queue_setup 0 1024)
    ∷ must dev_start
    ∷ may dev_info_get
    ∷ []

-- nat_project/version4/port.c
abbrev pub nat_version4_init_port : List Stmt
nat_version4_init_port =
    must (dev_configure 1 1)
    ∷ must (rx_queue_setup 0 1024)
    ∷ must (tx_queue_setup 0 1024)
    ∷ must dev_start
    ∷ must dev_info_get
    ∷ []

-- nat_project/version5/port.c
abbrev pub nat_version5_init_port : List Stmt
nat_version5_init_port =
    must (dev_configure 1 1)
    ∷ must (rx_queue_setup 0 1024)
    ∷ must (tx_queue_setup 0 1024)
    ∷ must dev_start
    ∷ must dev_info_get
    ∷ []

-- nat_project/version6/port.c
abbrev pub nat_version6_init_port : List Stmt
nat_version6_init_port =
    must (dev_configure 1 1)
    ∷ must (rx_queue_setup 0 1024)
    ∷ must (tx_queue_setup 0 1024)
    ∷ must dev_start
    ∷ must dev_info_get
    ∷ []

-- vxlan/main.c
abbrev pub vxlan_port_init : List Stmt
vxlan_port_init =
    must (dev_configure 1 1)
    ∷ must (rx_queue_setup 0 128)
    ∷ must (tx_queue_setup 0 512)
    ∷ must dev_start
    ∷ may promiscuous_enable
    ∷ []

-- control_data_segregation/main.c
abbrev pub segregation_init_port : List Stmt
segregation_init_port =
    must (dev_configure 1 1)
    ∷ must (rx_queue_setup 0 1024)
    ∷ must (tx_queue_setup 0 1024)
    ∷ must dev_start
    ∷ []

-- longest_prefix_match_lpm/simple/main.c
abbrev pub router_init_port : List Stmt
router_init_port =
    must (dev_configure 1 1)
    ∷ must (rx_queue_setup 0 1024)
    ∷ must (tx_queue_setup 0 1024)
    ∷ must dev_start
    ∷ may promiscuous_enable
    ∷ []

-- Load_Balancer/load_balancer.c
abbrev pub load_balancer_port : List Stmt
load_balancer_port =
    must (dev_configure 1 1)
    ∷ must (rx_queue_setup 0 1024)
    ∷ must (tx_queue_setup 0 1024)
    ∷ must dev_start
    ∷ may promiscuous_enable
    ∷ []

-- ACL/l2fwd_acl/main.c
abbrev pub l2fwd_acl_port : List Stmt
l2fwd_acl_port =
    must (dev_configure 1 1)
    ∷ must (rx_queue_setup 0 1024)
    ∷ must (tx_queue_setup 0 1024)
    ∷ must dev_start
    ∷ may promiscuous_enable
    ∷ []

-- ACL/exp/main.c
abbrev pub acl_exp_port : List Stmt
acl_exp_port =
    may dev_info_get
    ∷ must (dev_configure 1 1)
    ∷ must (rx_queue_setup 0 1024)
    ∷ must (tx_queue_setup 0 1024)
    ∷ must dev_start
    ∷ may promiscuous_enable
    ∷ []

-- ACL/real_packet_acl/main2.c
abbrev pub real_packet_acl_port : List Stmt
real_packet_acl_port =
    must dev_info_get
    ∷ must (dev_configure 1 1)
    ∷ must (rx_queue_setup 0 1024)
    ∷ must (tx_queue_setup 0 1024)
    ∷ must dev_start
    ∷ may promiscuous_enable
    ∷ []

-- thread_parsing/threaded_project/main.c
abbrev pub threads_port : List Stmt
threads_port =
    may is_valid_port
    ∷ may dev_info_get
    ∷ must (dev_configure 1 1)
    ∷ must (rx_queue_setup 0 1024)
    ∷ must (tx_queue_setup 0 1024)
    ∷ must dev_start
    ∷ []

-- nic_stats/sample/main.c
abbrev pub nic_stats_port : List Stmt
nic_stats_port =
    may is_valid_port
    ∷ must dev_info_get
    ∷ must (dev_configure 1 1)
    ∷ must (rx_queue_setup 0 1024)
    ∷ must (tx_queue_setup 0 1024)
    ∷ must dev_start
    ∷ []

-- packet_change/main.c
abbrev pub packet_change_port : List Stmt
packet_change_port =
    must (dev_configure 1 1)
    ∷ must (rx_queue_setup 0 1024)
    ∷ must (tx_queue_setup 0 1024)
    ∷ must dev_start
    ∷ []

-- meter_dpdk/main.c
abbrev pub meter_port : List Stmt
meter_port =
    must (dev_configure 1 1)
    ∷ must (rx_queue_setup 0 1024)
    ∷ must (tx_queue_setup 0 1024)
    ∷ must dev_start
    ∷ []

-- tranmit_packet/packet_creation/simple_tx.c
abbrev pub simple_tx_init_port : List Stmt
simple_tx_init_port =
    must (dev_configure 1 1)
    ∷ must (rx_queue_setup 0 1024)
    ∷ must (tx_queue_setup 0 1024)
    ∷ must dev_start
    ∷ may dev_info_get
    ∷ []

-- tranmit_packet/swap_addr/main.c
abbrev pub swap_addr_rx_port : List Stmt
swap_addr_rx_port =
    must (dev_configure 1 1)
    ∷ must (rx_queue_setup 0 1024)
    ∷ must (tx_queue_setup 0 1024)
    ∷ must dev_start
    ∷ may promiscuous_enable
    ∷ []

-- tranmit_packet/swap_addr/main.c
abbrev pub swap_addr_tx_port : List Stmt
swap_addr_tx_port =
    must (dev_configure 1 1)
    ∷ must (rx_queue_setup 0 1024)
    ∷ must (tx_queue_setup 0 1024)
    ∷ must dev_start
    ∷ may promiscuous_enable
    ∷ []

-- reordering/dynamic_seqno/main.c
abbrev pub dynamic_seqno_port_init : List Stmt
dynamic_seqno_port_init =
    must is_valid_port
    ∷ must (dev_configure 1 0)
    ∷ must (rx_queue_setup 0 128)
    ∷ must dev_start
    ∷ []

-- reordering/rx_burst/main2.c
abbrev pub reorder_init_port : List Stmt
reorder_init_port = must (dev_configure 1 0) ∷ must (rx_queue_setup 0 1024) ∷ must dev_start ∷ []

-- ports/packet_parsing/port.c
abbrev pub packet_parsing_init_port : List Stmt
packet_parsing_init_port =
    must (dev_configure 1 1)
    ∷ must (rx_queue_setup 0 1024)
    ∷ must (tx_queue_setup 0 1024)
    ∷ must dev_start
    ∷ []

-- ports/port_mempool/port.c
abbrev pub port_mempool_init_port : List Stmt
port_mempool_init_port =
    must (dev_configure 1 1)
    ∷ must (rx_queue_setup 0 1024)
    ∷ must (tx_queue_setup 0 1024)
    ∷ must dev_start
    ∷ []

abbrev pub set_ups : List (List Stmt)
set_ups =
    nat_sample_init_port ∷ nat_version2_init_port ∷ nat_version3_init_port ∷ nat_version4_init_port
    ∷ nat_version5_init_port ∷ nat_version6_init_port ∷ vxlan_port_init ∷ segregation_init_port
    ∷ router_init_port ∷ load_balancer_port ∷ l2fwd_acl_port ∷ acl_exp_port ∷ real_packet_acl_port
    ∷ threads_port ∷ nic_stats_port ∷ packet_change_port ∷ meter_port ∷ simple_tx_init_port
    ∷ swap_addr_rx_port ∷ swap_addr_tx_port ∷ dynamic_seqno_port_init ∷ reorder_init_port
    ∷ packet_parsing_init_port ∷ port_mempool_init_port ∷ []

abbrev all_orderly : List (List Stmt) → Bool
all_orderly [] = true
all_orderly (ss ∷ sss) = is_orderly ss fresh && all_orderly sss

abbrev pub IsFinished : Outcome Dev → Type 0
IsFinished o = (d : Dev) × (o ≡ finished d)

orderly-IsSafe :
    (fails : Driver) (sss : List (List Stmt))
    → all_orderly sss ≡ true
    → All (λ ss. IsSafe fails (run fails ss fresh) × IsFinished (run (λ c. false) ss fresh)) sss
orderly-IsSafe fails [] h = tt
orderly-IsSafe fails (ss ∷ sss) h =
    let (o, r) = &&-split (is_orderly ss fresh) _ h in
    (
      (run-IsSafe fails ss fresh o, run-finished (λ c. false) ss fresh o (λ c. refl)),
      orderly-IsSafe fails sss r,
    )

-- Whatever calls fail, each of the 24 set-ups keeps to the order that rte_ethdev.h demands: if it is done, the
-- port runs with all its queues, and if it leaves, then for a call that failed. It is done where no
-- call fails.
pub set_ups-IsSafe :
    (fails : Driver)
    → All (λ ss. IsSafe fails (run fails ss fresh) × IsFinished (run (λ c. false) ss fresh)) set_ups
unfolding allowed apply
set_ups-IsSafe fails = orderly-IsSafe fails set_ups refl
