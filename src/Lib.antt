-- ===== src/Lib.antt =====
-- A model of the network programs of DPDK_For_Beginners that carry logic of their own, with the
-- theorems that make them correct. All of them run on DPDK, which is not part of the repository.
--
-- The parts, each with the files that model it:
--
-- - NatPool: nat_project/version5, a NAT that lends the addresses of a range to its clients.
--   NatPool/State has the structures of source.h and, of static_nat.c, `nat_pool_create`,
--   `nat_pool_reset` and `nat_inbound_add`; NatPool/Timers has `expiry_timer_cb`,
--   `table_timer_cb` and `nat_table_timer_arm`; NatPool/Apply has `find_free_slot`,
--   `rewrite_and_recalc` and `nat_pool_apply`; NatPool/Start has the start of `main` and
--   NatPool/Main its loop. NatPool/Start/Ready is about the pool that the loop starts with,
--   NatPool/Sound and its children are about the invariant of a pool, NatPool/Translate about
--   addresses and checksums, NatPool/Outcome about what becomes of a packet, NatPool/Sticky
--   about the packets of one source, NatPool/Expiry about the timers.
-- - Napt: nat_project/version6, a NAT that puts many clients behind one address by their ports.
--   Napt/State has the structures of source.h and `allocate_port`, `create_entry`, `refresh`,
--   `nat_entry_expire` and `nat_init` of static_nat.c; Napt/Process has `parse`, the two
--   rewrites and `nat_process_packet`; Napt/Main has the loop of main.c with `nat_timer_manage`.
--   Entries lie in a heap, to whose addresses the tables lead, so that a read through a freed
--   pointer can be told. Napt/Ports, Napt/Memory, Napt/Flows and Napt/Drops have the theorems.
-- - Lease: nat_project/version4, which releases idle addresses while it looks for a free one,
--   with Lease/Pass for that search, Lease/Refine for its relation to version5 and Lease/Start
--   for the choice of the pool in main.c and for config.c.
-- - Config: the readers of the files of configuration, that is `nat_load_from_file` of
--   nat_project/version3/config.c and of nat_project/version5/config.c, and
--   `nat_inbound_load_from_file` of nat_project/version5/static_nat.c. `sscanf` and `inet_pton`
--   are parameters. The programs do not look at the result of `inet_pton`, so it is a function from
--   the text and what its target held before to what the target holds then. Config/Manual has the input by hand in nat_project/version3/main.c.
--   Config/Lines, Config/Mappings and Config/PoolFile have the theorems.
-- - StaticNat: `nat_apply` of nat_project/version3/static_nat.c, and
--   nat_project/version5/hash.c, which keeps the sources that it has seen (`hash_ips`), with the
--   theorems in StaticNat/Laws. StaticNat/Simulate has `simulate_nat` of NAT/static_nat/main.c.
-- - Session: the measurement of idle time in the main loops of nat_project/version3/main.c and
--   nat_project/version4/main.c.
-- - Monitor: nat_project/sample, with saveip.c, and nat_project/version2, with its hash.c, which
--   only watch the traffic. Monitor/Record has what a burst puts on record, and Monitor/Sessions
--   what is on record after any turns of the two main loops.
-- - Balancer: Load_Balancer/load_balancer.c, with `rewrite_l4_packet` and a round of
--   `lcore_main`.
-- - GraphFw: dpdk-graph-fw. GraphFw/Walk has the four nodes, GraphFw/Cli the command line, and
--   GraphFw/Run the two threads, whose turns come in any order. They share the variables of
--   include/config.h.
-- - Vxlan: vxlan/main.c, with `vxlan_encap`, `vxlan_decap` and the body of the main loop on the
--   bytes of a packet.
-- - Segregate: control_data_segregation/main.c. Segregate/Classify has `classify_packet` on the
--   bytes of a packet, and Segregate/Loop the loop over the two rings.
-- - Acl: the programs under ACL/. Acl/Field has the rules of `rte_acl` and what they mean,
--   Acl/Key the key of a packet, Acl/Forward ACL/l2fwd_acl/main.c, Acl/Capture ACL/exp/main.c
--   and ACL/real_packet_acl/main2.c, Acl/Rules the rule sets of
--   ACL/dual_rule_implementation/main.c and ACL/muti_rule/main.c, and Acl/Agree compares two of
--   the programs.
-- - Pipeline: graph/pipeline/pipeline.c, a packet graph whose nodes run in any order, with
--   Pipeline/Outcome for what becomes of a burst and Pipeline/Termination for the end of a walk.
-- - RxDrop: graph/rx_drop_sample/sample/main.c.
-- - Threads: thread_parsing/threaded_project, with the loops of rx.c, parser.c and tx.c as steps
--   that come in any order. Threads/Order and Threads/Counters are about their states.
--   Threads/Parse has `parse_packet` of parser.c, Threads/Build frames to compare it with, and
--   Threads/Roundtrip that comparison.
-- - Ipc: inter_process_comm/single_ring_full_duplex, the processes primary.c and secondary.c and
--   their ring. Ipc/Stages has the states that they can get into, Ipc/Exchange and
--   Ipc/Completion the theorems.
-- - Rcu: rcu/sample/main.c, with Rcu/Safety.
-- - Switch: l2_forwarding/main.c, with Switch/Learning.
-- - Router: longest_prefix_match_lpm/simple/main.c, with Router/Routes; the table of `rte_lpm`
--   is a parameter.
-- - Ports: the set-up of the ports in 33 programs, as the calls in the order that they are made
--   and what is done when one fails. Ports itself has the order that rte_ethdev.h demands of
--   these calls; Ports/Checked has the set-ups that heed the results of them, each under the
--   name of its program, and Ports/Unchecked those that do not; Ports/Order has the lemmas.
--   Ports/Rss has rss_dpdk/af_packet_rss/main.c and rss_dpdk/main.c, with the cores that the
--   queues are given to.
-- - FeatureArc: feature_arc/sample/main.c, with FeatureArc/Chain for the nodes that are linked
--   one by one and FeatureArc/Rebuild for the whole arc.
-- - Reorder: Reorder/DynamicSeqno has `lcore_main_loop` of reordering/dynamic_seqno/main.c, and
--   Reorder/RxBurst `rx_reorder_loop` of reordering/rx_burst/main2.c, with Reorder/Ordered for
--   the order in which packets come out and with what the code takes from `rte_reorder`.
-- - Telemetry: telementry/advanced_stats/main.c, whose workers share one counter, with
--   Telemetry/Counters.
-- - PacketChange: packet_change/main.c and mempool_membuff/append_prependops.c, with
--   PacketChange/Edit. Mbuf has what they take from `rte_mbuf`.
-- - Transmit: `build_udp_packet` of tranmit_packet/packet_creation/simple_tx.c, with the loop of
--   `main` in Transmit/Send, and in Transmit/Swap the loop of tranmit_packet/swap_addr/main.c.
-- - GraphNodes: graph/two_start_node/main.c and graph/node_sched/main.c, with
--   GraphNodes/TwoStart.
--
-- What the parts share: Base and its children hold the names of the libraries, Boolean tests,
-- lists and bounded loops; Packet a received frame by the fields that the code reaches; Frame
-- one by its bytes; Dpdk what the code takes from DPDK, as records of functions and of their
-- documented behaviour, with Dpdk/Table for what follows for a hash table, Dpdk/Capacity for
-- its number of entries, and Dpdk/Sample for concrete functions that behave so. A ring is such a record too, `Fifo` in Segregate/Loop.
-- Tests and its children run the models.
--
-- State is passed on explicitly: an operation takes a state and returns the new one. What the
-- code asks of the system (the clock, memory, the result of a transmission, the timers that are
-- due) is an argument of the operation, so that a theorem holds for any answer. Numbers are
-- those of the machine: sums on `uint16_t`, `uint32_t` and `uint64_t` are taken modulo their
-- powers of 2 where the code may wrap. Loops over slots run on the number of slots that are
-- left, and loops over bursts and lines on the list, without fuel. `dump_pipeline` alone follows
-- links that may lead anywhere and runs on fuel: a chain that `feature_arc_rebuild` has made
-- ends after the features and two rounds more. Where the order of steps is not settled by the
-- code, they are a relation. Endless main loops are functions of the list of their rounds.
--
-- Not modelled: printing, the set-up of memory pools, of graphs and of the telemetry commands,
-- and the programs of the other directories, which for the most part show calls of DPDK. Of two
-- threads a turn is taken as one step, but for Telemetry, whose steps are single reads and
-- writes. A packet is one segment, and the headers have no options where the code assumes none.
pub mod Base
pub mod Dpdk
pub mod Frame
pub mod Packet
pub mod NatPool
pub mod Napt
pub mod Balancer
pub mod GraphFw
pub mod Vxlan
pub mod Segregate
pub mod Tests
pub mod Lease
pub mod Config
pub mod StaticNat
pub mod Session
pub mod Acl
pub mod Pipeline
pub mod Router
pub mod RxDrop
pub mod Threads
pub mod Ipc
pub mod Switch
pub mod Mbuf
pub mod Monitor
pub mod PacketChange
pub mod Transmit
pub mod Reorder
pub mod Telemetry
pub mod GraphNodes
pub mod FeatureArc
pub mod Ports
pub mod Rcu
