-- ===== src/GraphFw.antt =====
-- dpdk-graph-fw: the nodes of the packet graph, the command line and the loop of main.c. The command
-- line runs in a thread of its own, so that its commands come between any two walks of the graph.
pub mod Walk
pub mod Cli
pub mod Run
