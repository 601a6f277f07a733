-- ===== src/Pipeline.antt =====
-- graph/pipeline/pipeline.c: the nodes of a packet graph with a branch for IPv4 and one for IPv6. A node
-- that has packets pending takes all of them when it runs. `rte_graph_walk` runs such nodes until none
-- is left; in which order it takes them is left open.
pub mod Outcome
pub mod Termination
use dpdk_for_beginners.Base.{
  ℕ, ◌+◌, ◌*◌, ◌≤◌, ◌≢◌, List, [], ◌∷◌, ◌++◌, length, take, drop, ◌==◌, if◌then◌else◌,
}
use dpdk_for_beginners.Frame.{Memory, be16_at}

-- What is pending for each node, what the port has taken, and what has been freed.
pub record Graph : Type 0 where
  pub l2 : List Memory
  pub ipv4 : List Memory
  pub ipv6 : List Memory
  pub tx : List Memory
  pub drop_pending : List Memory
  pub sent : List Memory
  pub freed : List Memory

-- `rte_eth_rx_burst` gives the packets; with none the next node does not become pending.
unfoldable pub rx_node_process : List Memory → Graph
rx_node_process pkts = record {
  l2 = pkts;
  ipv4 = [];
  ipv6 = [];
  tx = [];
  drop_pending = [];
  sent = [];
  freed = [];
}

-- the three arrays of `l2_node_process`
pub record Sorted : Type 0 where
  pub v4 : List Memory
  pub v6 : List Memory
  pub d : List Memory

unfoldable pub sort_out : List Memory → Sorted
sort_out [] = record { v4 = []; v6 = []; d = [] }
sort_out (m ∷ ms) =
    let rest = sort_out ms in
    if be16_at m 12 == 0x0800
    then record rest { v4 = m ∷ rest.v4 }
    else if be16_at m 12 == 0x86dd
    then record rest { v6 = m ∷ rest.v6 }
    else record rest { d = m ∷ rest.d }

unfoldable pub l2_node_process : Graph → Graph
unfolding sort_out
l2_node_process g =
    let s = sort_out g.l2 in
    record g {
      l2 = [];
      ipv4 = g.ipv4 ++ s.v4;
      ipv6 = g.ipv6 ++ s.v6;
      drop_pending = g.drop_pending ++ s.d;
    }

unfoldable pub ipv4_node_process : Graph → Graph
ipv4_node_process g = record g { ipv4 = []; tx = g.tx ++ g.ipv4 }

unfoldable pub ipv6_node_process : Graph → Graph
ipv6_node_process g = record g { ipv6 = []; tx = g.tx ++ g.ipv6 }

-- The port takes the first `n` packets, and the others are freed.
unfoldable pub tx_node_process : ℕ → Graph → Graph
tx_node_process n g = record g {
  tx = [];
  sent = g.sent ++ take n g.tx;
  freed = g.freed ++ drop n g.tx;
}

unfoldable pub drop_node_process : Graph → Graph
drop_node_process g = record g { drop_pending = []; freed = g.freed ++ g.drop_pending }

-- One node runs. `rte_eth_tx_burst` takes as many packets as it likes.
pub data Step : Graph → Graph → Type 0 where
  run_l2 : (g : Graph) → g.l2 ≢ [] → Step g (l2_node_process g)
  run_ipv4 : (g : Graph) → g.ipv4 ≢ [] → Step g (ipv4_node_process g)
  run_ipv6 : (g : Graph) → g.ipv6 ≢ [] → Step g (ipv6_node_process g)
  run_tx : (g : Graph) (n : ℕ) → g.tx ≢ [] → n ≤ length g.tx → Step g (tx_node_process n g)
  run_drop : (g : Graph) → g.drop_pending ≢ [] → Step g (drop_node_process g)

-- a walk of so many steps
pub data Walk : ℕ → Graph → Graph → Type 0 where
  stop : {g : Graph} → Walk 0 g g
  and_then : {n : ℕ} {g h k : Graph} → Step g h → Walk n h k → Walk (n + 1) g k
