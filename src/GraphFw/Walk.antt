-- ===== src/GraphFw/Walk.antt =====
-- dpdk-graph-fw/include/config.h and the nodes under dpdk-graph-fw/nodes.
use dpdk_for_beginners.Base.{
  ℕ, ◌+◌, ◌%◌, ◌^◌, Bool, true, false, List, [], ◌∷◌, length, take, drop, ltb, if◌then◌else◌,
}

-- A packet buffer: the length that the firewall tests, and the bytes.
pub record Mbuf : Type 0 where
  pub pkt_len : ℕ
  pub bytes : List ℕ

-- the variables of config.h, which the nodes and the command line share
pub record App : Type 0 where
  pub firewall_enabled : Bool
  pub app_running : Bool
  pub rx_count : ℕ
  pub parser_count : ℕ
  pub firewall_count : ℕ
  pub tx_count : ℕ

-- their values at the start, in control/cli.c
abbrev pub start : App
start = record {
  firewall_enabled = false;
  app_running = true;
  rx_count = 0;
  parser_count = 0;
  firewall_count = 0;
  tx_count = 0;
}

-- `count += n` on `uint64_t`
abbrev pub count_up : ℕ → ℕ → ℕ
count_up count n = (count + n) % 2 ^ 64

-- What a walk leaves: the variables, the packets that the port took, those that it did not take, which the
-- program neither sends again nor frees, and those that were freed.
pub record Outcome : Type 0 where
  pub app : App
  pub sent : List Mbuf
  pub lost : List Mbuf
  pub freed : List Mbuf

-- a packet that the loop of `firewall_node_process` keeps
abbrev pub passes : Mbuf → Bool
passes m = if ltb m.pkt_len 60 then false else true

unfoldable pub kept : List Mbuf → List Mbuf
kept [] = []
kept (m ∷ ms) = if passes m then m ∷ kept ms else kept ms

unfoldable pub dropped : List Mbuf → List Mbuf
dropped [] = []
dropped (m ∷ ms) = if passes m then dropped ms else m ∷ dropped ms

-- `room` is how many packets `rte_eth_tx_burst` would take in the walk; its result is ignored.
module _ (room : ℕ) where
  unfoldable pub tx_node_process : App → List Mbuf → List Mbuf → Outcome
  tx_node_process a objs freed = record {
    app = record a { tx_count = count_up a.tx_count (length objs) };
    sent = take room objs;
    lost = drop room objs;
    freed = freed;
  }

  -- What is enqueued is processed by the next node; with nothing enqueued the node does not run.
  unfoldable pub to_tx : App → List Mbuf → List Mbuf → Outcome
  unfolding tx_node_process
  to_tx a [] freed = record { app = a; sent = []; lost = []; freed = freed }
  to_tx a (m ∷ ms) freed = tx_node_process a (m ∷ ms) freed

  unfoldable pub firewall_node_process : App → List Mbuf → Outcome
  unfolding to_tx kept dropped
  firewall_node_process a objs =
      to_tx (record a { firewall_count = count_up a.firewall_count (length objs) }) (kept objs)
        (dropped objs)

  -- the next node of `parser_node_process`, by `firewall_enabled`
  unfoldable pub enqueue_next : Bool → App → List Mbuf → Outcome
  enqueue_next true a objs = firewall_node_process a objs
  enqueue_next false a objs = tx_node_process a objs []

  unfoldable pub parser_node_process : App → List Mbuf → Outcome
  unfolding enqueue_next
  parser_node_process a objs =
      enqueue_next a.firewall_enabled
        (record a { parser_count = count_up a.parser_count (length objs) }) objs

  -- `rx_node_process` on a burst from the port, and with it a walk of the graph
  unfoldable pub rx_node_process : App → List Mbuf → Outcome
  unfolding parser_node_process
  rx_node_process a [] = record {
    app = record a { rx_count = count_up a.rx_count 0 };
    sent = [];
    lost = [];
    freed = [];
  }
  rx_node_process a (m ∷ ms) =
      parser_node_process (record a { rx_count = count_up a.rx_count (length (m ∷ ms)) }) (m ∷ ms)
