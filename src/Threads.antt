-- ===== src/Threads.antt =====
-- thread_parsing/threaded_project: three threads and two rings between them. A step is one access to a
-- shared object by one of the threads, with what it does on its own until the next one. What the rings
-- and the port decide is left open: an enqueue may find the ring full, a burst may be short.
pub mod Parse
pub mod Build
pub mod Roundtrip
pub mod Order
pub mod Counters
use dpdk_for_beginners.Base.{
  ℕ, ◌+◌, ◌%◌, ◌^◌, ◌≤◌, ◌≡◌, ◌≢◌, Bool, true, false, List, [], ◌∷◌, ◌++◌, length, take, drop, leb,
  if◌then◌else◌,
}
use dpdk_for_beginners.Frame.{Memory}

abbrev pub burst_size : ℕ
burst_size = 32

-- where `rx_loop` is: before `rte_eth_rx_burst`, behind it, or out of the loop
pub data Phase : Type 0 where
  polling received stopped : Phase

pub record Threads : Type 0 where
  pub phase : Phase
  pub rx_pkts : List Memory  -- of the burst, what is still to be enqueued
  pub ring_rx_to_parse : List Memory
  pub parser_pkts : List Memory
  pub ring_parse_to_tx : List Memory
  pub tx_pkts : List Memory
  pub force_quit : Bool
  pub rx_count : ℕ
  pub parser_count : ℕ
  pub tx_count : ℕ
  pub arrived : List Memory  -- all that the port has given
  pub sent : List Memory
  pub freed : List Memory
  pub lost : List Memory  -- neither handed on nor freed

abbrev pub start : Threads
start = record {
  phase = polling;
  rx_pkts = [];
  ring_rx_to_parse = [];
  parser_pkts = [];
  ring_parse_to_tx = [];
  tx_pkts = [];
  force_quit = false;
  rx_count = 0;
  parser_count = 0;
  tx_count = 0;
  arrived = [];
  sent = [];
  freed = [];
  lost = [];
}

-- `count += n` on `uint64_t`
abbrev pub count_up : ℕ → ℕ → ℕ
count_up count n = (count + n) % 2 ^ 64

-- `rx_loop`: the burst, the enqueue of a packet, whose result is ignored, and the test at the end
unfoldable pub rx_burst : Threads → List Memory → Threads
rx_burst t pkts = record t {
  phase = received;
  rx_pkts = pkts;
  rx_count = count_up t.rx_count (length pkts);
  arrived = t.arrived ++ pkts;
}

unfoldable pub rx_enqueue : Threads → Bool → Memory → List Memory → Threads
rx_enqueue t true m ms = record t {
  rx_pkts = ms;
  ring_rx_to_parse = t.ring_rx_to_parse ++ (m ∷ []);
}
rx_enqueue t false m ms = record t { rx_pkts = ms; lost = t.lost ++ (m ∷ []) }

unfoldable pub rx_test : Threads → Threads
rx_test t =
    if leb 10 t.rx_count
    then record t { force_quit = true; phase = stopped }
    else record t { phase = polling }

-- `parser_loop`: the dequeue, and the enqueue of as many packets as the ring takes
unfoldable pub parser_dequeue : Threads → ℕ → Threads
parser_dequeue t n = record t {
  parser_pkts = take n t.ring_rx_to_parse;
  ring_rx_to_parse = drop n t.ring_rx_to_parse;
  parser_count = count_up t.parser_count (length (take n t.ring_rx_to_parse));
}

unfoldable pub parser_enqueue : Threads → ℕ → Threads
parser_enqueue t m = record t {
  parser_pkts = [];
  ring_parse_to_tx = t.ring_parse_to_tx ++ take m t.parser_pkts;
  freed = t.freed ++ drop m t.parser_pkts;
}

-- `tx_loop`: the dequeue, and the burst of which the port takes the first packets
unfoldable pub tx_dequeue : Threads → ℕ → Threads
tx_dequeue t n = record t {
  tx_pkts = take n t.ring_parse_to_tx;
  ring_parse_to_tx = drop n t.ring_parse_to_tx;
  tx_count = count_up t.tx_count (length (take n t.ring_parse_to_tx));
}

unfoldable pub tx_send : Threads → ℕ → Threads
tx_send t sent = record t {
  tx_pkts = [];
  sent = t.sent ++ take sent t.tx_pkts;
  freed = t.freed ++ drop sent t.tx_pkts;
}

-- A thread enters the body of its loop only where it sees that `force_quit` is not set.
pub data Step : Threads → Threads → Type 0 where
  rx_polls :
      (t : Threads) (pkts : List Memory)
      → t.phase ≡ polling
      → t.force_quit ≡ false
      → length pkts ≤ burst_size
      → Step t (rx_burst t pkts)
  rx_enqueues :
      (t : Threads) (fits : Bool) (m : Memory) (ms : List Memory)
      → t.phase ≡ received
      → t.rx_pkts ≡ m ∷ ms
      → Step t (rx_enqueue t fits m ms)
  rx_tests : (t : Threads) → t.phase ≡ received → t.rx_pkts ≡ [] → Step t (rx_test t)
  parser_dequeues :
      (t : Threads) (n : ℕ)
      → t.force_quit ≡ false
      → t.parser_pkts ≡ []
      → n ≤ burst_size
      → Step t (parser_dequeue t n)
  parser_enqueues : (t : Threads) (m : ℕ) → t.parser_pkts ≢ [] → Step t (parser_enqueue t m)
  tx_dequeues :
      (t : Threads) (n : ℕ)
      → t.force_quit ≡ false
      → t.tx_pkts ≡ []
      → n ≤ burst_size
      → Step t (tx_dequeue t n)
  tx_sends : (t : Threads) (n : ℕ) → t.tx_pkts ≢ [] → Step t (tx_send t n)

pub data Reach : Threads → Type 0 where
  begin : Reach start
  next : {t u : Threads} → Reach t → Step t u → Reach u
