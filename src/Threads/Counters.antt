-- ===== src/Threads/Counters.antt =====
-- The three counters of the threads, which are printed at the end.
use dpdk_for_beginners.Base.{
  ℕ, ◌+◌, ◌≤◌, ◌<◌, ◌≡◌, ap, true, false, List, [], ◌∷◌, length, length-append, take, drop,
  take-append-drop, arith, sym, ◌∙◌,
}
use dpdk_for_beginners.Frame.{Memory}
use dpdk_for_beginners.Threads.{
  Threads, polling, stopped, rx_burst, rx_enqueue, rx_test, parser_dequeue, parser_enqueue,
  tx_dequeue, tx_send, Step, rx_polls, rx_enqueues, rx_tests, parser_dequeues, parser_enqueues,
  tx_dequeues, tx_sends, Reach, begin, next,
}

record Inv (t : Threads) : Type 0 where
  idle : t.phase ≡ polling → length t.rx_pkts ≡ 0
  before : t.phase ≡ polling → t.rx_count < 10
  behind : t.phase ≡ stopped → 10 ≤ t.rx_count
  quitting : t.force_quit ≡ true → t.phase ≡ stopped
  all_counted : t.rx_count ≡ length t.arrived
  at_most : t.rx_count ≤ 41
  to_parser : t.parser_count + length t.ring_rx_to_parse + length t.rx_pkts ≤ t.rx_count
  to_tx : t.tx_count + length t.ring_parse_to_tx + length t.parser_pkts ≤ t.parser_count

length-cut : (n : ℕ) (xs : List Memory) → length (take n xs) + length (drop n xs) ≡ length xs
length-cut n xs = sym (length-append (take n xs) (drop n xs)) ∙ ap length (take-append-drop n xs)

Step-Inv : {t u : Threads} → Step t u → Inv t → Inv u
unfolding rx_burst rx_enqueue rx_test parser_dequeue parser_enqueue tx_dequeue tx_send
Step-Inv (rx_polls t pkts p q l) v = ground (arith, v, length-append t.arrived pkts)
Step-Inv (rx_enqueues t true m ms p q) v =
    ground (arith, v, ap length q, length-append t.ring_rx_to_parse (m ∷ []))
Step-Inv (rx_enqueues t false m ms p q) v = ground (arith, v, ap length q)
Step-Inv (rx_tests t p q) v = ground (arith, v, ap length q)
Step-Inv (parser_dequeues t n p q l) v =
    ground (arith, v, ap length q, length-cut n t.ring_rx_to_parse)
Step-Inv (parser_enqueues t m p) v =
    ground (
      arith,
      v,
      length-append t.ring_parse_to_tx (take m t.parser_pkts),
      length-cut m t.parser_pkts,
    )
Step-Inv (tx_dequeues t n p q l) v = ground (arith, v, ap length q, length-cut n t.ring_parse_to_tx)
Step-Inv (tx_sends t n p) v = ground (arith, v)

Reach-Inv : {t : Threads} → Reach t → Inv t
Reach-Inv begin = ground arith
Reach-Inv (next r s) = Step-Inv s (Reach-Inv r)

-- However the threads are interleaved, no counter wraps around: `rx_count` is the number of packets that
-- came, at most 41, no later counter is above an earlier one, and when the threads are told to stop at
-- least ten packets have come.
pub counters_bounded :
    {t : Threads}
    → Reach t
    → (t.tx_count ≤ t.parser_count)
      × (t.parser_count ≤ t.rx_count)
      × (t.rx_count ≡ length t.arrived)
      × (t.rx_count ≤ 41)
      × (t.force_quit ≡ true → 10 ≤ t.rx_count)
counters_bounded r =
    let v = Reach-Inv r in
    (
      omega (arith, v.to_tx),
      omega (arith, v.to_parser),
      v.all_counted,
      v.at_most,
      (λ e. v.behind (v.quitting e)),
    )
