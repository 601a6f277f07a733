-- ===== src/Tests/Threads.antt =====
-- Runs of thread_parsing/threaded_project: a packet that passes through the three threads, and a frame.
use mathlib.Core.List.{Sublist}
use dpdk_for_beginners.Base.{
  ◌+◌, ◌≤◌, ◌≡◌, ◌≢◌, refl, Bool, true, false, some, [], ◌∷◌, length, count, arith,
}
use dpdk_for_beginners.Dpdk.Sample.{little_endian}
use dpdk_for_beginners.Frame.{Memory, of_list}
use dpdk_for_beginners.Threads.{
  Threads, start, rx_burst, rx_enqueue, rx_test, parser_dequeue, parser_enqueue, tx_dequeue,
  tx_send, rx_polls, rx_enqueues, rx_tests, parser_dequeues, parser_enqueues, tx_dequeues, tx_sends,
  Reach, begin, next,
}
use dpdk_for_beginners.Threads.Order.{flow, threads_keep_order}
use dpdk_for_beginners.Threads.Counters.{counters_bounded}
use dpdk_for_beginners.Threads.Parse.{parse_packet}
use dpdk_for_beginners.Threads.Build.{Headers, tcp_to, build, report}
use dpdk_for_beginners.Threads.Roundtrip.{parse_packet-build}

abbrev packet : Memory
packet = of_list (1 ∷ 2 ∷ 3 ∷ [])

-- Two packets come. The ring takes the first and refuses the second, and the first goes through.
abbrev enqueued : Threads
enqueued =
    rx_enqueue (rx_enqueue (rx_burst start (packet ∷ packet ∷ [])) true packet (packet ∷ [])) false
      packet []

abbrev done : Threads
done = tx_send (tx_dequeue (parser_enqueue (parser_dequeue (rx_test enqueued) 32) 32) 32) 1

some_packet : packet ∷ [] ≢ []
some_packet e = cc

done-Reach : Reach done
unfolding rx_burst rx_enqueue rx_test parser_dequeue parser_enqueue tx_dequeue tx_send
done-Reach =
    next
      (next
        (next
          (next
            (next
              (next
                (next (next begin (rx_polls start (packet ∷ packet ∷ []) refl refl (omega arith))) (
                  rx_enqueues (rx_burst start (packet ∷ packet ∷ [])) true packet (packet ∷ []) refl
                    refl))
                (rx_enqueues _ false packet [] refl refl))
              (rx_tests enqueued refl refl))
            (parser_dequeues (rx_test enqueued) 32 refl refl (omega arith)))
          (parser_enqueues _ 32 some_packet))
        (tx_dequeues _ 32 refl refl (omega arith)))
      (tx_sends _ 1 some_packet)

threads_keep_order_example :
    Sublist (flow done) done.arrived
    × ((c : Memory → Bool)
        → count c (flow done) + count c done.freed + count c done.lost ≡ count c done.arrived)
threads_keep_order_example = threads_keep_order done-Reach

counters_bounded_example :
    (done.tx_count ≤ done.parser_count)
    × (done.parser_count ≤ done.rx_count)
    × (done.rx_count ≡ length done.arrived)
    × (done.rx_count ≤ 41)
    × (done.force_quit ≡ true → 10 ≤ done.rx_count)
counters_bounded_example = counters_bounded done-Reach

-- TCP from 10.0.0.1 to 10.0.0.2 behind a VLAN tag
abbrev headers : Headers
headers = record {
  dst = record { a0 = 1; a1 = 2; a2 = 3; a3 = 4; a4 = 5; a5 = 6 };
  src = record { a0 = 7; a1 = 8; a2 = 9; a3 = 10; a4 = 11; a5 = 12 };
  vlan = some 100;
  src_addr = record { b0 = 10; b1 = 0; b2 = 0; b3 = 1 };
  dst_addr = record { b0 = 10; b1 = 0; b2 = 0; b3 = 2 };
  transport = tcp_to 40000 80 123456789 0 2;
}

parse_packet-build_example :
    parse_packet little_endian (of_list (build headers (1 ∷ 2 ∷ []))) ≡ report headers
parse_packet-build_example =
    parse_packet-build headers (1 ∷ 2 ∷ [])
      (record { tag = omega arith; from = ground arith; to = ground arith; ports = ground arith })
