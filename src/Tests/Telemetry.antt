-- ===== src/Tests/Telemetry.antt =====
-- Two workers that load the shared counter before either of them stores it.
use dpdk_for_beginners.Base.{◌≤◌, [], ◌∷◌, arith}
use dpdk_for_beginners.Telemetry.{
  counting, adding, storing, Stats, count_loop, load_total, store_total, counts, loads, stores,
  Reach, launched, next, adv_summary_handler, adv_lcore_stats_handler,
}
use dpdk_for_beginners.Telemetry.Counters.{sum, summary-le}

-- Both have gone round once, and the total is 1.
abbrev lost_one : Stats
lost_one = record {
  total = 1;
  cores = record { loops = 1; phase = counting } ∷ record { loops = 1; phase = counting } ∷ [];
}

lost_one-Reach : Reach 2 6 lost_one
unfolding count_loop load_total store_total
lost_one-Reach =
    next
      (next
        (next
          (next
            (next (next launched (counts 0 0 [] (record { loops = 0; phase = counting } ∷ [])))
              (counts 0 0 (record { loops = 1; phase = adding } ∷ []) []))
            (loads 0 1 [] (record { loops = 1; phase = adding } ∷ [])))
          (loads 0 1 (record { loops = 1; phase = storing 0 } ∷ []) []))
        (stores 0 1 0 [] (record { loops = 1; phase = storing 0 } ∷ [])))
      (stores 1 1 0 (record { loops = 1; phase = counting } ∷ []) [])

summary-le_example :
    (adv_summary_handler 0 100 10 lost_one).2 ≤ sum (adv_lcore_stats_handler lost_one)
summary-le_example = summary-le 2 6 0 100 10 (omega arith) lost_one-Reach
