-- ===== src/Tests/GraphNodes.antt =====
-- graph/two_start_node/main.c with a pool that refuses one packet.
use dpdk_for_beginners.Base.{◌≡◌, refl, Bool, true, false, List, [], ◌∷◌}
use dpdk_for_beginners.GraphNodes.{idle, start_process, worker_process, walk, run}

abbrev answers : List (Bool × Bool)
answers =
    (true, true)
    ∷ (true, false)
    ∷ (true, true)
    ∷ (true, true)
    ∷ (true, true)
    ∷ (true, true)
    ∷ (true, true)
    ∷ []

ends_in_time : run idle answers ≡ (record { total_prints = 10; waiting = 0; freed = 10 }, true)
unfolding run walk start_process worker_process
ends_in_time = refl
