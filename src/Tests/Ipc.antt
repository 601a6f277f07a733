-- ===== src/Tests/Ipc.antt =====
-- The first turns of inter_process_comm/single_ring_full_duplex, where the primary gets its own request and
-- puts it back.
use dpdk_for_beginners.Base.{◌≡◌, refl, List, [], ◌∷◌}
use dpdk_for_beginners.Ipc.{
  start, Turn, primary_runs, secondary_runs, run, primary_turn, secondary_turn,
}
use dpdk_for_beginners.Ipc.Exchange.{Promise, IsOver, run-Promise}
use dpdk_for_beginners.Ipc.Completion.{run-finishes}

abbrev turns : List Turn
turns =
    primary_runs ∷ primary_runs ∷ primary_runs ∷ secondary_runs ∷ secondary_runs ∷ secondary_runs
    ∷ secondary_runs ∷ primary_runs ∷ primary_runs ∷ []

first_answer : (run turns start).received ≡ 0 ∷ []
unfolding primary_turn secondary_turn
first_answer = refl

run-Promise_example : Promise (run turns start)
run-Promise_example = run-Promise turns

run-finishes_example : (more : List Turn) × IsOver (run more (run turns start))
run-finishes_example = run-finishes turns
