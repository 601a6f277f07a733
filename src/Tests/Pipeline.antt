-- ===== src/Tests/Pipeline.antt =====
-- A walk of graph/pipeline/pipeline.c: a packet of IPv4 and one of ARP.
use dpdk_for_beginners.Base.{
  ℕ, ◌+◌, ◌*◌, ◌≤◌, ◌≡◌, ◌≢◌, ◌⊎◌, refl, Bool, List, [], ◌∷◌, All, length, count, arith,
}
use dpdk_for_beginners.Frame.{Memory, of_list}
use dpdk_for_beginners.Pipeline.{
  Graph, sort_out, l2_node_process, ipv4_node_process, tx_node_process, drop_node_process,
  rx_node_process, Step, run_l2, run_ipv4, run_tx, run_drop, Walk, stop, and_then,
}
use dpdk_for_beginners.Pipeline.Outcome.{IsIp, IsIdle, walk_outcome}
use dpdk_for_beginners.Pipeline.Termination.{walk_ends}

abbrev typed : ℕ → ℕ → Memory
typed hi lo = of_list (0 ∷ 0 ∷ 0 ∷ 0 ∷ 0 ∷ 0 ∷ 0 ∷ 0 ∷ 0 ∷ 0 ∷ 0 ∷ 0 ∷ hi ∷ lo ∷ [])

abbrev burst : List Memory
burst = typed 8 0 ∷ typed 8 6 ∷ []

abbrev end : Graph
end =
    drop_node_process
      (tx_node_process 1 (ipv4_node_process (l2_node_process (rx_node_process burst))))

nonempty : (m : Memory) (ms : List Memory) → m ∷ ms ≢ []
nonempty m ms e = cc

burst-Walk : Walk 4 (rx_node_process burst) end
unfolding rx_node_process sort_out l2_node_process ipv4_node_process tx_node_process
    drop_node_process
burst-Walk = and_then (run_l2 _ (nonempty (typed 8 0) _)) (
    and_then (run_ipv4 _ (nonempty (typed 8 0) _)) (
      and_then (run_tx _ 1 (nonempty (typed 8 0) _) (omega arith))
        (and_then (run_drop _ (nonempty (typed 8 6) _)) stop)))

walk_outcome_example :
    ((c : Memory → Bool) → count c end.sent + count c end.freed ≡ count c burst) × All IsIp end.sent
unfolding rx_node_process sort_out l2_node_process ipv4_node_process tx_node_process
    drop_node_process
walk_outcome_example = walk_outcome burst burst-Walk (refl, refl, refl, refl, refl)

walk_ends_example : (4 ≤ 3 * length burst) × (IsIdle end ⊎ ((k : Graph) × Step end k))
walk_ends_example = walk_ends burst burst-Walk
