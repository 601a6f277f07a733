-- ===== src/Tests/Balancer.antt =====
-- Runs of Load_Balancer: a burst of four packets.
use dpdk_for_beginners.Base.{◌+◌, ◌%◌, ◌^◌, ◌≡◌, refl, List, [], ◌∷◌, ◌++◌, length, arith}
use dpdk_for_beginners.Dpdk.Sample.{little_endian, plain_sums}
use dpdk_for_beginners.Packet.{Packet}
use dpdk_for_beginners.Balancer.{initial, Totals, rewrite_all, lcore_round}
use dpdk_for_beginners.Balancer.Rewrite.{lcore_round-balance}
use dpdk_for_beginners.Tests.Data.{udp_from}

abbrev burst : List Packet
burst = udp_from 1 ∷ udp_from 2 ∷ udp_from 3 ∷ udp_from 4 ∷ []

abbrev no_totals : Totals
no_totals = record { total_rx = 0; total_tx = 0; total_drop = 0 }

lcore_round-balance_example :
    let r = lcore_round little_endian plain_sums 3 initial no_totals burst in
    (r.1.total_rx ≡ (r.1.total_tx + r.1.total_drop) % 2 ^ 64)
    × (r.2 ++ r.3 ≡ (rewrite_all little_endian plain_sums initial burst).1)
    × (length r.2 ≡ 3)
lcore_round-balance_example =
    lcore_round-balance little_endian plain_sums 3 initial no_totals burst (omega arith) refl
