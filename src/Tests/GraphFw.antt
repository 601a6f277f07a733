-- ===== src/Tests/GraphFw.antt =====
-- Runs of dpdk-graph-fw: bursts and lines of the command line.
use dpdk_for_beginners.Base.{refl, true, List, [], ◌∷◌}
use dpdk_for_beginners.GraphFw.Walk as Walk
use dpdk_for_beginners.GraphFw.Cli.{codes}
use dpdk_for_beginners.GraphFw.Run.{Event, walk, line, run, InOrder, run-Booked}

abbrev frames : List Walk.Mbuf
frames = record { pkt_len = 1500; bytes = [] } ∷ record { pkt_len = 42; bytes = [] } ∷ []

abbrev guarded : Walk.App
guarded = record Walk.start { firewall_enabled = true }

abbrev at_start : Walk.Outcome
at_start = record { app = Walk.start; sent = []; lost = []; freed = [] }

-- the port takes one packet of the first burst only
abbrev events : List Event
events =
    walk 1 frames
    ∷ line (codes "enable firewall")
    ∷ walk 2 frames
    ∷ line (codes "quit")
    ∷ walk 2 frames
    ∷ []

run-Booked_example : InOrder (run events at_start)
run-Booked_example =
    run-Booked events at_start (record { received = refl; parsed = refl; transmitted = refl })
