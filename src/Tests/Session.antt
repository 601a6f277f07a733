-- ===== src/Tests/Session.antt =====
-- Runs of the measurement of idle time: a clock of 10 ticks a second, and the 5 seconds of
-- nat_project/version3.
use dpdk_for_beginners.Base.{ℕ, List, [], ◌∷◌}
use dpdk_for_beginners.Dpdk.{HashTable}
use dpdk_for_beginners.Dpdk.Sample.{assoc}
use dpdk_for_beginners.StaticNat.{IpPortKey, IpPortKey-discrete}
use dpdk_for_beginners.Session.{Poll, burst, silence}

abbrev sources : HashTable IpPortKey ℕ
sources = assoc IpPortKey-discrete

-- a session that ends, and another one that goes on
abbrev turns : List Poll
turns = burst 1 2 ∷ silence 30 ∷ silence 60 ∷ burst 70 71 ∷ silence 100 ∷ []
