-- ===== src/GraphNodes.antt =====
-- Smaller programs on the graph library: graph/two_start_node/main.c and graph/node_sched/main.c. In a walk the sources run first and then the nodes that
-- packets were enqueued to.
pub mod TwoStart
use dpdk_for_beginners.Base.{
  ℕ, suc, ◌+◌, ◌%◌, ◌/◌, ◌-◌, ◌≡◌, Bool, true, false, List, [], ◌∷◌, leb, ltb, ◌==◌, if◌then◌else◌,
  arith, zero, ◌≤◌, Bool-cases, inl, inr, ◌∙◌, ap,
}

-- graph/two_start_node: `total_prints`, the packets that wait for `worker`, and those that it has freed
pub record Sources : Type 0 where
  pub total_prints : ℕ
  pub waiting : ℕ
  pub freed : ℕ

abbrev pub idle : Sources
idle = record { total_prints = 0; waiting = 0; freed = 0 }

-- `start1_process` and `start2_process`, with the answer of `rte_pktmbuf_alloc`
unfoldable pub start_process : Bool → Sources → Sources
start_process allocated s =
    if leb 10 s.total_prints
    then s
    else if allocated
    then record s { total_prints = s.total_prints + 1; waiting = s.waiting + 1 }
    else s

unfoldable pub worker_process : Sources → Sources
worker_process s = record s { waiting = 0; freed = s.freed + s.waiting }

unfoldable pub walk : Bool → Bool → Sources → Sources
unfolding start_process worker_process
walk first second s = worker_process (start_process second (start_process first s))

-- `while (total_prints < 10)`, with the answers that are left, and whether it has ended
unfoldable pub run : Sources → List (Bool × Bool) → Sources × Bool
unfolding walk
run s [] = (s, leb 10 s.total_prints)
run s ((first, second) ∷ answers) =
    let rest = run (walk first second s) answers in
    if ltb s.total_prints 10 then rest else (s, true)

-- graph/node_sched: `count`, and how often each of the two nodes has run
pub record Sched : Type 0 where
  pub count : ℕ
  pub dummy : ℕ
  pub dummy2 : ℕ

-- a walk: `hello_node_process`, and then the node that it enqueued to
unfoldable pub sched_walk : Sched → Sched
sched_walk s =
    let count = s.count + 1 in
    if count % 2 == 0
    then record s { count = count; dummy = s.dummy + 1 }
    else record s { count = count; dummy2 = s.dummy2 + 1 }

-- `while (!force_quit && count < 10)`: for each walk whether a signal has come before it
unfoldable pub sched_run : Sched → List Bool → Sched
unfolding sched_walk
sched_run s [] = s
sched_run s (force_quit ∷ quits) =
    let rest = sched_run (sched_walk s) quits in
    if force_quit then s else if ltb s.count 10 then rest else s
