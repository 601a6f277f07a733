-- ===== src/GraphNodes/TwoStart.antt =====
-- How long the loops of graph/two_start_node/main.c and graph/node_sched/main.c run, and what they have
-- done then.
use dpdk_for_beginners.Base.{
  ℕ, ◌+◌, ◌/◌, ◌≡◌, Bool, List, [], ◌∷◌, leb, ltb, if◌then◌else◌, arith, ◌≤◌, Bool-cases, inl, inr,
  ◌∙◌, ap, ◌⊎◌,
}
use dpdk_for_beginners.GraphNodes.{
  Sources, idle, start_process, worker_process, walk, run, Sched, sched_walk,
}

abbrev pub one_if : Bool → ℕ
one_if b = if b then 1 else 0

-- how many allocations the pool has granted
abbrev pub granted : List (Bool × Bool) → ℕ
granted [] = 0
granted ((first, second) ∷ answers) = one_if first + one_if second + granted answers

-- between two walks
abbrev pub IsEven : Sources → Type 0
IsEven s = (s.freed ≡ s.total_prints) × (s.total_prints ≤ 10) × (s.waiting ≡ 0)

walk_lem :
    (first second : Bool) (s : Sources)
    → IsEven s
    → IsEven (walk first second s)
      × (let all = s.total_prints + (one_if first + one_if second) in
          ((walk first second s).total_prints ≡ all)
          ⊎ (((walk first second s).total_prints ≡ 10) × (10 ≤ all)))
unfolding walk start_process worker_process
walk_lem first second s h = ground arith

run-IsEven :
    (s : Sources) (answers : List (Bool × Bool))
    → IsEven s
    → IsEven (run s answers).0 × ((run s answers).1 ≡ leb 10 (s.total_prints + granted answers))
unfolding run
run-IsEven s [] h = (h, ap (leb 10) (omega arith))
run-IsEven s ((first, second) ∷ answers) h = elim (Bool-cases (ltb s.total_prints 10)) [
  | inr over ↦ rw over (h, ground arith)
  | inl more ↦
      let (e, c) = walk_lem first second s h in
      let (v, q) = run-IsEven (walk first second s) answers e in rw more (v, q ∙ ground (arith, c))
]

-- The loop ends exactly if the pool has granted ten packets, in any of the walks and to either of the sources;
-- then and after every walk before, as many packets have been freed as were printed, ten at most, and none is
-- waiting.
pub run-idle :
    (answers : List (Bool × Bool))
    → let r = run idle answers in
      (r.1 ≡ leb 10 (granted answers))
      × (r.0.freed ≡ r.0.total_prints)
      × (r.0.total_prints ≤ 10)
      × (r.0.waiting ≡ 0)
run-idle answers =
    let (v, q) = run-IsEven idle answers (omega arith) in
    (q ∙ ap (leb 10) (omega arith), v.0, v.1, v.2)

-- graph/node_sched/main.c: if the first node has run in half of the walks, rounded down, and the second in
-- the others, then so it is after one more.
sched_walk-halves :
    (s : Sched)
    → (s.dummy ≡ s.count / 2) × (s.dummy2 + s.dummy ≡ s.count)
    → let t = sched_walk s in
      (t.dummy ≡ t.count / 2) × (t.dummy2 + t.dummy ≡ t.count) × (t.count ≡ s.count + 1)
unfolding sched_walk
sched_walk-halves s h = ground arith
