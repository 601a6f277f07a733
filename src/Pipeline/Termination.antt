-- ===== src/Pipeline/Termination.antt =====
-- A walk of the graph ends.
use dpdk_for_beginners.Base.{
  ℕ, ◌+◌, ◌*◌, ◌≤◌, ◌<◌, ◌≡◌, ◌≢◌, ◌⊎◌, inl, inr, refl, List, [], ◌∷◌, length, length-append, arith,
}
use dpdk_for_beginners.Frame.{Memory}
use dpdk_for_beginners.Pipeline.{
  Graph, sort_out, l2_node_process, ipv4_node_process, ipv6_node_process, tx_node_process,
  drop_node_process, rx_node_process, Step, run_l2, run_ipv4, run_ipv6, run_tx, run_drop, Walk,
  stop, and_then,
}
use dpdk_for_beginners.Pipeline.Outcome.{IsIdle}

-- how many nodes the pending packets still have before them
abbrev ahead : Graph → ℕ
ahead g =
    3 * length g.l2 + 2 * length g.ipv4 + 2 * length g.ipv6 + length g.tx + length g.drop_pending

nonempty : (ms : List Memory) → ms ≢ [] → 0 < length ms
nonempty [] p = absurd (p refl)
nonempty (m ∷ ms) p = omega arith

length-sort_out :
    (ms : List Memory)
    → length (sort_out ms).v4 + length (sort_out ms).v6 + length (sort_out ms).d ≡ length ms
unfolding sort_out
length-sort_out [] = refl
length-sort_out (m ∷ ms) = ground (arith, length-sort_out ms)

Step-ahead : {g h : Graph} → Step g h → ahead h < ahead g
unfolding l2_node_process ipv4_node_process ipv6_node_process tx_node_process drop_node_process
Step-ahead (run_l2 g p) = omega (
  arith,
  nonempty g.l2 p,
  length-sort_out g.l2,
  length-append g.ipv4 (sort_out g.l2).v4,
  length-append g.ipv6 (sort_out g.l2).v6,
  length-append g.drop_pending (sort_out g.l2).d,
)
Step-ahead (run_ipv4 g p) = omega (arith, nonempty g.ipv4 p, length-append g.tx g.ipv4)
Step-ahead (run_ipv6 g p) = omega (arith, nonempty g.ipv6 p, length-append g.tx g.ipv6)
Step-ahead (run_tx g n p q) = omega (arith, nonempty g.tx p)
Step-ahead (run_drop g p) = omega (arith, nonempty g.drop_pending p)

Walk-ahead : {n : ℕ} {g h : Graph} → Walk n g h → n + ahead h ≤ ahead g
Walk-ahead stop = omega arith
Walk-ahead (and_then s w) = omega (arith, Step-ahead s, Walk-ahead w)

empty_or : (ms : List Memory) → (ms ≡ []) ⊎ (ms ≢ [])
empty_or [] = inl refl
empty_or (m ∷ ms) = inr (λ e. cc)

-- Either nothing is pending or a node can run.
progress : (g : Graph) → IsIdle g ⊎ ((h : Graph) × Step g h)
progress g = elim (empty_or g.l2) [
  | inr p ↦ inr (_, run_l2 g p)
  | inl a ↦ elim (empty_or g.ipv4) [
    | inr p ↦ inr (_, run_ipv4 g p)
    | inl b ↦ elim (empty_or g.ipv6) [
      | inr p ↦ inr (_, run_ipv6 g p)
      | inl c ↦ elim (empty_or g.tx) [
        | inr p ↦ inr (_, run_tx g 0 p (omega arith))
        | inl d ↦ elim (empty_or g.drop_pending) [
          | inr p ↦ inr (_, run_drop g p)
          | inl e ↦ inl (a, b, c, d, e)
        ]
      ]
    ]
  ]
]

-- A walk ends: nodes run three times at most for each packet of the burst, and as long as the walk
-- has not come to the end, where nothing is pending, a node can run.
pub walk_ends :
    (pkts : List Memory) {n : ℕ} {h : Graph}
    → Walk n (rx_node_process pkts) h
    → (n ≤ 3 * length pkts) × (IsIdle h ⊎ ((k : Graph) × Step h k))
unfolding rx_node_process
walk_ends pkts {h = h} w = (omega (arith, Walk-ahead w), progress h)
