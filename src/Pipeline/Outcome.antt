-- ===== src/Pipeline/Outcome.antt =====
-- What a walk of the graph does with a burst, in whichever order the nodes run.
use dpdk_for_beginners.Base.{
  ℕ, zero, suc, ◌+◌, ◌≡◌, ◌⊎◌, inl, inr, refl, Bool, List, [], ◌∷◌, All, All-append, All-take, take,
  drop, count, count-append, arith, ap, ◌∙◌, Bool-cases, ==_iff, ◌==◌,
}
use dpdk_for_beginners.Frame.{Memory, be16_at}
use dpdk_for_beginners.Pipeline.{
  Graph, sort_out, l2_node_process, ipv4_node_process, ipv6_node_process, tx_node_process,
  drop_node_process, rx_node_process, Step, run_l2, run_ipv4, run_ipv6, run_tx, run_drop, Walk,
  stop, and_then,
}

-- how many packets for which a test holds there are in the graph, the sent and the freed ones included
abbrev total : (Memory → Bool) → Graph → ℕ
total c g =
    count c g.l2
    + count c g.ipv4
    + count c g.ipv6
    + count c g.tx
    + count c g.drop_pending
    + count c g.sent
    + count c g.freed

sort_out-count :
    (c : Memory → Bool) (ms : List Memory)
    → count c (sort_out ms).v4 + count c (sort_out ms).v6 + count c (sort_out ms).d ≡ count c ms
unfolding sort_out
sort_out-count c [] = refl
sort_out-count c (m ∷ ms) = ground (arith, sort_out-count c ms)

count-take-drop :
    (c : Memory → Bool) (n : ℕ) (ms : List Memory)
    → count c (take n ms) + count c (drop n ms) ≡ count c ms
count-take-drop c zero ms = omega arith
count-take-drop c (suc n) [] = refl
count-take-drop c (suc n) (m ∷ ms) = ground (arith, count-take-drop c n ms)

Step-total : (c : Memory → Bool) {g h : Graph} → Step g h → total c h ≡ total c g
unfolding l2_node_process ipv4_node_process ipv6_node_process tx_node_process drop_node_process
Step-total c (run_l2 g p) = omega (
  arith,
  sort_out-count c g.l2,
  count-append c g.ipv4 (sort_out g.l2).v4,
  count-append c g.ipv6 (sort_out g.l2).v6,
  count-append c g.drop_pending (sort_out g.l2).d,
)
Step-total c (run_ipv4 g p) = omega (arith, count-append c g.tx g.ipv4)
Step-total c (run_ipv6 g p) = omega (arith, count-append c g.tx g.ipv6)
Step-total c (run_tx g n p q) = omega (
  arith,
  count-append c g.sent (take n g.tx),
  count-append c g.freed (drop n g.tx),
  count-take-drop c n g.tx,
)
Step-total c (run_drop g p) = omega (arith, count-append c g.freed g.drop_pending)

Walk-total : (c : Memory → Bool) {n : ℕ} {g h : Graph} → Walk n g h → total c h ≡ total c g
Walk-total c stop = refl
Walk-total c (and_then s w) = Walk-total c w ∙ Step-total c s

abbrev pub IsIp : Memory → Type 0
IsIp m = (be16_at m 12 ≡ 0x0800) ⊎ (be16_at m 12 ≡ 0x86dd)

-- behind the branches there are IP packets only
abbrev OnlyIp : Graph → Type 0
OnlyIp g = All IsIp g.ipv4 × All IsIp g.ipv6 × All IsIp g.tx × All IsIp g.sent

sort_out-IsIp : (ms : List Memory) → All IsIp (sort_out ms).v4 × All IsIp (sort_out ms).v6
unfolding sort_out
sort_out-IsIp [] = (tt, tt)
sort_out-IsIp (m ∷ ms) =
    let (a, b) = sort_out-IsIp ms in
    elim (Bool-cases (be16_at m 12 == 0x0800)) [
      | inl y ↦ rw y ((inl ((==_iff _ 0x0800).0 y), a), b)
      | inr n ↦ elim (Bool-cases (be16_at m 12 == 0x86dd)) [
        | inl y ↦ rw (n, y) (a, (inr ((==_iff _ 0x86dd).0 y), b))
        | inr k ↦ rw (n, k) (a, b)
      ]
    ]

Step-OnlyIp : {g h : Graph} → Step g h → OnlyIp g → OnlyIp h
unfolding l2_node_process ipv4_node_process ipv6_node_process tx_node_process drop_node_process
Step-OnlyIp (run_l2 g p) (a, b, c, d) =
    let (v4, v6) = sort_out-IsIp g.l2 in
    (All-append IsIp g.ipv4 _ a v4, All-append IsIp g.ipv6 _ b v6, c, d)
Step-OnlyIp (run_ipv4 g p) (a, b, c, d) = (tt, b, All-append IsIp g.tx _ c a, d)
Step-OnlyIp (run_ipv6 g p) (a, b, c, d) = (a, tt, All-append IsIp g.tx _ c b, d)
Step-OnlyIp (run_tx g n p q) (a, b, c, d) =
    (a, b, tt, All-append IsIp g.sent _ d (All-take IsIp n g.tx c))
Step-OnlyIp (run_drop g p) (a, b, c, d) = (a, b, c, d)

Walk-OnlyIp : {n : ℕ} {g h : Graph} → Walk n g h → OnlyIp g → OnlyIp h
Walk-OnlyIp stop v = v
Walk-OnlyIp (and_then s w) v = Walk-OnlyIp w (Step-OnlyIp s v)

-- Nothing is pending.
abbrev pub IsIdle : Graph → Type 0
IsIdle g = (g.l2 ≡ []) × (g.ipv4 ≡ []) × (g.ipv6 ≡ []) × (g.tx ≡ []) × (g.drop_pending ≡ [])

-- At the end of a walk, in whichever order the nodes ran, each packet of the burst has been sent or
-- freed, none of them lost or used twice: for every test, as many packets of the burst meet it as
-- sent and freed ones together. Those sent are IPv4 or IPv6.
pub walk_outcome :
    (pkts : List Memory) {n : ℕ} {h : Graph}
    → Walk n (rx_node_process pkts) h
    → IsIdle h
    → ((c : Memory → Bool) → count c h.sent + count c h.freed ≡ count c pkts) × All IsIp h.sent
unfolding rx_node_process
walk_outcome pkts {h = h} w (a, b, c, d, e) = (balanced, (Walk-OnlyIp w (tt, tt, tt, tt)).3)
  where
    balanced : (c : Memory → Bool) → count c h.sent + count c h.freed ≡ count c pkts
    balanced k = omega (
      arith,
      Walk-total k w,
      ap (count k) a,
      ap (count k) b,
      ap (count k) c,
      ap (count k) d,
      ap (count k) e,
    )
