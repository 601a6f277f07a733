-- ===== src/Ports/Rss.antt =====
-- rss_dpdk/main.c and rss_dpdk/af_packet_rss/main.c: a port with several receive queues, over which the
-- hardware spreads the packets, and the cores that poll them.
use dpdk_for_beginners.Base.{
  ℕ, zero, suc, ◌+◌, ◌-◌, ◌≤◌, ◌≡◌, ◌↔◌, ◌⊎◌, ap, subst, refl, true, false, some, List, [], ◌∷◌,
  ◌++◌, length, ltb, leb, ◌==◌, if◌then◌else◌, arith, Bool-cases, inl, inr,
}
use dpdk_for_beginners.Ports.{
  dev_info_get, dev_start, dev_configure, rx_queue_setup, fresh, has, has_all, Stmt, must, may,
  Driver, allowed, apply, run,
}
use dpdk_for_beginners.Ports.Order.{is_orderly, IsSafe, run-IsSafe, &&-split}

-- `for (q = 0; q < n; q++)` with `left` queues to go, and what follows it
abbrev pub rx_queues : ℕ → ℕ → List Stmt → List Stmt
rx_queues zero q rest = rest
rx_queues (suc left) q rest = must (rx_queue_setup q 1024) ∷ rx_queues left (suc q) rest

-- rss_dpdk/main.c, RX_QUEUES
abbrev pub static_queues : ℕ
static_queues = 4

unfoldable pub static_rss_port : List Stmt
static_rss_port =
    must (dev_configure static_queues 0) ∷ rx_queues static_queues 0 (must dev_start ∷ [])

-- af_packet_rss/main.c: `lcore_count` is the number of cores, of which one is the main core, and there
-- is always one
unfoldable pub used_rx_queues : ℕ → ℕ → ℕ
used_rx_queues lcore_count max_rx_queues =
    let desired = lcore_count - 1 in
    let desired_queues = if desired == 0 then 1 else desired in
    let used = if ltb desired_queues max_rx_queues then desired_queues else max_rx_queues in
    if used == 0 then 1 else used

unfoldable pub af_packet_rss_port : ℕ → List Stmt
af_packet_rss_port used =
    may dev_info_get ∷ must (dev_configure used 0) ∷ rx_queues used 0 (must dev_start ∷ [])

-- `RTE_LCORE_FOREACH_WORKER`: the queues that the workers are launched with, from `q` on, and where `q`
-- then stands
abbrev pub launch : ℕ → ℕ → ℕ → List ℕ × ℕ
launch zero q used = ([], q)
launch (suc workers) q used =
    let rest = launch workers (suc q) used in if leb used q then ([], q) else (q ∷ rest.0, rest.1)

-- All queues that are polled: the main core takes one more if there is one left, and does not return.
unfoldable pub polled : ℕ → ℕ → List ℕ
polled workers used =
    let (qs, q) = launch workers 0 used in if ltb q used then qs ++ (q ∷ []) else qs

-- the queues from `q` on
abbrev pub upto : ℕ → ℕ → List ℕ
upto zero q = []
upto (suc n) q = q ∷ upto n (suc q)

upto-append : (n q r : ℕ) → r ≡ q + n → upto n q ++ (r ∷ []) ≡ upto (suc n) q
upto-append zero q r e = ap (λ x. x ∷ []) (omega arith)
upto-append (suc n) q r e = ap (◌∷◌ q) (upto-append n (suc q) r (omega arith))

length-upto : (n q : ℕ) → length (upto n q) ≡ n
length-upto zero q = refl
length-upto (suc n) q = omega (arith, length-upto n (suc q))

launch-upto :
    (workers q used : ℕ)
    → q ≤ used
    → (n : ℕ) × ((launch workers q used).0 ≡ upto n q)
      × ((launch workers q used).1 ≡ q + n)
      × (q + n ≤ used)
      × (n ≤ workers)
      × ((q + n ≡ used) ⊎ (n ≡ workers))
launch-upto zero q used h = (0, refl, omega arith, omega arith, omega arith, inr refl)
launch-upto (suc workers) q used h = elim (Bool-cases (leb used q)) [
  | inl over ↦
      (0, rw over refl, rw over (omega arith), omega arith, omega arith, inl (ground arith))
  | inr more ↦
      let (n, e, f, a, b, c) = launch-upto workers (suc q) used (ground arith) in
      (suc n, rw more (ap (◌∷◌ q) e), rw more (omega arith), omega arith, omega arith, ground arith)
]

-- The polled queues are the first ones, each polled by one core: all of them, or one for each worker and one
-- for the main core.
polled-upto :
    (workers used : ℕ)
    → (n : ℕ) × (polled workers used ≡ upto n 0)
      × (n ≤ used)
      × (n ≤ suc workers)
      × ((n ≡ used) ⊎ (n ≡ suc workers))
unfolding polled
polled-upto workers used =
    let (n, e, f, a, b, c) = launch-upto workers 0 used (omega arith) in
    let g : (launch workers 0 used).1 ≡ n = omega arith in
    elim (Bool-cases (ltb n used)) [
      | inl room ↦ (
        suc n,
        rw (e, g, room) (upto-append n 0 n (omega arith)),
        ground arith,
        ground arith,
        ground arith,
      )
      | inr full ↦ (n, rw (e, g, full) refl, omega arith, omega arith, ground arith)
    ]

has_all-cons : (n x : ℕ) (xs : List ℕ) → has_all n xs ≡ true → has_all n (x ∷ xs) ≡ true
has_all-cons zero x xs h = refl
has_all-cons (suc n) x xs h =
    let (a, r) = &&-split (has n xs) _ h in rw (has_all-cons n x xs r, a) (ground arith)

rx_queues-orderly :
    (left q n : ℕ) (ready : List ℕ)
    → q + left ≡ n
    → has_all q ready ≡ true
    → is_orderly
        (rx_queues left q (must dev_start ∷ []))
        (record { queues = some (n, 0); rx_ready = ready; tx_ready = []; started = false })
      ≡ true
unfolding allowed apply
rx_queues-orderly zero q n ready e h =
    let same : q ≡ n = omega arith in
    let all : has_all n ready ≡ true = subst (λ k. has_all k ready ≡ true) same h in rw (all) refl
rx_queues-orderly (suc left) q n ready e h =
    let below : ltb q n ≡ true = ground arith in
    let more : has_all (suc q) (q ∷ ready) ≡ true = rw (has_all-cons q q ready h) (ground arith) in
    rw (below, rx_queues-orderly left (suc q) n (q ∷ ready) (omega arith) more) refl

used_rx_queues-bounds :
    (lcore_count max_rx_queues : ℕ)
    → let used = used_rx_queues lcore_count max_rx_queues in
      (1 ≤ used) × ((used ≡ 1) ⊎ (used ≤ lcore_count - 1)) × ((used ≡ 1) ⊎ (used ≤ max_rx_queues))
unfolding used_rx_queues
used_rx_queues-bounds lcore_count max_rx_queues = ground arith

-- af_packet_rss/main.c: whatever the driver answers and however many queues it offers, the set-up keeps to the
-- order of rte_ethdev.h; at least one queue is used, no more than one or than the driver offers, and of
-- the cores, one main core and the others workers, each queue has one that polls it.
pub af_packet_rss_lem :
    (fails : Driver) (workers max_rx_queues : ℕ)
    → let used = used_rx_queues (suc workers) max_rx_queues in
      IsSafe fails (run fails (af_packet_rss_port used) fresh)
      × (1 ≤ used)
      × ((used ≡ 1) ⊎ (used ≤ max_rx_queues))
      × (polled workers used ≡ upto used 0)
unfolding af_packet_rss_port allowed apply
af_packet_rss_lem fails workers max_rx_queues =
    let used = used_rx_queues (suc workers) max_rx_queues in
    let (low, few, offered) = used_rx_queues-bounds (suc workers) max_rx_queues in
    let (n, e, a, b, c) = polled-upto workers used in
    let orderly = rx_queues-orderly used 0 used [] (omega arith) refl in
    let all : n ≡ used = ground arith in
    (
      run-IsSafe fails (af_packet_rss_port used) fresh orderly,
      low,
      offered,
      subst (λ k. polled workers used ≡ upto k 0) all e,
    )

-- rss_dpdk/main.c: the set-up keeps to the order of rte_ethdev.h, and all four queues are polled exactly
-- if there are three workers or more.
pub static_rss_iff :
    (fails : Driver) (workers : ℕ)
    → IsSafe fails (run fails static_rss_port fresh)
      × ((polled workers static_queues ≡ upto static_queues 0) ↔ (3 ≤ workers))
unfolding static_rss_port allowed apply
static_rss_iff fails workers =
    let (n, e, a, b, c) = polled-upto workers static_queues in
    (
      run-IsSafe fails static_rss_port fresh refl,
      (
        (λ q. let four : n ≡ 4 = cc (length-upto n 0, length-upto 4 0, e, q) in ground arith),
        (λ h.
            let all : n ≡ 4 = ground arith in
            subst (λ k. polled workers static_queues ≡ upto k 0) all e),
      ),
    )
