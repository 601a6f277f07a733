-- ===== src/Ports/Unchecked.antt =====
-- The set-ups of a port that do not look at the results of their calls, and one that leaves a queue out.
use dpdk_for_beginners.Base.{ℕ, ◌≡◌, refl, true, false, List, [], ◌∷◌, All}
use dpdk_for_beginners.Ports.{
  dev_start, promiscuous_enable, dev_configure, rx_queue_setup, tx_queue_setup, fresh, Stmt, must,
  may, Driver, misused, run, perform, allowed, apply,
}

-- NAT/static_nat/main.c
abbrev pub static_nat_port : List Stmt
static_nat_port =
    may (dev_configure 1 1)
    ∷ may (rx_queue_setup 0 1024)
    ∷ may (tx_queue_setup 0 1024)
    ∷ may dev_start
    ∷ may promiscuous_enable
    ∷ []

-- dpdk-graph-fw/main.c
abbrev pub graph_fw_port_init : List Stmt
graph_fw_port_init =
    may (dev_configure 1 1)
    ∷ may (rx_queue_setup 0 1024)
    ∷ may (tx_queue_setup 0 1024)
    ∷ may dev_start
    ∷ []

-- eventdev/parsing_event/main.c
abbrev pub parsing_event_port : List Stmt
parsing_event_port =
    may (dev_configure 1 1)
    ∷ may (rx_queue_setup 0 1024)
    ∷ may (tx_queue_setup 0 1024)
    ∷ may dev_start
    ∷ may promiscuous_enable
    ∷ []

-- graph/pipeline/pipeline.c
abbrev pub pipeline_port : List Stmt
pipeline_port =
    may (dev_configure 1 1)
    ∷ may (rx_queue_setup 0 1024)
    ∷ may (tx_queue_setup 0 1024)
    ∷ may dev_start
    ∷ []

-- graph/rx_drop_sample/sample/main.c
abbrev pub rx_drop_port : List Stmt
rx_drop_port =
    may (dev_configure 1 1)
    ∷ may (rx_queue_setup 0 1024)
    ∷ may (tx_queue_setup 0 1024)
    ∷ may dev_start
    ∷ []

-- ports/begin/dpdk_tun_echo.c
abbrev pub tun_echo_port : List Stmt
tun_echo_port =
    may (dev_configure 1 1)
    ∷ may (rx_queue_setup 0 1024)
    ∷ may (tx_queue_setup 0 1024)
    ∷ may dev_start
    ∷ []

-- rxtx_callbacks/sample/simple.c
abbrev pub rx_callback_port : List Stmt
rx_callback_port =
    may (dev_configure 1 1)
    ∷ may (rx_queue_setup 0 128)
    ∷ may (tx_queue_setup 0 128)
    ∷ may dev_start
    ∷ []

-- prefetch/demo/main.c
abbrev pub prefetch_demo_port : List Stmt
prefetch_demo_port = may (dev_configure 1 0) ∷ may (rx_queue_setup 0 1024) ∷ may dev_start ∷ []

-- prefetch/wrong/main.c
abbrev pub prefetch_wrong_port : List Stmt
prefetch_wrong_port = may (dev_configure 1 0) ∷ may (rx_queue_setup 0 1024) ∷ may dev_start ∷ []

abbrev pub unchecked : List (List Stmt)
unchecked =
    static_nat_port ∷ graph_fw_port_init ∷ parsing_event_port ∷ pipeline_port ∷ rx_drop_port
    ∷ tun_echo_port ∷ rx_callback_port ∷ prefetch_demo_port ∷ prefetch_wrong_port ∷ []

refused :
    (fails : Driver) (r t q n : ℕ) (rest : List Stmt)
    → fails (dev_configure r t) ≡ true
    → run fails (may (dev_configure r t) ∷ may (rx_queue_setup q n) ∷ rest) fresh
      ≡ misused (rx_queue_setup q n)
unfolding run perform allowed apply
refused fails r t q n rest h = rw h refl

-- Where the driver refuses to configure the port, each of these goes on to set up a queue of it.
pub unchecked_misused :
    (fails : Driver)
    → fails (dev_configure 1 1) ≡ true
    → fails (dev_configure 1 0) ≡ true
    → All (λ ss. (q n : ℕ) × (run fails ss fresh ≡ misused (rx_queue_setup q n))) unchecked
unchecked_misused fails h k =
    let r = refused fails in
    (
      (_, _, r 1 1 0 1024 _ h),
      (
        (_, _, r 1 1 0 1024 _ h),
        (
          (_, _, r 1 1 0 1024 _ h),
          (
            (_, _, r 1 1 0 1024 _ h),
            (
              (_, _, r 1 1 0 1024 _ h),
              (
                (_, _, r 1 1 0 1024 _ h),
                (
                  (_, _, r 1 1 0 128 _ h),
                  ((_, _, r 1 0 0 1024 _ k), ((_, _, r 1 0 0 1024 _ k), tt)),
                ),
              ),
            ),
          ),
        ),
      ),
    )

-- reordering/rx_burst/main.c
abbrev pub rx_burst_init_port : List Stmt
rx_burst_init_port = must (dev_configure 1 1) ∷ must (rx_queue_setup 0 1024) ∷ must dev_start ∷ []

-- One transmit queue is configured and none set up, so the port is started too early even where every call
-- succeeds.
pub rx_burst_misused : run (λ c. false) rx_burst_init_port fresh ≡ misused dev_start
unfolding run perform allowed apply
rx_burst_misused = refl
