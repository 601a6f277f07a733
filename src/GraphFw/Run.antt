-- ===== src/GraphFw/Run.antt =====
-- The graph of dpdk-graph-fw under a command line that interferes: what the firewall lets through,
-- and what the counters say.
use dpdk_for_beginners.Base.{
  ℕ, ◌+◌, ◌%◌, ◌^◌, ◌≤◌, ◌<◌, ◌≡◌, refl, ap, inl, inr, Bool, true, false, List, [], ◌∷◌, ◌++◌, All,
  length, take, drop, take-append-drop, length-append, arith, Bool-cases,
}
use dpdk_for_beginners.GraphFw.Walk.{
  Mbuf, App, count_up, Outcome, passes, kept, dropped, tx_node_process, to_tx,
  firewall_node_process, enqueue_next, parser_node_process, rx_node_process,
}
use dpdk_for_beginners.GraphFw.Cli.{
  command, obey, Command, enable_firewall, disable_firewall, show_stats, quit, help,
}

-- `all` is what `some` and `others` make when they are put together, each in its order.
pub data Split : List Mbuf → List Mbuf → List Mbuf → Type 0 where
  done : Split [] [] []
  left : {xs ys zs : List Mbuf} (m : Mbuf) → Split xs ys zs → Split (m ∷ xs) (m ∷ ys) zs
  right : {xs ys zs : List Mbuf} (m : Mbuf) → Split xs ys zs → Split (m ∷ xs) ys (m ∷ zs)

kept-Split : (ms : List Mbuf) → Split ms (kept ms) (dropped ms)
unfolding kept dropped
kept-Split [] = done
kept-Split (m ∷ ms) = elim (Bool-cases (passes m)) [
  | inl y ↦ rw y (left m (kept-Split ms))
  | inr n ↦ rw n (right m (kept-Split ms))
]

kept-long : (ms : List Mbuf) → All (λ m. 60 ≤ m.pkt_len) (kept ms)
unfolding kept
kept-long [] = tt
kept-long (m ∷ ms) = elim (Bool-cases (passes m)) [
  | inl y ↦ rw y (ground arith, kept-long ms)
  | inr n ↦ rw n (kept-long ms)
]

dropped-short : (ms : List Mbuf) → All (λ m. m.pkt_len < 60) (dropped ms)
unfolding dropped
dropped-short [] = tt
dropped-short (m ∷ ms) = elim (Bool-cases (passes m)) [
  | inl y ↦ rw y (dropped-short ms)
  | inr n ↦ rw n (ground arith, dropped-short ms)
]

-- the packets that were handed to the port, taken or not
abbrev pub handed : Outcome → List Mbuf
handed o = o.sent ++ o.lost

to_tx-lists :
    (n : ℕ) (a : App) (ms fs : List Mbuf)
    → (handed (to_tx n a ms fs) ≡ ms) × ((to_tx n a ms fs).freed ≡ fs)
unfolding to_tx
to_tx-lists n a [] fs = (refl, refl)
to_tx-lists n a (m ∷ ms) fs = (take-append-drop n (m ∷ ms), refl)

-- what the firewall makes of a burst
abbrev pub Filters : List Mbuf → Outcome → Type 0
Filters ms o =
    Split ms (handed o) o.freed
    × All (λ m. 60 ≤ m.pkt_len) (handed o)
    × All (λ m. m.pkt_len < 60) o.freed

kept-Filters :
    (ms : List Mbuf) (o : Outcome) → handed o ≡ kept ms → o.freed ≡ dropped ms → Filters ms o
kept-Filters ms o s f = rw (s, f) (kept-Split ms, kept-long ms, dropped-short ms)

firewall-Filters : (n : ℕ) (a : App) (ms : List Mbuf) → Filters ms (firewall_node_process n a ms)
unfolding firewall_node_process
firewall-Filters n a ms =
    let b : App = record a { firewall_count = count_up a.firewall_count (length ms) } in
    let t = to_tx-lists n b (kept ms) (dropped ms) in
    kept-Filters ms (firewall_node_process n a ms) t.0 t.1

-- With the firewall on, a walk hands to the port the packets of the burst that have 60 bytes or more, in their
-- order, and frees the shorter ones.
pub walk-Filters :
    (n : ℕ) (a : App) (ms : List Mbuf)
    → a.firewall_enabled ≡ true
    → Filters ms (rx_node_process n a ms)
unfolding rx_node_process parser_node_process
walk-Filters n a [] h = (done, tt, tt)
walk-Filters n a (m ∷ ms) h = rw (h, enqueue_next) (firewall-Filters n _ (m ∷ ms))

-- With the firewall off, a walk hands the burst as it is to the port and frees nothing.
pub walk_open :
    (n : ℕ) (a : App) (ms : List Mbuf)
    → a.firewall_enabled ≡ false
    → (handed (rx_node_process n a ms) ≡ ms) × ((rx_node_process n a ms).freed ≡ [])
unfolding rx_node_process tx_node_process
walk_open n a [] h = (refl, refl)
walk_open n a (m ∷ ms) h = rw (h, enqueue_next) (take-append-drop n (m ∷ ms), refl)

-- A turn of one of the two threads: a walk over a burst, with how many packets the port would take, or a line
-- of the command line.
pub data Event : Type 0 where
  walk : ℕ → List Mbuf → Event
  line : List ℕ → Event

-- the loop of main.c and that of `run_cli` look at `app_running` first
unfoldable pub walk_if : Bool → ℕ → App → List Mbuf → Outcome
walk_if true n a ms = rx_node_process n a ms
walk_if false n a ms = record { app = a; sent = []; lost = []; freed = [] }

unfoldable pub obey_if : Bool → Command → App → App
obey_if true c a = obey c a
obey_if false c a = a

-- The events in their order, with all that was sent, lost and freed so far; after `quit` neither thread
-- does anything.
unfoldable pub step : Event → Outcome → Outcome
unfolding walk_if obey_if
step (walk n ms) o =
    let w = walk_if o.app.app_running n o.app ms in
    record {
      app = w.app;
      sent = o.sent ++ w.sent;
      lost = o.lost ++ w.lost;
      freed = o.freed ++ w.freed;
    }
step (line cmd) o = record o { app = obey_if o.app.app_running (command cmd) o.app }

unfoldable pub run : List Event → Outcome → Outcome
unfolding step
run [] o = o
run (e ∷ es) o = run es (step e o)

-- What the counters say of the packets so far, up to the wrap of `uint64_t`.
pub record Booked (a : App) (sent lost freed : ℕ) : Type 0 where
  pub received : a.rx_count ≡ (sent + lost + freed) % 2 ^ 64
  pub parsed : a.parser_count ≡ a.rx_count
  pub transmitted : a.tx_count ≡ (sent + lost) % 2 ^ 64

Split-length : {xs ys zs : List Mbuf} → Split xs ys zs → length xs ≡ length ys + length zs
Split-length done = refl
Split-length (left m s) = omega (arith, Split-length s)
Split-length (right m s) = omega (arith, Split-length s)

to_tx-tx_count :
    (n : ℕ) (a : App) (ms fs : List Mbuf)
    → a.tx_count < 2 ^ 64
    → let b = (to_tx n a ms fs).app in
      (b.tx_count ≡ (a.tx_count + length ms) % 2 ^ 64)
      × (b.rx_count ≡ a.rx_count)
      × (b.parser_count ≡ a.parser_count)
unfolding to_tx
to_tx-tx_count n a [] fs h = (omega arith, refl, refl)
to_tx-tx_count n a (m ∷ ms) fs h = (refl, refl, refl)

firewall-counts :
    (n : ℕ) (a : App) (ms : List Mbuf)
    → a.tx_count < 2 ^ 64
    → let o = firewall_node_process n a ms in
      (o.app.tx_count ≡ (a.tx_count + length (handed o)) % 2 ^ 64)
      × (o.app.rx_count ≡ a.rx_count)
      × (o.app.parser_count ≡ a.parser_count)
      × (length ms ≡ length (handed o) + length o.freed)
unfolding firewall_node_process
firewall-counts n a ms h =
    let b : App = record a { firewall_count = count_up a.firewall_count (length ms) } in
    let t = to_tx-lists n b (kept ms) (dropped ms) in
    let c = to_tx-tx_count n b (kept ms) (dropped ms) h in
    (omega (arith, c.0, ap length t.0), c.1, c.2, Split-length (firewall-Filters n a ms).0)

-- the books after an outcome
abbrev Adds : ℕ → ℕ → ℕ → Outcome → Type 0
Adds s l f o = Booked o.app (s + length o.sent) (l + length o.lost) (f + length o.freed)

module _ (n : ℕ) where
  enqueue_next-Booked :
      (on : Bool) (a b : App) (ms : List Mbuf) (s l f : ℕ)
      → Booked a s l f
      → b.rx_count ≡ count_up a.rx_count (length ms)
      → b.parser_count ≡ count_up a.parser_count (length ms)
      → b.tx_count ≡ a.tx_count
      → Adds s l f (enqueue_next n on b ms)
  unfolding enqueue_next tx_node_process
  enqueue_next-Booked true a b ms s l f v r p t =
      let c = firewall-counts n b ms (omega (arith, v.transmitted)) in
      let o = firewall_node_process n b ms in
      let k = length-append o.sent o.lost in
      omega (arith, c, k, v.received, v.parsed, v.transmitted)
  enqueue_next-Booked false a b ms s l f v r p t =
      let k = length-append (take n ms) (drop n ms) in
      let w = ap length (take-append-drop n ms) in
      omega (arith, k, w, v.received, v.parsed, v.transmitted)

  walk-Booked :
      (a : App) (ms : List Mbuf) (s l f : ℕ) → Booked a s l f → Adds s l f (rx_node_process n a ms)
  unfolding rx_node_process parser_node_process
  walk-Booked a [] s l f v = omega (arith, v.received, v.parsed, v.transmitted)
  walk-Booked a (m ∷ ms) s l f v =
      enqueue_next-Booked a.firewall_enabled a _ (m ∷ ms) s l f v refl refl refl

  walk_if-Booked :
      (on : Bool) (a : App) (ms : List Mbuf) (s l f : ℕ)
      → Booked a s l f
      → Adds s l f (walk_if on n a ms)
  unfolding walk_if
  walk_if-Booked true a ms s l f v = walk-Booked a ms s l f v
  walk_if-Booked false a ms s l f v = omega (arith, v.received, v.parsed, v.transmitted)

obey-counts :
    (on : Bool) (c : Command) (a : App) (s l f : ℕ) → Booked a s l f → Booked (obey_if on c a) s l f
unfolding obey_if obey
obey-counts true enable_firewall a s l f v = omega (arith, v.received, v.parsed, v.transmitted)
obey-counts true disable_firewall a s l f v = omega (arith, v.received, v.parsed, v.transmitted)
obey-counts true show_stats a s l f v = v
obey-counts true quit a s l f v = omega (arith, v.received, v.parsed, v.transmitted)
obey-counts true help a s l f v = v
obey-counts false c a s l f v = v

-- the books, by the packets of an outcome
abbrev pub InOrder : Outcome → Type 0
InOrder o = Booked o.app (length o.sent) (length o.lost) (length o.freed)

step-Booked : (e : Event) (o : Outcome) → InOrder o → InOrder (step e o)
unfolding step
step-Booked (walk n ms) o v =
    rw (length-append, length-append, length-append)
      (walk_if-Booked n o.app.app_running o.app ms (length o.sent) (length o.lost) (length o.freed)
        v)
step-Booked (line cmd) o v = obey-counts o.app.app_running (command cmd) o.app _ _ _ v

-- If the books are right at first, then, whatever the two threads do and in whatever order, and however many
-- packets the port takes in each walk, the counters of the receiving and of the parsing node are the number of
-- packets sent, lost and freed, and that of the sending node, up to the wrap of the counters, the number of those
-- sent or lost: it counts the packets that the port did not take as well.
pub run-Booked : (es : List Event) (o : Outcome) → InOrder o → InOrder (run es o)
unfolding run
run-Booked [] o v = v
run-Booked (e ∷ es) o v = run-Booked es (step e o) (step-Booked e o v)
