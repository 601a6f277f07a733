-- ===== src/Threads/Order.antt =====
-- The threads keep the order of the packets, and lose track of none but those that a full ring refuses
-- to `rx_loop`.
use mathlib.Core.List.{append_assoc, Sublist, nil-sublist}
use mathlib.Core.List.Sublist
use dpdk_for_beginners.Base.{
  ℕ, ◌+◌, ◌≡◌, refl, sym, ap, subst, ◌∙◌, Bool, true, false, List, [], ◌∷◌, ◌++◌, take, drop, count,
  count-append, take-append-drop, arith, leb, Bool-cases, inl, inr,
}
use dpdk_for_beginners.Frame.{Memory}
use dpdk_for_beginners.Threads.{
  Threads, polling, rx_burst, rx_enqueue, rx_test, parser_dequeue, parser_enqueue, tx_dequeue,
  tx_send, Step, rx_polls, rx_enqueues, rx_tests, parser_dequeues, parser_enqueues, tx_dequeues,
  tx_sends, Reach, begin, next,
}

-- the packets on their way, those that came first in front
abbrev pub flow : Threads → List Memory
flow t =
    t.sent
    ++ (t.tx_pkts ++ (t.ring_parse_to_tx ++ (t.parser_pkts ++ (t.ring_rx_to_parse ++ t.rx_pkts))))

after : (xs : List Memory) {ys zs : List Memory} → Sublist ys zs → Sublist (xs ++ ys) (xs ++ zs)
after xs s = Sublist.append (Sublist.refl xs) s

-- Splitting a list in two and passing over the second part.
take_only : (n : ℕ) (xs ys : List Memory) → Sublist (take n xs ++ ys) (xs ++ ys)
take_only n xs ys =
    subst (λ zs. Sublist (take n xs ++ ys) (zs ++ ys)) (take-append-drop n xs)
      (rw (append_assoc (take n xs) (drop n xs) ys)
        (after (take n xs) (Sublist.append (nil-sublist (drop n xs)) (Sublist.refl ys))))

-- A list cut in two.
cut : (n : ℕ) (xs ys : List Memory) → take n xs ++ (drop n xs ++ ys) ≡ xs ++ ys
cut n xs ys =
    sym (append_assoc (take n xs) (drop n xs) ys) ∙ ap (λ zs. zs ++ ys) (take-append-drop n xs)

-- A part of a list of packets that goes through, before what comes behind it.
pass :
    (a : List Memory) (n : ℕ) (p rest : List Memory)
    → Sublist ((a ++ take n p) ++ rest) (a ++ (p ++ rest))
pass a n p rest = rw (append_assoc a (take n p) rest) (after a (take_only n p rest))

-- A burst comes behind all the packets on their way.
more :
    (a b c d e xs : List Memory)
    → a ++ (b ++ (c ++ (d ++ (e ++ xs)))) ≡ (a ++ (b ++ (c ++ (d ++ (e ++ []))))) ++ xs
more a b c d e xs =
    rw
      (
        append_assoc a (b ++ (c ++ (d ++ (e ++ [])))) xs,
        append_assoc b (c ++ (d ++ (e ++ []))) xs,
        append_assoc c (d ++ (e ++ [])) xs,
        append_assoc d (e ++ []) xs,
        append_assoc e [] xs,
      )
      refl

-- At the top of the loop of `rx_loop` the whole burst has been dealt with.
abbrev Between : Threads → Type 0
Between t = t.phase ≡ polling → t.rx_pkts ≡ []

Step-Between : {t u : Threads} → Step t u → Between t → Between u
unfolding rx_burst rx_enqueue rx_test parser_dequeue parser_enqueue tx_dequeue tx_send
Step-Between (rx_polls t pkts p q l) b e = cc
Step-Between (rx_enqueues t true m ms p q) b e = cc
Step-Between (rx_enqueues t false m ms p q) b e = cc
Step-Between (rx_tests t p q) b e = elim (Bool-cases (leb 10 t.rx_count)) [
  | inl y ↦ rw y q
  | inr n ↦ rw n q
]
Step-Between (parser_dequeues t n p q l) b e = b e
Step-Between (parser_enqueues t m p) b e = b e
Step-Between (tx_dequeues t n p q l) b e = b e
Step-Between (tx_sends t n p) b e = b e

-- What a step does to the packets on their way: a burst comes behind them, or some are left out.
Step-flow :
    {t u : Threads} → Step t u → Between t → Sublist (flow t) t.arrived → Sublist (flow u) u.arrived
unfolding rx_burst rx_enqueue rx_test parser_dequeue parser_enqueue tx_dequeue tx_send
Step-flow (rx_polls t pkts p q l) b s =
    rw (more t.sent t.tx_pkts t.ring_parse_to_tx t.parser_pkts t.ring_rx_to_parse pkts)
      (Sublist.append (rw (b p) at s) (Sublist.refl pkts))
Step-flow (rx_enqueues t true m ms p q) b s =
    rw (append_assoc t.ring_rx_to_parse (m ∷ []) ms) (rw q at s)
Step-flow (rx_enqueues t false m ms p q) b s =
    Sublist.trans
      (after t.sent (
        after t.tx_pkts (
          after t.ring_parse_to_tx
            (after t.parser_pkts (after t.ring_rx_to_parse (Sublist.cons m (Sublist.refl ms)))))))
      (rw q at s)
Step-flow (rx_tests t p q) b s = elim (Bool-cases (leb 10 t.rx_count)) [
  | inl y ↦ rw y s
  | inr n ↦ rw n s
]
Step-flow (parser_dequeues t n p q l) b s = rw (cut n t.ring_rx_to_parse t.rx_pkts) (rw q at s)
Step-flow (parser_enqueues t m p) b s =
    Sublist.trans (after t.sent (after t.tx_pkts (pass t.ring_parse_to_tx m t.parser_pkts _))) s
Step-flow (tx_dequeues t n p q l) b s =
    rw (cut n t.ring_parse_to_tx (t.parser_pkts ++ (t.ring_rx_to_parse ++ t.rx_pkts))) (rw q at s)
Step-flow (tx_sends t n p) b s = Sublist.trans (pass t.sent n t.tx_pkts _) s

Reach-order : {t : Threads} → Reach t → Between t × Sublist (flow t) t.arrived
Reach-order begin = ((λ e. refl), Sublist.refl [])
Reach-order (next r s) = let (b, o) = Reach-order r in (Step-Between s b, Step-flow s b o)

-- how many packets for which a test holds there are with the threads, gone out, freed or lost
abbrev total : (Memory → Bool) → Threads → ℕ
total c t =
    count c t.sent
    + count c t.tx_pkts
    + count c t.ring_parse_to_tx
    + count c t.parser_pkts
    + count c t.ring_rx_to_parse
    + count c t.rx_pkts
    + count c t.freed
    + count c t.lost

count-cut :
    (c : Memory → Bool) (n : ℕ) (xs : List Memory)
    → count c (take n xs) + count c (drop n xs) ≡ count c xs
count-cut c n xs =
    sym (count-append c (take n xs) (drop n xs)) ∙ ap (count c) (take-append-drop n xs)

Step-total :
    (c : Memory → Bool) {t u : Threads}
    → Step t u
    → Between t
    → total c t ≡ count c t.arrived
    → total c u ≡ count c u.arrived
unfolding rx_burst rx_enqueue rx_test parser_dequeue parser_enqueue tx_dequeue tx_send
Step-total c (rx_polls t pkts p q l) b e =
    omega (arith, ap (count c) (b p), count-append c t.arrived pkts)
Step-total c (rx_enqueues t true m ms p q) b e =
    omega (
      arith,
      ap (count c) q,
      count-append c (m ∷ []) ms,
      count-append c t.ring_rx_to_parse (m ∷ []),
    )
Step-total c (rx_enqueues t false m ms p q) b e =
    omega (arith, ap (count c) q, count-append c (m ∷ []) ms, count-append c t.lost (m ∷ []))
Step-total c (rx_tests t p q) b e = elim (Bool-cases (leb 10 t.rx_count)) [
  | inl y ↦ rw y e
  | inr n ↦ rw n e
]
Step-total c (parser_dequeues t n p q l) b e =
    omega (arith, ap (count c) q, count-cut c n t.ring_rx_to_parse)
Step-total c (parser_enqueues t m p) b e = omega (
  arith,
  count-cut c m t.parser_pkts,
  count-append c t.ring_parse_to_tx (take m t.parser_pkts),
  count-append c t.freed (drop m t.parser_pkts),
)
Step-total c (tx_dequeues t n p q l) b e =
    omega (arith, ap (count c) q, count-cut c n t.ring_parse_to_tx)
Step-total c (tx_sends t n p) b e = omega (
  arith,
  count-cut c n t.tx_pkts,
  count-append c t.sent (take n t.tx_pkts),
  count-append c t.freed (drop n t.tx_pkts),
)

Reach-total : (c : Memory → Bool) {t : Threads} → Reach t → total c t ≡ count c t.arrived
Reach-total c begin = refl
Reach-total c (next r s) = Step-total c s (Reach-order r).0 (Reach-total c r)

count-flow :
    (c : Memory → Bool) (t : Threads)
    → count c (flow t) + count c t.freed + count c t.lost ≡ total c t
count-flow c t =
    let e = t.ring_rx_to_parse ++ t.rx_pkts in
    let d = t.parser_pkts ++ e in
    let b = t.ring_parse_to_tx ++ d in
    omega (
      arith,
      count-append c t.sent (t.tx_pkts ++ b),
      count-append c t.tx_pkts b,
      count-append c t.ring_parse_to_tx d,
      count-append c t.parser_pkts e,
      count-append c t.ring_rx_to_parse t.rx_pkts,
    )

-- However the threads are interleaved and whatever the rings and the port take, the packets that have
-- been sent, and those behind them on their way, are in the order in which they came; and each packet
-- that came is sent, on its way, freed or lost, exactly once: for every test, as many of those meet
-- it as of all that came.
pub threads_keep_order :
    {t : Threads}
    → Reach t
    → Sublist (flow t) t.arrived
      × ((c : Memory → Bool)
          → count c (flow t) + count c t.freed + count c t.lost ≡ count c t.arrived)
threads_keep_order {t} r = ((Reach-order r).1, λ c. count-flow c t ∙ Reach-total c r)
