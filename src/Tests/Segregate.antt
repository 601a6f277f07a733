-- ===== src/Tests/Segregate.antt =====
-- Runs of control_data_segregation/main.c: a query of DNS, and rings with room for 64 packets.
use dpdk_for_beginners.Base.{
  ℕ, ◌≤◌, ◌≡◌, ◌↔◌, refl, true, false, Option, none, some, List, [], ◌∷◌, ◌++◌, length, All, get_or,
  arith, take, drop, take-append-drop, length-take, zero, suc, inl, inr, sym, ltb, Bool-cases,
  some-inj, if◌then◌else◌,
}
use dpdk_for_beginners.Frame.{Memory}
use dpdk_for_beginners.Segregate.Classify.{
  classify_packet, classify_l3, classify_l4, is_control_udp_port, Control, classify_packet_iff,
}
use dpdk_for_beginners.Segregate.Loop.{
  Mbuf, Fifo, Plane, classify, IsPure, round, round-segregates, burst_size,
}

abbrev zeros : ℕ → List ℕ
zeros zero = []
zeros (suc n) = 0 ∷ zeros n

-- a query of DNS: a whole frame of 60 bytes with UDP to port 53 in it
abbrev query : List ℕ
query =
    zeros 12
    ++ ((0x08 ∷ 0x00 ∷ 0x45 ∷ []) ++ (zeros 8 ++ (17 ∷ (zeros 10 ++ (0 ∷ 9 ∷ 0 ∷ 53 ∷ zeros 22)))))

-- the query in a buffer, with the byte `behind` in all places behind its end
abbrev frame : ℕ → Memory
frame behind i = get_or query i behind

query-control : classify_packet (frame 0) 60 ≡ true
unfolding classify_packet classify_l3 classify_l4 is_control_udp_port
query-control = refl

classify_packet_iff_example : (classify_packet (frame 0) 60 ≡ true) ↔ Control (frame 0) 60
classify_packet_iff_example = classify_packet_iff (frame 0) 60

-- a ring with room for 64 packets
abbrev put : List Mbuf → Mbuf → Option (List Mbuf)
put r m = if ltb (length r) 64 then some (r ++ (m ∷ [])) else none

fits : (r : List Mbuf) (m : Mbuf) (s : List Mbuf) → put r m ≡ some s → s ≡ r ++ (m ∷ [])
fits r m s e = elim (Bool-cases (ltb (length r) 64)) [
  | inl y ↦ sym (some-inj (rw y at e))
  | inr n ↦ absurd (not_some (rw n at e))
]
  where
    not_some : none ≡ some s → ⊥
    not_some q = cc

abbrev ring64 : Fifo
ring64 = record {
  Ring = List Mbuf;
  items = λ r. r;
  enqueue = put;
  dequeue_burst = λ n r. (take n r, drop n r);
  items-enqueue = fits;
  items-dequeue = λ n r. sym (take-append-drop n r);
  dequeue-le = λ n r. omega (arith, length-take n r);
}

abbrev plane : Plane ring64
plane = record { control_ring = []; data_ring = []; control_count = 0; data_count = 0; freed = [] }

abbrev arrived : List Mbuf
arrived = record { mem = frame 0; data_len = 60 } ∷ record { mem = frame 7; data_len = 30 } ∷ []

round-segregates_example :
    let r = round ring64 plane arrived in
    IsPure ring64 r.0
    × All (λ m. classify m ≡ true) r.1
    × All (λ m. classify m ≡ false) r.2
    × (length r.1 ≤ burst_size)
    × (length r.2 ≤ burst_size)
round-segregates_example =
    round-segregates ring64 plane arrived (record { control = tt; data_only = tt })
