-- ===== src/Tests/Reorder.antt =====
-- The programs under reordering/, with a reorder buffer that has room for one packet.
use dpdk_for_beginners.Base.{
  ℕ, suc, ◌+◌, ◌<◌, ◌≤◌, ◌≡◌, refl, ap, Bool, true, false, ◌++◌, Bool-cases, inl, inr, Option, none,
  some, some-inj, List, [], ◌∷◌, All, map, count, length, get_or, ltb, leb, if◌then◌else◌, arith,
}
use dpdk_for_beginners.Reorder.DynamicSeqno.{
  seq_next, number, seq_after, lcore_main_loop, total, all_packets, lcore_main_loop_lem,
}
use dpdk_for_beginners.Reorder.RxBurst.{
  Packet, IsAscending, Reorder, start, insert_one, insert_burst, round, rx_reorder_loop,
}
use dpdk_for_beginners.Reorder.Ordered.{concat, numbered, rx_reorder_loop-IsAscending}

-- Twelve packets in three bursts, of which one is empty.
abbrev bursts : List (List ℕ)
bursts = (50 ∷ 51 ∷ 52 ∷ []) ∷ [] ∷ (53 ∷ 54 ∷ 55 ∷ 56 ∷ 57 ∷ 58 ∷ 59 ∷ 60 ∷ 61 ∷ []) ∷ []

eleven : 11 < length (lcore_main_loop 0 bursts).0
unfolding lcore_main_loop number seq_after seq_next
eleven = omega arith

lcore_main_loop_lem_example :
    let r = lcore_main_loop 0 bursts in
    (r.1 ≡ leb 10 (total bursts))
    × (leb 10 (length r.0) ≡ r.1)
    × (get_or (map (λ p. p.1) r.0) 11 none ≡ (if ltb 11 10 then some 11 else none))
    × ((rest : List ℕ) × (all_packets bursts ≡ map (λ p. p.0) r.0 ++ rest)
        × (r.1 ≡ false → rest ≡ []))
lcore_main_loop_lem_example = lcore_main_loop_lem bursts 11 eleven

abbrev Slot : Type 0
Slot = Option Packet × ℕ

abbrev slot_held : Slot → List Packet
slot_held (none, n) = []
slot_held (some m, n) = m ∷ []

abbrev slot_insert : Slot → Packet → Option Slot
slot_insert (some m, n) p = none
slot_insert (none, n) p = if leb n p.seqn then some (some p, n) else none

abbrev slot_drain : Slot → List Packet × Slot
slot_drain (none, n) = ([], (none, n))
slot_drain (some m, n) = if leb n m.seqn then (m ∷ [], (none, suc m.seqn)) else ([], (some m, n))

insert-some :
    (b c : Slot) (m : Packet)
    → slot_insert b m ≡ some c
    → (slot_held c ≡ m ∷ slot_held b) × (c.1 ≡ b.1)
insert-some (some p, n) c m e = absurd cc
insert-some (none, n) c m e = elim (Bool-cases (leb n m.seqn)) [
  | inl fits ↦ let q = some-inj (rw fits at e) in (rw (← q) refl, rw (← q) refl)
  | inr late ↦ absurd (cc (e, late))
]

drain-count :
    (b : Slot) (p : Packet → Bool)
    → count p (slot_held b) ≡ count p (slot_drain b).0 + count p (slot_held (slot_drain b).1)
drain-count (none, n) p = omega arith
drain-count (some m, n) p = elim (Bool-cases (leb n m.seqn)) [
  | inl fits ↦ rw fits (omega arith)
  | inr late ↦ rw late (omega arith)
]

drain-ascends :
    (b : Slot)
    → IsAscending (slot_drain b).0
      × All (λ m. (b.1 ≤ m.seqn) × (m.seqn < (slot_drain b).1.1)) (slot_drain b).0
      × (b.1 ≤ (slot_drain b).1.1)
drain-ascends (none, n) = (tt, tt, omega arith)
drain-ascends (some m, n) = elim (Bool-cases (leb n m.seqn)) [
  | inl fits ↦
      let h : n ≤ m.seqn = ground arith in rw fits ((tt, tt), ((h, omega arith), tt), omega arith)
  | inr late ↦ rw late (tt, tt, omega arith)
]

drain-stays :
    (b : Slot) (k : ℕ)
    → b.1 ≤ k
    → All (λ m. m.seqn < k) (slot_held b)
    → ((slot_drain b).1.1 ≤ k) × All (λ m. m.seqn < k) (slot_held (slot_drain b).1)
drain-stays (none, n) k l h = (l, tt)
drain-stays (some m, n) k l h = elim (Bool-cases (leb n m.seqn)) [
  | inl fits ↦ rw fits (h.0, tt)
  | inr late ↦ rw late (l, h)
]

abbrev one_slot : Reorder
one_slot = record {
  Buffer = Slot;
  create = λ size. (none, 0);
  insert = slot_insert;
  drain = λ n. slot_drain;
  held = slot_held;
  next = λ b. b.1;
  held-create = λ size. refl;
  next-create = λ size. refl;
  insert-held = λ b c m e p. ap (count p) (insert-some b c m e).0;
  insert-next = λ b c m e. (insert-some b c m e).1;
  insert-below = λ b c m k e h. rw ((insert-some b c m e).0) h;
  drain-held = λ n b p. drain-count b p;
  drain-IsAscending = λ n b. (drain-ascends b).0;
  drain-next = λ n b. ((drain-ascends b).1, (drain-ascends b).2);
  drain-below = λ n b k l h. drain-stays b k l h;
}

-- Two rounds, the second one with a packet more than the buffer takes.
abbrev two_rounds : List (List (List ℕ))
two_rounds = ((7 ∷ []) ∷ []) ∷ ((8 ∷ []) ∷ (9 ∷ []) ∷ []) ∷ []

drained :
    (rx_reorder_loop one_slot (start one_slot) two_rounds).0
    ≡ (record { bytes = 7 ∷ []; seqn = 0 } ∷ record { bytes = 8 ∷ []; seqn = 1 } ∷ [])
unfolding rx_reorder_loop round insert_burst insert_one
drained = refl

rx_reorder_loop-IsAscending_example :
    let r = rx_reorder_loop one_slot (start one_slot) two_rounds in
    IsAscending r.0
    × (count (λ m. true) r.0
          + (count (λ m. true) (slot_held r.1.rbuf) + count (λ m. true) r.1.refused)
        ≡ count (λ m. true) (numbered 0 (concat two_rounds)))
rx_reorder_loop-IsAscending_example =
    rx_reorder_loop-IsAscending one_slot two_rounds (λ m. true) (omega arith)
