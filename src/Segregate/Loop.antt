-- ===== src/Segregate/Loop.antt =====
-- The loop of control_data_segregation/main.c over the two rings.
use dpdk_for_beginners.Base.{
  ℕ, ◌+◌, ◌%◌, ◌^◌, ◌≤◌, ◌≡◌, subst, inl, inr, Bool, true, false, Option, none, some, List, [], ◌∷◌,
  ◌++◌, All, All-append, length, Bool-cases, Option-cases, if◌then◌else◌,
}
use dpdk_for_beginners.Frame.{Memory}
use dpdk_for_beginners.Segregate.Classify.{classify_packet}

-- A packet: its bytes, with what lies behind them, and their number.
pub record Mbuf : Type 0 where
  pub mem : Memory
  pub data_len : ℕ

abbrev pub classify : Mbuf → Bool
classify m = classify_packet m.mem m.data_len

-- `rte_ring` for one producer and one consumer, as its documentation describes it: first in, first
-- out. `enqueue` fails when the ring is full, and `dequeue_burst` takes `n` objects at most.
pub record Fifo : Type 1 where
  pub Ring : Type 0
  pub items : Ring → List Mbuf
  pub enqueue : Ring → Mbuf → Option Ring
  pub dequeue_burst : ℕ → Ring → List Mbuf × Ring
  pub items-enqueue :
      (r : Ring) (m : Mbuf) (s : Ring) → enqueue r m ≡ some s → items s ≡ items r ++ (m ∷ [])
  pub items-dequeue :
      (n : ℕ) (r : Ring) → items r ≡ (dequeue_burst n r).0 ++ items (dequeue_burst n r).1
  pub dequeue-le : (n : ℕ) (r : Ring) → length (dequeue_burst n r).0 ≤ n

abbrev pub burst_size : ℕ
burst_size = 32

All-split : (P : Mbuf → Type 0) (xs ys : List Mbuf) → All P (xs ++ ys) → All P xs × All P ys
All-split P [] ys h = (tt, h)
All-split P (x ∷ xs) ys h = let r = All-split P xs ys h.1 in ((h.0, r.0), r.1)

abbrev IsControl : Mbuf → Type 0
IsControl m = classify m ≡ true

abbrev IsData : Mbuf → Type 0
IsData m = classify m ≡ false

module _ (F : Fifo) where
  open F use {Ring, items, enqueue, dequeue_burst}

  pub record Plane : Type 0 where
    pub control_ring : Ring
    pub data_ring : Ring
    pub control_count : ℕ
    pub data_count : ℕ
    pub freed : List Mbuf

  abbrev push_control : Plane → Mbuf → Option Ring → Plane
  push_control p m none = record p { freed = p.freed ++ (m ∷ []) }
  push_control p m (some r) = record p {
    control_ring = r;
    control_count = (p.control_count + 1) % 2 ^ 64;
  }

  abbrev push_data : Plane → Mbuf → Option Ring → Plane
  push_data p m none = record p { freed = p.freed ++ (m ∷ []) }
  push_data p m (some r) = record p { data_ring = r; data_count = (p.data_count + 1) % 2 ^ 64 }

  -- the body of the loop over the burst
  unfoldable pub sort_one : Plane → Mbuf → Plane
  sort_one p m =
      if classify m
      then push_control p m (enqueue p.control_ring m)
      else push_data p m (enqueue p.data_ring m)

  unfoldable pub sort_all : Plane → List Mbuf → Plane
  unfolding sort_one
  sort_all p [] = p
  sort_all p (m ∷ ms) = sort_all (sort_one p m) ms

  -- One round of the loop: what is handed to the port is the first packets of the control ring, and
  -- after them those of the data ring.
  unfoldable pub round : Plane → List Mbuf → Plane × List Mbuf × List Mbuf
  unfolding sort_all
  round p ms =
      let q = sort_all p ms in
      let (out, c) = dequeue_burst burst_size q.control_ring in
      let (out', d) = dequeue_burst burst_size q.data_ring in
      (record q { control_ring = c; data_ring = d }, out, out')

  -- Each ring holds its kind of packets only.
  pub record IsPure (p : Plane) : Type 0 where
    pub control : All (λ m. classify m ≡ true) (items p.control_ring)
    pub data_only : All (λ m. classify m ≡ false) (items p.data_ring)

  sort_one-IsPure : (p : Plane) (m : Mbuf) → IsPure p → IsPure (sort_one p m)
  unfolding sort_one
  sort_one-IsPure p m v = elim (Bool-cases (classify m)) [
    | inl y ↦ elim (Option-cases (enqueue p.control_ring m)) [
      | inl full ↦ rw (y, full) (record { control = v.control; data_only = v.data_only })
      | inr (r, ok) ↦
          rw (y, ok)
            (record {
              control =
                  rw (F.items-enqueue _ m r ok)
                    (All-append IsControl (items p.control_ring) _ v.control (y, tt));
              data_only = v.data_only;
            })
    ]
    | inr n ↦ elim (Option-cases (enqueue p.data_ring m)) [
      | inl full ↦ rw (n, full) (record { control = v.control; data_only = v.data_only })
      | inr (r, ok) ↦
          rw (n, ok)
            (record {
              control = v.control;
              data_only =
                  rw (F.items-enqueue _ m r ok)
                    (All-append IsData (items p.data_ring) _ v.data_only (n, tt));
            })
    ]
  ]

  sort_all-IsPure : (ms : List Mbuf) (p : Plane) → IsPure p → IsPure (sort_all p ms)
  unfolding sort_all
  sort_all-IsPure [] p v = v
  sort_all-IsPure (m ∷ ms) p v = sort_all-IsPure ms _ (sort_one-IsPure p m v)

  -- If the rings are pure, the two kinds are kept apart: the rings stay so, and what a round sends
  -- from the control ring is control traffic and what it sends from the data ring is not, 32
  -- packets each at most.
  pub round-segregates :
      (p : Plane) (ms : List Mbuf)
      → IsPure p
      → let r = round p ms in
        IsPure r.0
        × All (λ m. classify m ≡ true) r.1
        × All (λ m. classify m ≡ false) r.2
        × (length r.1 ≤ burst_size)
        × (length r.2 ≤ burst_size)
  unfolding round
  round-segregates p ms v =
      let q = sort_all p ms in
      let w = sort_all-IsPure ms p v in
      let c =
        All-split IsControl _ _
          (subst (All IsControl) (F.items-dequeue burst_size q.control_ring) w.control) in
      let d =
        All-split IsData _ _
          (subst (All IsData) (F.items-dequeue burst_size q.data_ring) w.data_only) in
      (
        record { control = c.1; data_only = d.1 },
        c.0,
        d.0,
        F.dequeue-le burst_size q.control_ring,
        F.dequeue-le burst_size q.data_ring,
      )
