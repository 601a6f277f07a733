-- ===== src/Balancer/Fair.antt =====
-- The selector of Load_Balancer/load_balancer.c serves the backends evenly.
use dpdk_for_beginners.Base.{
  ℕ, zero, suc, ◌+◌, ◌-◌, ◌/◌, ◌%◌, ◌^◌, ◌<◌, ◌≡◌, refl, ◌∙◌, ap, subst, inl, inr, ◌⊎◌, true, false,
  List, [], ◌∷◌, length, length-set, get_or, get_or-set_self, get_or-set_ne, ℕ_discrete, arith,
  Bool-cases, if◌then◌else◌,
}
use dpdk_for_beginners.Dpdk.{ByteOrder}
use dpdk_for_beginners.Packet.{Packet, Checksums}
use dpdk_for_beginners.Balancer.{
  Selector, initial, is_supported, advance, rewrite_l4_packet, rewrite_all, rte_ipv4,
}

-- how many packets of a list the selector serves
abbrev pub served : ByteOrder → List Packet → ℕ
served B [] = 0
served B (m ∷ ms) = if is_supported B m then served B ms + 1 else served B ms

-- the hits of backend `i` after `k` packets have been given out from the first backend on
abbrev pub share : ℕ → ℕ → ℕ
share k i = (k + 2 - i) / 3

-- The selector after `k` packets: the next backend is `k % 3`, and each has its share.
pub record After (k : ℕ) (s : Selector) : Type 0 where
  pub next : s.next_backend ≡ k % 3
  pub room : length s.backend_hits ≡ 3
  pub hits : (i : ℕ) → i < 3 → get_or s.backend_hits i 0 ≡ share k i

advance-After : (k : ℕ) (s : Selector) → k < 2 ^ 63 → After k s → After (k + 1) (advance s)
unfolding advance
advance-After k s small v = record {
  next = omega (arith, v.next);
  room = length-set s.backend_hits s.next_backend _ ∙ v.room;
  hits = λ i h. elim (ℕ_discrete s.next_backend i) [
    | yes e ↦ rw (← e) (
        get_or-set_self s.backend_hits s.next_backend _ 0 (omega (arith, v.next, v.room))
        ∙ omega (arith, v.next, v.hits s.next_backend (omega (arith, v.next))))
    | no n ↦
        get_or-set_ne s.backend_hits s.next_backend i _ 0 n ∙ v.hits i h ∙ omega (arith, v.next)
  ];
}

initial_shares : (i : ℕ) → i < 3 → get_or initial.backend_hits i 0 ≡ share 0 i
initial_shares zero h = refl
initial_shares (suc zero) h = refl
initial_shares (suc (suc zero)) h = refl
initial_shares (suc (suc (suc i))) h = absurd (omega arith)

pub initial-After : After 0 initial
initial-After = record { next = refl; room = refl; hits = λ i l. initial_shares i l }

module _ (B : ByteOrder) (C : Checksums) where
  pub rewrite_all-After :
      (ms : List Packet) (k : ℕ) (s : Selector)
      → k + length ms < 2 ^ 63
      → After k s
      → After (k + served B ms) (rewrite_all B C s ms).0
  unfolding rewrite_all rewrite_l4_packet
  rewrite_all-After [] k s h v = record {
    next = omega (arith, v.next);
    room = v.room;
    hits = λ i l. v.hits i l ∙ ap (λ j. share j i) (omega arith);
  }
  rewrite_all-After (m ∷ ms) k s h v = elim (Bool-cases (is_supported B m)) [
    | inl y ↦ rw y (
        subst (λ j. After j (rewrite_all B C (advance s) ms).0) (omega arith)
          (rewrite_all-After ms (k + 1) (advance s) (omega arith)
            (advance-After k s (omega arith) v)))
    | inr n ↦ rw n (rewrite_all-After ms k s (omega arith) v)
  ]

  -- The packets that leave: each that is served, to the backend whose turn it is, from turn `k` on, and the
  -- others as they came.
  abbrev pub InTurn : ℕ → List Packet → List Packet → Type 0
  InTurn k [] outs = outs ≡ []
  InTurn k (m ∷ ms) [] = ⊥
  InTurn k (m ∷ ms) (out ∷ outs) =
      ((is_supported B m ≡ true)
        × (out.dst_addr ≡ rte_ipv4 192 168 0 (101 + k % 3))
        × InTurn (k + 1) ms outs)
      ⊎ ((is_supported B m ≡ false) × (out ≡ m) × InTurn k ms outs)
