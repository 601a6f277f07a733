-- ===== src/Reorder/RxBurst.antt =====
-- reordering/rx_burst/main2.c: the packets of a burst get sequence numbers and go through a reorder buffer.
use dpdk_for_beginners.Base.{
  ℕ, ◌+◌, ◌%◌, ◌^◌, ◌≤◌, ◌<◌, ◌≡◌, Bool, Option, none, some, List, [], ◌∷◌, ◌++◌, All, count,
}

pub record Packet : Type 0 where
  pub bytes : List ℕ
  pub seqn : ℕ

-- the numbers grow from one packet to the next
abbrev pub IsAscending : List Packet → Type 0
IsAscending [] = Unit
IsAscending (m ∷ ms) = All (λ n. m.seqn < n.seqn) ms × IsAscending ms

-- The library rte_reorder, as long as the numbers do not wrap. `held` are the packets in the buffer, and
-- `next` is the number from which on packets have not been drained. A packet is refused (`none`) if it comes
-- too late or too early; what is drained comes in the order of the numbers.
pub record Reorder : Type 1 where
  pub Buffer : Type 0
  pub create : ℕ → Buffer
  pub insert : Buffer → Packet → Option Buffer
  pub drain : ℕ → Buffer → List Packet × Buffer
  pub held : Buffer → List Packet
  pub next : Buffer → ℕ
  pub held-create : (size : ℕ) → held (create size) ≡ []
  pub next-create : (size : ℕ) → next (create size) ≡ 0
  pub insert-held :
      (b c : Buffer) (m : Packet)
      → insert b m ≡ some c
      → (p : Packet → Bool) → count p (held c) ≡ count p (m ∷ held b)
  pub insert-next : (b c : Buffer) (m : Packet) → insert b m ≡ some c → next c ≡ next b
  pub insert-below :
      (b c : Buffer) (m : Packet) (k : ℕ)
      → insert b m ≡ some c
      → All (λ n. n.seqn < k) (m ∷ held b)
      → All (λ n. n.seqn < k) (held c)
  pub drain-held :
      (n : ℕ) (b : Buffer) (p : Packet → Bool)
      → count p (held b) ≡ count p (drain n b).0 + count p (held (drain n b).1)
  pub drain-IsAscending : (n : ℕ) (b : Buffer) → IsAscending (drain n b).0
  pub drain-next :
      (n : ℕ) (b : Buffer)
      → All (λ m. (next b ≤ m.seqn) × (m.seqn < next (drain n b).1)) (drain n b).0
        × (next b ≤ next (drain n b).1)
  pub drain-below :
      (n : ℕ) (b : Buffer) (k : ℕ)
      → next b ≤ k
      → All (λ m. m.seqn < k) (held b)
      → (next (drain n b).1 ≤ k) × All (λ m. m.seqn < k) (held (drain n b).1)

abbrev pub window_size : ℕ
window_size = 128

abbrev pub burst_size : ℕ
burst_size = 32

module _ (R : Reorder) where
  open R use {Buffer, create, insert, drain}

  -- the buffer, `seq_counter`, which is a `uint32_t`, and what has been freed without being drained
  pub record Loop : Type 0 where
    pub rbuf : Buffer
    pub seq_counter : ℕ
    pub refused : List Packet

  abbrev pub start : Loop
  start = record { rbuf = create window_size; seq_counter = 0; refused = [] }

  unfoldable pub insert_one : Loop → List ℕ → Loop
  insert_one s bytes =
      let m : Packet = record { bytes = bytes; seqn = s.seq_counter } in
      let counted = record s { seq_counter = (s.seq_counter + 1) % 2 ^ 32 } in
      elim (insert s.rbuf m) [
        | some b ↦ record counted { rbuf = b }
        | none ↦ record counted { refused = m ∷ s.refused }
      ]

  unfoldable pub insert_burst : Loop → List (List ℕ) → Loop
  unfolding insert_one
  insert_burst s [] = s
  insert_burst s (m ∷ ms) = insert_burst (insert_one s m) ms

  -- the body of `while (1)`: the packets that are printed and freed, and the state after it
  unfoldable pub round : Loop → List (List ℕ) → List Packet × Loop
  unfolding insert_burst
  round s [] = ([], s)
  round s (m ∷ ms) =
      let full = insert_burst s (m ∷ ms) in
      let (ordered, b) = drain burst_size full.rbuf in (ordered, record full { rbuf = b })

  unfoldable pub rx_reorder_loop : Loop → List (List (List ℕ)) → List Packet × Loop
  unfolding round
  rx_reorder_loop s [] = ([], s)
  rx_reorder_loop s (burst ∷ bursts) =
      let (ordered, t) = round s burst in
      let (rest, u) = rx_reorder_loop t bursts in (ordered ++ rest, u)
