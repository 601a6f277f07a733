-- ===== src/Frame.antt =====
-- The bytes of a frame in memory, and what a processor reads from them: C code that casts a pointer
-- into a frame to a header and reads a field of 16 or 32 bits.
use dpdk_for_beginners.Base.{
  ℕ, ◌+◌, ◌*◌, ◌^◌, ◌<◌, ◌≡◌, ◌↔◌, ap, arith, List, [], ◌∷◌, get_or, All, zero, suc,
}
use dpdk_for_beginners.Dpdk.{ByteOrder}

-- the memory from the start of the data on
abbrev pub Memory : Type 0
Memory = ℕ → ℕ

abbrev pub IsBytes : Memory → Type 0
IsBytes pkt = (i : ℕ) → pkt i < 256

-- a field in network byte order at an offset, as `rte_be_to_cpu_16` and `rte_be_to_cpu_32` give it
abbrev pub be16_at : Memory → ℕ → ℕ
be16_at pkt i = pkt i * 256 + pkt (i + 1)

abbrev pub be32_at : Memory → ℕ → ℕ
be32_at pkt i = pkt i * 2 ^ 24 + pkt (i + 1) * 2 ^ 16 + pkt (i + 2) * 2 ^ 8 + pkt (i + 3)

pub be16_at-lt : (pkt : Memory) (i : ℕ) → IsBytes pkt → be16_at pkt i < 2 ^ 16
be16_at-lt pkt i b = omega (arith, b i, b (i + 1))

pub be32_at-lt : (pkt : Memory) (i : ℕ) → IsBytes pkt → be32_at pkt i < 2 ^ 32
be32_at-lt pkt i b = omega (arith, b i, b (i + 1), b (i + 2), b (i + 3))

-- what the processor loads from a field without any conversion
module _ (O : ByteOrder) where
  abbrev pub load16 : Memory → ℕ → ℕ
  load16 pkt i = O.be16 (be16_at pkt i)

  abbrev pub load32 : Memory → ℕ → ℕ
  load32 pkt i = O.be32 (be32_at pkt i)

  pub load32-lt : (pkt : Memory) (i : ℕ) → IsBytes pkt → load32 pkt i < 2 ^ 32
  load32-lt pkt i b = O.be32-lt _ (be32_at-lt pkt i b)

  pub load16-lt : (pkt : Memory) (i : ℕ) → IsBytes pkt → load16 pkt i < 2 ^ 16
  load16-lt pkt i b = O.be16-lt _ (be16_at-lt pkt i b)

  -- A load and a change of the byte order give the number that the bytes stand for.
  pub be16-load16 : (pkt : Memory) (i : ℕ) → IsBytes pkt → O.be16 (load16 pkt i) ≡ be16_at pkt i
  be16-load16 pkt i b = O.be16-be16 _ (be16_at-lt pkt i b)

  pub be32-load32 : (pkt : Memory) (i : ℕ) → IsBytes pkt → O.be32 (load32 pkt i) ≡ be32_at pkt i
  be32-load32 pkt i b = O.be32-be32 _ (be32_at-lt pkt i b)

  -- A load is compared with a constant in network byte order as the numbers are.
  pub load16_iff :
      (pkt : Memory) (i x : ℕ)
      → IsBytes pkt
      → x < 2 ^ 16
      → (load16 pkt i ≡ O.be16 x) ↔ (be16_at pkt i ≡ x)
  load16_iff pkt i x b h = ((λ e. cc (be16-load16 pkt i b, O.be16-be16 x h)), (λ e. ap O.be16 e))

  pub load32_iff :
      (pkt : Memory) (i x : ℕ)
      → IsBytes pkt
      → x < 2 ^ 32
      → (load32 pkt i ≡ O.be32 x) ↔ (be32_at pkt i ≡ x)
  load32_iff pkt i x b h = ((λ e. cc (be32-load32 pkt i b, O.be32-be32 x h)), (λ e. ap O.be32 e))

-- a frame given by its bytes, with zeros behind it
abbrev pub of_list : List ℕ → Memory
of_list bytes i = get_or bytes i 0

pub of_list-IsBytes : (bytes : List ℕ) → All (λ x. x < 256) bytes → IsBytes (of_list bytes)
of_list-IsBytes [] h i = omega arith
of_list-IsBytes (x ∷ xs) h zero = h.0
of_list-IsBytes (x ∷ xs) h (suc i) = of_list-IsBytes xs h.1 i
