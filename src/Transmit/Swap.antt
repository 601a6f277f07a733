-- ===== src/Transmit/Swap.antt =====
-- The loop of tranmit_packet/swap_addr/main.c.
use dpdk_for_beginners.Base.{
  ℕ, ◌≤◌, ◌≡◌, Bool, true, false, List, [], ◌∷◌, ◌++◌, map, length, take, drop, arith, Shuffle,
  done, to_left, to_right, take-append, drop-append, length-take, length-drop, length-append, ap,
  sym, ◌∙◌, append_assoc, if◌then◌else◌,
}

-- The packet as bytes: the destination address comes first, then the source address.
abbrev pub dst_addr : List ℕ → List ℕ
dst_addr bytes = take 6 bytes

abbrev pub src_addr : List ℕ → List ℕ
src_addr bytes = take 6 (drop 6 bytes)

unfoldable pub swap_addr : List ℕ → List ℕ
swap_addr bytes = src_addr bytes ++ (dst_addr bytes ++ drop 12 bytes)

-- The packets that the other port took, and those that were freed because it did not.
pub record Burst : Type 0 where
  pub sent : List (List ℕ)
  pub freed : List (List ℕ)

-- the loop over a burst, each packet with the number that `rte_eth_tx_burst` returns for it
unfoldable pub forward : List (List ℕ × Bool) → Burst
unfolding swap_addr
forward [] = record { sent = []; freed = [] }
forward ((m, taken) ∷ ms) =
    let rest = forward ms in
    let s = swap_addr m in
    if taken then record rest { sent = s ∷ rest.sent } else record rest { freed = s ∷ rest.freed }

-- The parts of a packet that has been sent back: the addresses are exchanged, and the rest is the same.
pub swap_addr_lem :
    (bytes : List ℕ)
    → 12 ≤ length bytes
    → (dst_addr (swap_addr bytes) ≡ src_addr bytes)
      × (src_addr (swap_addr bytes) ≡ dst_addr bytes)
      × (drop 12 (swap_addr bytes) ≡ drop 12 bytes)
unfolding swap_addr
swap_addr_lem bytes h =
    let a : 6 ≡ length (src_addr bytes) =
      omega (arith, length-take 6 (drop 6 bytes), length-drop 6 bytes) in
    let b : 6 ≡ length (dst_addr bytes) = omega (arith, length-take 6 bytes) in
    let src = src_addr bytes in
    let dst = dst_addr bytes in
    let rest = drop 12 bytes in
    (
      take-append 6 src (dst ++ rest) a,
      ap (take 6) (drop-append 6 src (dst ++ rest) a) ∙ take-append 6 dst rest b,
      ap (drop 12) (sym (append_assoc src dst rest))
          ∙ drop-append 12 (src ++ dst) rest (omega (arith, length-append src dst)),
    )

-- Each packet of a burst is sent or freed once, with its addresses exchanged, and those that are sent keep
-- their order.
pub forward-Shuffle :
    (ms : List (List ℕ × Bool))
    → Shuffle (forward ms).sent (forward ms).freed (map (λ m. swap_addr m.0) ms)
unfolding forward
forward-Shuffle [] = done
forward-Shuffle ((m, true) ∷ ms) = to_left (forward-Shuffle ms)
forward-Shuffle ((m, false) ∷ ms) = to_right (forward-Shuffle ms)
