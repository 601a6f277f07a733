-- ===== src/RxDrop.antt =====
-- graph/rx_drop_sample/sample/main.c: a graph that sends IPv4 packets and frees the others. Behind
-- `ipv4_node` come two nodes that touch different packets, so that their order does not matter.
use dpdk_for_beginners.Base.{
  ℕ, ◌≡◌, refl, List, [], ◌∷◌, ◌++◌, All, Shuffle, done, to_left, to_right, take, drop,
  take-append-drop, Bool-cases, inl, inr, ◌==◌, if◌then◌else◌, arith,
}
use dpdk_for_beginners.Dpdk.{ByteOrder}
use dpdk_for_beginners.Packet.{ether_type_ipv4}
use dpdk_for_beginners.Frame.{Memory, IsBytes, be16_at, load16, load16_iff}

-- What a walk leaves: the packets that the port took, those that were freed, and those that are neither,
-- so that their buffers never return to the pool.
pub record Left : Type 0 where
  pub sent : List Memory
  pub freed : List Memory
  pub lost : List Memory

-- The result of `rte_eth_tx_burst` is ignored: the port takes the first `n` packets, and nothing is done
-- about the others.
unfoldable pub tx_node_process : ℕ → List Memory → List Memory × List Memory
tx_node_process n objs = (take n objs, drop n objs)

module _ (O : ByteOrder) where
  -- the packets enqueued to the edges 0 and 1
  unfoldable pub ipv4_node_process : List Memory → List Memory × List Memory
  ipv4_node_process [] = ([], [])
  ipv4_node_process (pkt ∷ objs) =
      let rest = ipv4_node_process objs in
      if load16 O pkt 12 == O.be16 ether_type_ipv4
      then (pkt ∷ rest.0, rest.1)
      else (rest.0, pkt ∷ rest.1)

  -- a walk, on the burst that `rx_node_process` gets
  unfoldable pub walk : ℕ → List Memory → Left
  unfolding tx_node_process ipv4_node_process
  walk n pkts =
      let (to_tx, to_drop) = ipv4_node_process pkts in
      let (sent, lost) = tx_node_process n to_tx in
      record { sent = sent; freed = to_drop; lost = lost }

  abbrev pub IsIpv4 : Memory → Type 0
  IsIpv4 pkt = be16_at pkt 12 ≡ ether_type_ipv4

  ipv4_node_process-Shuffle :
      (pkts : List Memory)
      → All IsBytes pkts
      → let r = ipv4_node_process pkts in
        Shuffle r.0 r.1 pkts × All IsIpv4 r.0 × All (λ m. IsIpv4 m → ⊥) r.1
  unfolding ipv4_node_process
  ipv4_node_process-Shuffle [] b = (done, tt, tt)
  ipv4_node_process-Shuffle (pkt ∷ pkts) b =
      let (s, v, f) = ipv4_node_process-Shuffle pkts b.1 in
      let q = load16_iff O pkt 12 ether_type_ipv4 b.0 (omega arith) in
      elim (Bool-cases (load16 O pkt 12 == O.be16 ether_type_ipv4)) [
        | inl y ↦ rw y (to_left s, (ground (arith, q.0), v), f)
        | inr n ↦ rw n (to_right s, v, ((λ h. ground (arith, q.1 h)), f))
      ]

  -- A walk splits the burst, in its order, into the packets that are freed, none of which is IPv4, and
  -- IPv4 packets. Of these the port has taken the first ones, and those that it has not taken are lost.
  pub walk_lem :
      (n : ℕ) (pkts : List Memory)
      → All IsBytes pkts
      → let r = walk n pkts in
        Shuffle (r.sent ++ r.lost) r.freed pkts
        × All IsIpv4 (r.sent ++ r.lost)
        × All (λ m. IsIpv4 m → ⊥) r.freed
        × (r.sent ≡ take n (r.sent ++ r.lost))
  unfolding walk tx_node_process
  walk_lem n pkts b =
      let (s, v, f) = ipv4_node_process-Shuffle pkts b in
      rw (take-append-drop n (ipv4_node_process pkts).0) (s, v, f, refl)
