-- ===== src/Mbuf.antt =====
-- A packet in one segment and what rte_mbuf.h says of the calls that make it longer or shorter at either
-- end.
use dpdk_for_beginners.Base.{
  ℕ, ◌-◌, ◌≤◌, ◌<◌, ◌≡◌, Option, none, some, List, ◌++◌, length, take, drop,
}

-- The data, and what lies before and behind it in the buffer.
pub record Segment : Type 0 where
  pub headroom : List ℕ
  pub bytes : List ℕ
  pub tailroom : List ℕ

-- `rte_pktmbuf_append`, `rte_pktmbuf_prepend`, `rte_pktmbuf_adj` and `rte_pktmbuf_trim`. The first two give no
-- pointer where there is no room, and the other two fail where there are not so many bytes; the packet
-- then stays as it is. The bytes that a packet gains are those that lay there.
pub record PktMbuf : Type 0 where
  pub append : ℕ → Segment → Option Segment
  pub prepend : ℕ → Segment → Option Segment
  pub adj : ℕ → Segment → Segment
  pub trim : ℕ → Segment → Segment
  pub append-some :
      (n : ℕ) (m : Segment)
      → n ≤ length m.tailroom
      → append n m
        ≡ some (record m { bytes = m.bytes ++ take n m.tailroom; tailroom = drop n m.tailroom })
  pub append-none : (n : ℕ) (m : Segment) → length m.tailroom < n → append n m ≡ none
  pub prepend-some :
      (n : ℕ) (m : Segment)
      → n ≤ length m.headroom
      → let k = length m.headroom - n in
        prepend n m
        ≡ some (record m { headroom = take k m.headroom; bytes = drop k m.headroom ++ m.bytes })
  pub prepend-none : (n : ℕ) (m : Segment) → length m.headroom < n → prepend n m ≡ none
  pub adj-some :
      (n : ℕ) (m : Segment)
      → n ≤ length m.bytes
      → adj n m ≡ record m { headroom = m.headroom ++ take n m.bytes; bytes = drop n m.bytes }
  pub trim-some :
      (n : ℕ) (m : Segment)
      → n ≤ length m.bytes
      → let k = length m.bytes - n in
        trim n m ≡ record m { bytes = take k m.bytes; tailroom = drop k m.bytes ++ m.tailroom }
  pub adj-same : (n : ℕ) (m : Segment) → length m.bytes < n → adj n m ≡ m
  pub trim-same : (n : ℕ) (m : Segment) → length m.bytes < n → trim n m ≡ m
