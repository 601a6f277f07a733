-- ===== src/Tests/RxDrop.antt =====
-- A walk of graph/rx_drop_sample/sample/main.c whose port takes one packet of two.
use dpdk_for_beginners.Base.{ℕ, ◌≡◌, List, [], ◌∷◌, ◌++◌, All, Shuffle, take, arith}
use dpdk_for_beginners.Dpdk.Sample.{little_endian}
use dpdk_for_beginners.Frame.{Memory, of_list, of_list-IsBytes}
use dpdk_for_beginners.RxDrop.{walk, IsIpv4, walk_lem}

abbrev ip_bytes : List ℕ
ip_bytes = 0 ∷ 0 ∷ 0 ∷ 0 ∷ 0 ∷ 0 ∷ 0 ∷ 0 ∷ 0 ∷ 0 ∷ 0 ∷ 0 ∷ 8 ∷ 0 ∷ []

abbrev ip_frame : Memory
ip_frame = of_list ip_bytes

walk_two :
    let r = walk little_endian 1 (ip_frame ∷ ip_frame ∷ []) in
    Shuffle (r.sent ++ r.lost) r.freed (ip_frame ∷ ip_frame ∷ [])
    × All (IsIpv4 little_endian) (r.sent ++ r.lost)
    × All (λ m. IsIpv4 little_endian m → ⊥) r.freed
    × (r.sent ≡ take 1 (r.sent ++ r.lost))
walk_two =
    let b = of_list-IsBytes ip_bytes (ground arith) in
    walk_lem little_endian 1 (ip_frame ∷ ip_frame ∷ []) (b, (b, tt))
