-- ===== src/Tests/Router.antt =====
-- A burst of longest_prefix_match_lpm/simple/main.c: three IPv4 packets and one of ARP.
use dpdk_for_beginners.Base.{
  ℕ, ◌≡◌, refl, Bool, true, false, List, [], ◌∷◌, ◌++◌, map, All, Shuffle, arith,
}
use dpdk_for_beginners.Dpdk.Sample.{little_endian}
use dpdk_for_beginners.Frame.{Memory, IsBytes, of_list, of_list-IsBytes}
use dpdk_for_beginners.Router.{
  Route, longest, hop_of, Lpm, next, no_route, ignored, init_lpm, route_packet, route_burst,
}
use dpdk_for_beginners.Router.Routes.{line_by_bytes, IsIpv4, route_burst-init_lpm}

-- a table that is searched from end to end
abbrev searched : Lpm
searched = record {
  Table = List Route;
  create = [];
  add = λ t a d n. record { ip = a; depth = d; next_hop = n } ∷ t;
  lookup = λ t ip. hop_of (longest ip t);
  routes = λ t. t;
  routes-create = refl;
  routes-add = λ t a d n low high room. refl;
  lookup-longest = λ t ip. refl;
}

abbrev frame_bytes : ℕ → ℕ → ℕ → ℕ → List ℕ
frame_bytes type a b c =
    (0 ∷ 0 ∷ 0 ∷ 0 ∷ 0 ∷ 0 ∷ 0 ∷ 0 ∷ 0 ∷ 0 ∷ 0 ∷ 0 ∷ 8 ∷ type ∷ 0x45 ∷ 0 ∷ 0 ∷ 20 ∷ [])
    ++ (0 ∷ 0 ∷ 0 ∷ 0 ∷ 64 ∷ 17 ∷ 0 ∷ 0 ∷ 10 ∷ 0 ∷ 0 ∷ 1 ∷ a ∷ b ∷ c ∷ 9 ∷ [])

abbrev frames : List (Memory × Bool)
frames =
    (of_list (frame_bytes 0 10 1 2), true)
    ∷ (of_list (frame_bytes 0 10 1 3), true)
    ∷ (of_list (frame_bytes 0 11 0 0), false)
    ∷ (of_list (frame_bytes 6 10 1 2), true)
    ∷ []

frames-IsBytes : All (λ p. IsBytes p.0) frames
frames-IsBytes =
    let ok = of_list-IsBytes in
    (
      ok (frame_bytes 0 10 1 2) (ground arith),
      (
        ok (frame_bytes 0 10 1 3) (ground arith),
        (ok (frame_bytes 0 11 0 0) (ground arith), (ok (frame_bytes 6 10 1 2) (ground arith), tt)),
      ),
    )

printed_lines :
    (route_burst little_endian searched (init_lpm little_endian searched) frames).printed
    ≡ (next 167838217 1 ∷ next 167838473 2 ∷ no_route 184549385 ∷ ignored ∷ [])
unfolding route_burst init_lpm route_packet
printed_lines = refl

route_burst-init_lpm_example :
    let r = route_burst little_endian searched (init_lpm little_endian searched) frames in
    (r.printed ≡ map (λ p. line_by_bytes little_endian searched p.0) frames)
    × Shuffle r.sent r.lost (map (λ p. p.0) frames)
    × All (IsIpv4 little_endian searched) r.sent
route_burst-init_lpm_example = route_burst-init_lpm little_endian searched frames frames-IsBytes
