-- ===== src/Tests/Acl.antt =====
-- Runs of the programs under ACL/ on a little-endian processor, with the documented meaning of the rules
-- as the library.
use dpdk_for_beginners.Base.{
  ℕ, ◌≡◌, ◌↔◌, refl, sym, ap, Bool, true, false, some, List, [], ◌∷◌, ◌++◌, some-inj, arith,
}
use dpdk_for_beginners.Dpdk.Sample.{little_endian}
use dpdk_for_beginners.Frame.{Memory, IsBytes, of_list, of_list-IsBytes}
use dpdk_for_beginners.Acl.Field.{FieldDef, Rule, Acl, best, userdata_of}
use dpdk_for_beginners.Acl.Key.{field_defs}
use dpdk_for_beginners.Acl.Forward.{
  rule, key_of, is_sent, init_acl, forward_burst, Sorted, forward_burst-Shuffle,
}
use dpdk_for_beginners.Acl.Capture.{tcp_rule, init_tcp, inspect, acl_match}
use dpdk_for_beginners.Acl.Agree.{is_sent-inspect}

abbrev documented : Acl
documented = record {
  Ctx = List FieldDef × List Rule;
  build = λ defs rules. some (defs, rules);
  classify = λ ctx bytes. userdata_of (best ctx.0 ctx.1 bytes);
  classify-build = λ defs rules ctx bytes g r e.
      sym (ap (λ (c : List FieldDef × List Rule). userdata_of (best c.0 c.1 bytes)) (some-inj e));
}

abbrev zeros6 : List ℕ
zeros6 = 0 ∷ 0 ∷ 0 ∷ 0 ∷ 0 ∷ 0 ∷ []

-- a frame with TCP from 172.17.166.200, and one with UDP
abbrev frame_of : ℕ → List ℕ
frame_of proto =
    zeros6
    ++ (zeros6
        ++ (0x08 ∷ 0x00 ∷ 0x45 ∷ 0 ∷ 0 ∷ 40 ∷ 0 ∷ 0 ∷ 0 ∷ 0 ∷ 64 ∷ proto ∷ 0 ∷ 0 ∷ 172 ∷ 17 ∷ 166
            ∷ 200 ∷ []))

abbrev tcp_frame : Memory
tcp_frame = of_list (frame_of 6)

abbrev udp_frame : Memory
udp_frame = of_list (frame_of 17)

tcp_frame-IsBytes : IsBytes tcp_frame
tcp_frame-IsBytes = of_list-IsBytes (frame_of 6) (ground arith)

udp_frame-IsBytes : IsBytes udp_frame
udp_frame-IsBytes = of_list-IsBytes (frame_of 17) (ground arith)

abbrev ctx : documented.Ctx
ctx = (field_defs 3, rule little_endian documented ∷ [])

abbrev own : documented.Ctx
own = (field_defs 3, tcp_rule ∷ [])

-- the port takes the first packet, and not the second
abbrev burst : List (Memory × Bool)
burst = (tcp_frame, true) ∷ (tcp_frame, false) ∷ (udp_frame, true) ∷ []

forward_burst-Shuffle_example :
    Sorted little_endian documented burst (forward_burst little_endian documented ctx burst)
unfolding init_acl
forward_burst-Shuffle_example =
    forward_burst-Shuffle little_endian documented ctx burst refl
      (tcp_frame-IsBytes, (tcp_frame-IsBytes, (udp_frame-IsBytes, tt)))

tcp_frame-is_sent : is_sent little_endian documented ctx tcp_frame ≡ true
unfolding is_sent key_of rule
tcp_frame-is_sent = refl

is_sent-inspect_example :
    (is_sent little_endian documented ctx tcp_frame ≡ true)
    ↔ (inspect little_endian documented own tcp_frame ≡ acl_match)
unfolding init_acl init_tcp
is_sent-inspect_example =
    is_sent-inspect little_endian documented ctx own tcp_frame refl refl tcp_frame-IsBytes
      (omega arith)

-- the header of a query of DNS over UDP
abbrev header_bytes : List ℕ
header_bytes =
    (0x45 ∷ 0 ∷ 0 ∷ 60 ∷ 0 ∷ 0 ∷ 0 ∷ 0 ∷ 64 ∷ 17 ∷ []) ++ (zeros6 ++ (zeros6 ++ (0 ∷ 53 ∷ [])))

abbrev header : Memory
header = of_list header_bytes

header-IsBytes : IsBytes header
header-IsBytes = of_list-IsBytes header_bytes (ground arith)
