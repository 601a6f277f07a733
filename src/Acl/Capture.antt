-- ===== src/Acl/Capture.antt =====
-- ACL/exp/main.c and ACL/real_packet_acl/main2.c, which differ in their rule and in the input of the
-- last field: every packet that arrives is compared with the rule, and freed.
use mathlib.Core.Bool.{true≢false}
use dpdk_for_beginners.Base.{
  ℕ, ◌+◌, ◌*◌, ◌%◌, ◌≡◌, ◌↔◌, ◌⊎◌, refl, ◌∙◌, sym, Bool-cases, inl, inr, true, false, Option, some,
  [], ◌∷◌, ◌==◌, if◌then◌else◌, arith,
}
use dpdk_for_beginners.Dpdk.{ByteOrder}
use dpdk_for_beginners.Packet.{ether_type_ipv4, ipproto_tcp, ipproto_udp}
use dpdk_for_beginners.Frame.{
  Memory, IsBytes, be16_at, be32_at, load16, load32, load16-lt, load32-lt, load16_iff, be32-load32,
}
use dpdk_for_beginners.Acl.Field.{Rule, Acl, rule_matches, bit_and_ones, one_rule}
use dpdk_for_beginners.Acl.Key.{
  PktKey, Fits, with_ports, with_ports-keeps, with_ports-Fits, rte_ipv4, field_defs, key_bytes,
  rule_matches-key_bytes,
}

-- what becomes of a packet before it is freed
pub data Verdict : Type 0 where
  skipped acl_match acl_no_match : Verdict

abbrev pub ether_type_vlan : ℕ
ether_type_vlan = 0x8100

-- the rule of exp/main.c
unfoldable pub tcp_rule : Rule
tcp_rule = record {
  priority = 10;
  category_mask = 1;
  userdata = 1;
  field =
      record { value = ipproto_tcp; mask_range = 0xFF }
      ∷ record { value = rte_ipv4 172 17 166 200; mask_range = 32 }
      ∷ record { value = 0; mask_range = 0 }
      ∷ record { value = 0; mask_range = 65535 }
      ∷ record { value = 0; mask_range = 65535 }
      ∷ [];
}

-- the rule of real_packet_acl/main2.c
unfoldable pub ssdp_rule : Rule
ssdp_rule = record {
  priority = 10;
  category_mask = 1;
  userdata = 1;
  field =
      record { value = ipproto_udp; mask_range = 0xFF }
      ∷ record { value = 0; mask_range = 0 }
      ∷ record { value = rte_ipv4 239 255 255 250; mask_range = 32 }
      ∷ record { value = 0; mask_range = 65535 }
      ∷ record { value = 1900; mask_range = 1900 }
      ∷ [];
}

module _ (O : ByteOrder) (A : Acl) where
  -- `ptr`, the offset of layer 3, behind a VLAN tag if there is one
  unfoldable pub l3_at : Memory → ℕ
  l3_at pkt = if load16 O pkt 12 == O.be16 ether_type_vlan then 18 else 14

  -- `eth_type`, which lies before layer 3
  unfoldable pub eth_type : Memory → ℕ
  unfolding l3_at
  eth_type pkt =
      if load16 O pkt 12 == O.be16 ether_type_vlan then load16 O pkt 16 else load16 O pkt 12

  -- the key of an IPv4 packet, in the byte order of the network
  unfoldable pub raw_key : Memory → ℕ → PktKey
  raw_key pkt ip =
      let l4 = ip + (pkt ip % 16) * 4 in
      with_ports (pkt (ip + 9)) (load16 O pkt l4) (load16 O pkt (l4 + 2)) (record {
        proto = pkt (ip + 9);
        src_ip = load32 O pkt (ip + 12);
        dst_ip = load32 O pkt (ip + 16);
        src_port = 0;
        dst_port = 0;
      })

  -- the body of the loop
  unfoldable pub inspect : A.Ctx → Memory → Verdict
  unfolding l3_at eth_type raw_key
  inspect ctx pkt =
      if eth_type pkt == O.be16 ether_type_ipv4
      then if A.classify ctx (key_bytes O (raw_key pkt (l3_at pkt))) == 0
        then acl_no_match
        else acl_match
      else skipped

  raw_key-Fits : (pkt : Memory) (ip : ℕ) → IsBytes pkt → Fits (raw_key pkt ip)
  unfolding raw_key
  raw_key-Fits pkt ip b =
      with_ports-Fits (pkt (ip + 9)) (load16-lt O pkt _ b) (load16-lt O pkt _ b) (record {
        proto_fits = b (ip + 9);
        src_ip_fits = load32-lt O pkt (ip + 12) b;
        dst_ip_fits = load32-lt O pkt (ip + 16) b;
        src_port_fits = omega arith;
        dst_port_fits = omega arith;
      })

  tcp_rule_iff :
      (k : PktKey)
      → Fits k
      → (rule_matches (field_defs 3) tcp_rule (key_bytes O k) ≡ true)
        ↔ ((k.proto ≡ ipproto_tcp) × (O.be32 k.src_ip ≡ rte_ipv4 172 17 166 200))
  unfolding tcp_rule
  tcp_rule_iff k w =
      rw (rule_matches-key_bytes O tcp_rule k 3 w, bit_and_ones k.proto w.proto_fits)
        (
          (λ h. ground arith),
          (λ h. ground (arith, O.be32-lt k.dst_ip, O.be16-lt k.src_port, O.be16-lt k.dst_port, w)),
        )

  -- The key of a packet matches this rule exactly if the packet goes by UDP to port 1900 of
  -- 239.255.255.250.
  pub ssdp_rule_iff :
      (k : PktKey)
      → Fits k
      → (rule_matches (field_defs 4) ssdp_rule (key_bytes O k) ≡ true) ↔ (
          (k.proto ≡ ipproto_udp)
          × (O.be32 k.dst_ip ≡ rte_ipv4 239 255 255 250)
          × (O.be16 k.dst_port ≡ 1900))
  unfolding ssdp_rule
  ssdp_rule_iff k w =
      rw (rule_matches-key_bytes O ssdp_rule k 4 w, bit_and_ones k.proto w.proto_fits)
        (
          (λ h. (ground arith, ground arith, ground arith)),
          (λ h. ground (arith, O.be32-lt k.src_ip, O.be16-lt k.src_port, w)),
        )

  unfoldable pub init_tcp : Option A.Ctx
  init_tcp = A.build (field_defs 3) (tcp_rule ∷ [])

  -- TCP over IPv4 from the address 172.17.166.200, where the IPv4 header lies at `ip`
  abbrev pub FromWanted : Memory → ℕ → Type 0
  FromWanted pkt ip =
      (pkt (ip + 9) ≡ ipproto_tcp) × (be32_at pkt (ip + 12) ≡ rte_ipv4 172 17 166 200)

  key-FromWanted :
      (pkt : Memory) (ip : ℕ)
      → IsBytes pkt
      → (((raw_key pkt ip).proto ≡ ipproto_tcp)
          × (O.be32 (raw_key pkt ip).src_ip ≡ rte_ipv4 172 17 166 200))
        ↔ FromWanted pkt ip
  unfolding raw_key
  key-FromWanted pkt ip b =
      let l4 = ip + (pkt ip % 16) * 4 in
      let k = with_ports-keeps (pkt (ip + 9)) (load16 O pkt l4) (load16 O pkt (l4 + 2)) (record {
        proto = pkt (ip + 9);
        src_ip = load32 O pkt (ip + 12);
        dst_ip = load32 O pkt (ip + 16);
        src_port = 0;
        dst_port = 0;
      }) in
      rw (k.0, k.1, be32-load32 O pkt (ip + 12) b) ((λ h. h), (λ h. h))

  classify_iff :
      (ctx : A.Ctx) (pkt : Memory) (ip : ℕ)
      → init_tcp ≡ some ctx
      → IsBytes pkt
      → ((A.classify ctx (key_bytes O (raw_key pkt ip)) == 0) ≡ false) ↔ FromWanted pkt ip
  unfolding init_tcp raw_key tcp_rule
  classify_iff ctx pkt ip e b =
      let key = raw_key pkt ip in
      let q =
        A.classify-build (field_defs 3) (tcp_rule ∷ []) ctx (key_bytes O key) refl refl e
        ∙ one_rule (field_defs 3) tcp_rule (key_bytes O key) in
      let k = key-FromWanted pkt ip b in
      let r = tcp_rule_iff key (raw_key-Fits pkt ip b) in
      elim (Bool-cases (rule_matches (field_defs 3) tcp_rule (key_bytes O key))) [
        | inl y ↦ let w = k.0 (r.0 y) in rw (q, y) ((λ h. w), (λ h. refl))
        | inr n ↦
            rw (q, n)
              ((λ h. absurd (true≢false h)), (λ h. absurd (true≢false (sym (r.1 (k.1 h)) ∙ n))))
      ]

  -- Once the context is built, a packet is reported as a match exactly if it is TCP over IPv4 from this
  -- address, behind the Ethernet header or behind one VLAN tag.
  pub inspect_iff :
      (ctx : A.Ctx) (pkt : Memory)
      → init_tcp ≡ some ctx
      → IsBytes pkt
      → (inspect ctx pkt ≡ acl_match) ↔ (
          ((be16_at pkt 12 ≡ ether_type_ipv4) × FromWanted pkt 14)
          ⊎ ((be16_at pkt 12 ≡ ether_type_vlan)
              × (be16_at pkt 16 ≡ ether_type_ipv4)
              × FromWanted pkt 18))
  unfolding inspect
  inspect_iff ctx pkt e b =
      let plain = classify_iff ctx pkt 14 e b in
      let tagged = classify_iff ctx pkt 18 e b in
      let ipv4 = load16_iff O pkt 12 ether_type_ipv4 b (omega arith) in
      let vlan = load16_iff O pkt 12 ether_type_vlan b (omega arith) in
      let inner = load16_iff O pkt 16 ether_type_ipv4 b (omega arith) in
      (
        (λ h. ground (arith, plain.0, tagged.0, ipv4.0, vlan.0, inner.0)),
        (λ h. ground (arith, plain.1, tagged.1, ipv4.1, vlan.1, inner.1)),
      )
