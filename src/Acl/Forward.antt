-- ===== src/Acl/Forward.antt =====
-- ACL/l2fwd_acl/main.c: of the packets that arrive, those that match a rule are sent back, and the
-- others are freed.
use dpdk_for_beginners.Base.{
  ℕ, ◌+◌, ◌*◌, ◌%◌, ◌≡◌, ◌↔◌, refl, ◌∙◌, sym, Bool-cases, inl, inr, Bool, true, false, Option, some,
  List, [], ◌∷◌, ◌==◌, if◌then◌else◌, arith, All, Shuffle, done, to_left, to_right,
}
use mathlib.Core.Bool.{true≢false}
use dpdk_for_beginners.Dpdk.{ByteOrder}
use dpdk_for_beginners.Packet.{ether_type_ipv4, ipproto_tcp}
use dpdk_for_beginners.Frame.{
  Memory, IsBytes, be16_at, be32_at, load16, load32, load16-lt, load32-lt, load16_iff, load32_iff,
}
use dpdk_for_beginners.Acl.Field.{Rule, Acl, rule_matches, bit_and_ones, one_rule}
use dpdk_for_beginners.Acl.Key.{
  PktKey, Fits, with_ports, with_ports-keeps, with_ports-Fits, rte_ipv4, field_defs, key_bytes,
  rule_matches-key_bytes,
}

-- the address that the rule asks for
abbrev pub wanted : ℕ
wanted = rte_ipv4 172 17 166 200

module _ (O : ByteOrder) (A : Acl) where
  unfoldable pub rule : Rule
  rule = record {
    priority = 10;
    category_mask = 1;
    userdata = 1;
    field =
        record { value = ipproto_tcp; mask_range = 0xFF }
        ∷ record { value = O.be32 wanted; mask_range = 32 }
        ∷ record { value = 0; mask_range = 0 }
        ∷ record { value = 0; mask_range = 65535 }
        ∷ record { value = 0; mask_range = 65535 }
        ∷ [];
  }

  unfoldable pub init_acl : Option A.Ctx
  unfolding rule
  init_acl = A.build (field_defs 3) (rule ∷ [])

  -- the key of an IPv4 packet behind an Ethernet header, in the byte order of the processor
  unfoldable pub key_of : Memory → PktKey
  key_of pkt =
      let l4 = 14 + (pkt 14 % 16) * 4 in
      with_ports (pkt 23) (O.be16 (load16 O pkt l4)) (O.be16 (load16 O pkt (l4 + 2))) (record {
        proto = pkt 23;
        src_ip = O.be32 (load32 O pkt 26);
        dst_ip = O.be32 (load32 O pkt 30);
        src_port = 0;
        dst_port = 0;
      })

  -- whether a packet is handed to the port, rather than freed
  unfoldable pub is_sent : A.Ctx → Memory → Bool
  unfolding key_of
  is_sent ctx pkt =
      if load16 O pkt 12 == O.be16 ether_type_ipv4
      then if A.classify ctx (key_bytes O (key_of pkt)) == 0 then false else true
      else false

  -- What becomes of a burst: the packets that `rte_eth_tx_burst` takes, those that it does not take, which the
  -- program neither sends again nor frees, and those that are freed.
  pub record Burst : Type 0 where
    pub sent : List (Memory × Bool)
    pub lost : List (Memory × Bool)
    pub freed : List (Memory × Bool)

  -- `rte_eth_tx_burst` of one packet, whose result is ignored
  unfoldable pub tx_one : Memory × Bool → Burst → Burst
  tx_one (m, true) r = record r { sent = (m, true) ∷ r.sent }
  tx_one (m, false) r = record r { lost = (m, false) ∷ r.lost }

  -- the loop over a burst, each packet with whether the port would take it
  unfoldable pub forward_burst : A.Ctx → List (Memory × Bool) → Burst
  unfolding is_sent tx_one
  forward_burst ctx [] = record { sent = []; lost = []; freed = [] }
  forward_burst ctx (m ∷ ms) =
      let rest = forward_burst ctx ms in
      if is_sent ctx m.0 then tx_one m rest else record rest { freed = m ∷ rest.freed }

  key_of-Fits : (pkt : Memory) → IsBytes pkt → Fits (key_of pkt)
  unfolding key_of
  key_of-Fits pkt b =
      with_ports-Fits (pkt 23) (O.be16-lt _ (load16-lt O pkt _ b))
        (O.be16-lt _ (load16-lt O pkt _ b))
        (record {
          proto_fits = b 23;
          src_ip_fits = O.be32-lt _ (load32-lt O pkt 26 b);
          dst_ip_fits = O.be32-lt _ (load32-lt O pkt 30 b);
          src_port_fits = omega arith;
          dst_port_fits = omega arith;
        })

  rule_iff :
      (k : PktKey)
      → Fits k
      → (rule_matches (field_defs 3) rule (key_bytes O k) ≡ true)
        ↔ ((k.proto ≡ ipproto_tcp) × (O.be32 k.src_ip ≡ O.be32 wanted))
  unfolding rule
  rule_iff k w =
      rw (rule_matches-key_bytes O rule k 3 w, bit_and_ones k.proto w.proto_fits)
        (
          (λ h. ground arith),
          (λ h. ground (arith, O.be32-lt k.dst_ip, O.be16-lt k.src_port, O.be16-lt k.dst_port, w)),
        )

  -- TCP over IPv4 from the address 172.17.166.200, without a VLAN tag
  abbrev pub Wanted : Memory → Type 0
  Wanted pkt =
      (be16_at pkt 12 ≡ ether_type_ipv4) × (pkt 23 ≡ ipproto_tcp) × (be32_at pkt 26 ≡ wanted)

  key-Wanted :
      (pkt : Memory)
      → IsBytes pkt
      → (((key_of pkt).proto ≡ ipproto_tcp) × (O.be32 (key_of pkt).src_ip ≡ O.be32 wanted))
        ↔ ((pkt 23 ≡ ipproto_tcp) × (be32_at pkt 26 ≡ wanted))
  unfolding key_of
  key-Wanted pkt b =
      let k =
        with_ports-keeps (pkt 23) (O.be16 (load16 O pkt (14 + (pkt 14 % 16) * 4)))
          (O.be16 (load16 O pkt (14 + (pkt 14 % 16) * 4 + 2)))
          (record {
            proto = pkt 23;
            src_ip = O.be32 (load32 O pkt 26);
            dst_ip = O.be32 (load32 O pkt 30);
            src_port = 0;
            dst_port = 0;
          }) in
      let load = load32_iff O pkt 26 wanted b (omega arith) in
      let twice = O.be32-be32 _ (load32-lt O pkt 26 b) in
      rw (k.0, k.1, twice) ((λ h. (h.0, load.0 h.1)), (λ h. (h.0, load.1 h.1)))

  classify_lem :
      (ctx : A.Ctx) (d : Memory)
      → init_acl ≡ some ctx
      → A.classify ctx d ≡ (if rule_matches (field_defs 3) rule d then 1 else 0)
  unfolding init_acl
  classify_lem ctx d e =
      A.classify-build (field_defs 3) (rule ∷ []) ctx d refl refl e ∙ one_rule (field_defs 3) rule d

  -- Once the context is built, the packets that are sent are those that are wanted.
  pub is_sent_iff :
      (ctx : A.Ctx) (pkt : Memory)
      → init_acl ≡ some ctx
      → IsBytes pkt
      → (is_sent ctx pkt ≡ true) ↔ Wanted pkt
  unfolding is_sent
  is_sent_iff ctx pkt e b =
      let q = classify_lem ctx (key_bytes O (key_of pkt)) e in
      let r = rule_iff (key_of pkt) (key_of-Fits pkt b) in
      let k = key-Wanted pkt b in
      let ty = load16_iff O pkt 12 ether_type_ipv4 b (omega arith) in
      elim (Bool-cases (rule_matches (field_defs 3) rule (key_bytes O (key_of pkt)))) [
        | inl y ↦
            let w = k.0 (r.0 y) in
            rw (q, y) ((λ h. (ground (arith, ty.0), w.0, w.1)), (λ h. ground (arith, ty.1 h.0)))
        | inr n ↦
            rw (q, n)
              ((λ h. ground arith), (λ h. absurd (true≢false (sym (r.1 (k.1 (h.1, h.2))) ∙ n))))
      ]

  -- Each packet of the list `hs` is wanted, and either taken by the port, or not taken and lost.
  abbrev Handed : List (Memory × Bool) → Burst → Type 0
  Handed hs r =
      Shuffle r.sent r.lost hs
      × All (λ m. Wanted m.0 × (m.1 ≡ true)) r.sent
      × All (λ m. Wanted m.0 × (m.1 ≡ false)) r.lost

  tx_one-Handed :
      (m : Memory × Bool) (hs : List (Memory × Bool)) (r : Burst)
      → Wanted m.0
      → Handed hs r
      → Handed (m ∷ hs) (tx_one m r) × ((tx_one m r).freed ≡ r.freed)
  unfolding tx_one
  tx_one-Handed (m, true) hs r w (s, a, b) = ((to_left s, ((w, refl), a), b), refl)
  tx_one-Handed (m, false) hs r w (s, a, b) = ((to_right s, a, ((w, refl), b)), refl)

  -- What becomes of a burst: the list `hs` of the packets that are handed to the port, and the others, which
  -- are freed.
  abbrev pub Sorted : List (Memory × Bool) → Burst → Type 0
  Sorted ms r =
      (hs : List (Memory × Bool)) × Shuffle hs r.freed ms
      × Handed hs r
      × All (λ m. Wanted m.0 → ⊥) r.freed

  -- Once the context is built, every packet of a burst meets one of three ends, each in the order of the burst:
  -- it is sent, if it is wanted and the port takes it; lost, neither sent nor freed, if it is wanted and the port
  -- does not take it; and freed, if it is not wanted.
  pub forward_burst-Shuffle :
      (ctx : A.Ctx) (ms : List (Memory × Bool))
      → init_acl ≡ some ctx
      → All (λ m. IsBytes m.0) ms
      → Sorted ms (forward_burst ctx ms)
  unfolding forward_burst
  forward_burst-Shuffle ctx [] e b = ([], done, (done, tt, tt), tt)
  forward_burst-Shuffle ctx (m ∷ ms) e b =
      let (hs, s, w, f) = forward_burst-Shuffle ctx ms e b.1 in
      let q = is_sent_iff ctx m.0 e b.0 in
      elim (Bool-cases (is_sent ctx m.0)) [
        | inl y ↦
            let (t, same) = tx_one-Handed m hs (forward_burst ctx ms) (q.0 y) w in
            rw (y, same) (m ∷ hs, to_left s, t, f)
        | inr n ↦ rw n (hs, to_right s, w, ((λ h. true≢false (sym (q.1 h) ∙ n)), f))
      ]
