-- ===== src/Acl/Agree.antt =====
-- ACL/l2fwd_acl/main.c and ACL/exp/main.c have the same rule, which one of them builds and matches in the
-- byte order of the processor and the other in that of the network.
use dpdk_for_beginners.Base.{◌≡◌, ◌≢◌, ◌↔◌, inl, inr, true, some}
use dpdk_for_beginners.Dpdk.{ByteOrder}
use dpdk_for_beginners.Frame.{Memory, IsBytes, be16_at}
use dpdk_for_beginners.Acl.Field.{Acl}
use dpdk_for_beginners.Acl.Forward.{init_acl, is_sent, is_sent_iff}
use dpdk_for_beginners.Acl.Capture.{init_tcp, inspect, acl_match, ether_type_vlan, inspect_iff}

module _ (O : ByteOrder) (A : Acl) where
  -- For a packet without a VLAN tag the two programs agree: one sends it exactly if the other reports a
  -- match.
  pub is_sent-inspect :
      (ctx own : A.Ctx) (pkt : Memory)
      → init_acl O A ≡ some ctx
      → init_tcp O A ≡ some own
      → IsBytes pkt
      → be16_at pkt 12 ≢ ether_type_vlan
      → (is_sent O A ctx pkt ≡ true) ↔ (inspect O A own pkt ≡ acl_match)
  is_sent-inspect ctx own pkt e f b plain =
      let sent = is_sent_iff O A ctx pkt e b in
      let seen = inspect_iff O A own pkt f b in
      (
        (λ h. let w = sent.0 h in seen.1 (inl (w.0, (w.1, w.2)))),
        (λ h. elim (seen.0 h) [ inl w ↦ sent.1 (w.0, w.1.0, w.1.1) | inr w ↦ absurd (plain w.0) ]),
      )
