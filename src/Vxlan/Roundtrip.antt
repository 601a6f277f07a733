-- ===== src/Vxlan/Roundtrip.antt =====
-- What vxlan/main.c wraps it can unwrap.
use dpdk_for_beginners.Base.{
  ℕ, ◌+◌, ◌*◌, ◌%◌, ◌^◌, ◌<◌, ◌≡◌, refl, sym, inl, inr, true, false, some, none, List, ◌++◌, length,
  ltb, arith, Bool-cases, some-inj,
}
use dpdk_for_beginners.Vxlan.{
  Mbuf, byte, header_len, encap_header, vxlan_encap, is_vxlan, adj, vxlan_decap, translate,
}

module _ (ipv4_cksum : List ℕ → ℕ × ℕ) where
  wrapped : (m : Mbuf) (stale : ℕ × ℕ) (head : List ℕ) → Mbuf
  wrapped m stale head = record m {
    headroom = head;
    bytes = encap_header ipv4_cksum stale (length m.bytes % 2 ^ 16) ++ m.bytes;
  }

  wrapped-is_vxlan :
      (m : Mbuf) (stale : ℕ × ℕ) (head : List ℕ) → is_vxlan (wrapped m stale head) ≡ true
  unfolding wrapped is_vxlan encap_header
  wrapped-is_vxlan m stale head = refl

  adj-wrapped :
      (m : Mbuf) (stale : ℕ × ℕ) (head : List ℕ)
      → ((adj header_len (wrapped m stale head)).bytes ≡ m.bytes)
        × ((adj header_len (wrapped m stale head)).tailroom ≡ m.tailroom)
  unfolding wrapped adj encap_header
  adj-wrapped m stale head =
      let h : ltb (length (wrapped m stale head).bytes) header_len ≡ false = ground arith in
      rw h (refl, refl)

  decap-wrapped :
      (m : Mbuf) (stale : ℕ × ℕ) (head : List ℕ)
      → (d : Mbuf) × (vxlan_decap (wrapped m stale head) ≡ some d)
        × (d.bytes ≡ m.bytes)
        × (d.tailroom ≡ m.tailroom)
  unfolding vxlan_decap
  decap-wrapped m stale head =
      let a = adj-wrapped m stale head in
      (adj header_len (wrapped m stale head), rw (wrapped-is_vxlan m stale head), a.0, a.1)

  not_some : {e : Mbuf} → none ≡ some e → ⊥
  not_some q = cc

  encap-wrapped :
      (m e : Mbuf)
      → vxlan_encap ipv4_cksum m ≡ some e
      → (stale : ℕ × ℕ) × (head : List ℕ) × (e ≡ wrapped m stale head)
  unfolding vxlan_encap wrapped
  encap-wrapped m e h = elim (Bool-cases (ltb (length m.headroom) header_len)) [
    | inl short ↦ absurd (not_some (rw short at h))
    | inr room ↦ (_, _, sym (some-inj (rw room at h)))
  ]

  -- The inner packet of what was wrapped is unwrapped unchanged, whatever it holds and however long it
  -- is.
  pub decap-encap :
      (m e : Mbuf)
      → vxlan_encap ipv4_cksum m ≡ some e
      → (d : Mbuf) × (vxlan_decap e ≡ some d) × (d.bytes ≡ m.bytes) × (d.tailroom ≡ m.tailroom)
  decap-encap m e h =
      let (stale, head, q) = encap-wrapped m e h in rw q (decap-wrapped m stale head)

  translate-not_vxlan :
      (m : Mbuf) → is_vxlan m ≡ false → translate ipv4_cksum m ≡ vxlan_encap ipv4_cksum m
  unfolding translate vxlan_decap
  translate-not_vxlan m n = rw (translate, vxlan_decap, n) refl

  translate-unwrapped : (m d : Mbuf) → vxlan_decap m ≡ some d → translate ipv4_cksum m ≡ some d
  unfolding translate
  translate-unwrapped m d q = rw (translate, q) refl

  -- Of two gateways in a row, the second undoes what the first has done to a packet that is not VXLAN
  -- itself: the packet that leaves the second one has the bytes of the packet that came to the first.
  pub translate-translate :
      (m e : Mbuf)
      → is_vxlan m ≡ false
      → translate ipv4_cksum m ≡ some e
      → (d : Mbuf) × (translate ipv4_cksum e ≡ some d) × (d.bytes ≡ m.bytes)
  translate-translate m e n h =
      let (d, q, r, t) = decap-encap m e (rw (translate-not_vxlan m n) at h) in
      (d, translate-unwrapped e d q, r)

  lengths-wrapped :
      (m : Mbuf) (stale : ℕ × ℕ) (head : List ℕ)
      → length m.bytes + 36 < 2 ^ 16
      → let e = wrapped m stale head in
        (length e.bytes ≡ length m.bytes + header_len)
        × (byte e 16 * 256 + byte e 17 + 14 ≡ length e.bytes)
        × (byte e 38 * 256 + byte e 39 + 34 ≡ length e.bytes)
  unfolding wrapped encap_header
  lengths-wrapped m stale head h = (omega arith, omega arith, omega arith)

  -- The length fields of the outer IPv4 and UDP headers are those of the packet, as long as they can
  -- be written in 16 bits.
  pub encap_lengths :
      (m e : Mbuf)
      → vxlan_encap ipv4_cksum m ≡ some e
      → length m.bytes + 36 < 2 ^ 16
      → (length e.bytes ≡ length m.bytes + header_len)
        × (byte e 16 * 256 + byte e 17 + 14 ≡ length e.bytes)
        × (byte e 38 * 256 + byte e 39 + 34 ≡ length e.bytes)
  encap_lengths m e h small =
      let (stale, head, q) = encap-wrapped m e h in rw q (lengths-wrapped m stale head small)
