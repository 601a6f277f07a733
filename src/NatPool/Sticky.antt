-- ===== src/NatPool/Sticky.antt =====
-- A source of nat_project/version5 keeps its public address as long as its slot does not expire.
use dpdk_for_beginners.Base.{
  ℕ, ◌<◌, ◌≡◌, ◌≢◌, refl, sym, ◌∙◌, ap, subst, inl, inr, true, Option, none, some, List, [], ◌∷◌,
  arith, ◌==◌, ℕ_discrete, length, Bool-cases, Option-cases, some-inj,
}
use dpdk_for_beginners.Dpdk.{HashTable, ByteOrder}
use dpdk_for_beginners.Dpdk.Table.{lookup-add_quietly_ne}
use dpdk_for_beginners.Packet.{Packet, Checksums, ether_type_ipv4}
use dpdk_for_beginners.NatPool.State.{Entry, InboundEntry, Pool, entry}
use dpdk_for_beginners.NatPool.Apply.{
  rewrite_and_recalc, find_free_slot, assign, outbound_new, outbound, ipv4, apply_one,
  nat_pool_apply,
}
use dpdk_for_beginners.NatPool.Sound.{IsSound, entry-write_self}
use dpdk_for_beginners.NatPool.Sound.Steps.{add_quietly-keys}
use dpdk_for_beginners.NatPool.Sound.Loop.{apply_one-IsSound}
use dpdk_for_beginners.NatPool.Translate.{rewrite_and_recalc_lem}
use dpdk_for_beginners.NatPool.Outcome.{IsOutbound, apply_outbound, not_none}

module _ (O : HashTable ℕ ℕ) (I : HashTable ℕ InboundEntry) (B : ByteOrder) (C : Checksums) where
  outbound_new-out :
      (now : ℕ) (o : Option ℕ) (p : Pool O I) (m out : Packet) (i : ℕ)
      → O.lookup p.outbound_map m.src_addr ≡ none
      → O.lookup (outbound_new O I B C now o p m).0.outbound_map m.src_addr ≡ some i
      → (outbound_new O I B C now o p m).1 ≡ some out
      → out ≡ rewrite_and_recalc C m (entry O I (outbound_new O I B C now o p m).0 i).public_ip true
  unfolding outbound_new assign
  outbound_new-out now none p m out i e h f = absurd (not_none O I B C (sym f))
  outbound_new-out now (some s) p m out i e h f =
      elim (add_quietly-keys O I B p.outbound_map m.src_addr s m.src_addr i h) [
        | inl (q, _) ↦ rw (← q) (sym (some-inj f))
        | inr old ↦ cc (old, e)
      ]

  outbound-out :
      (now : ℕ) (o : Option ℕ) (p : Pool O I) (m out : Packet) (i : ℕ)
      → O.lookup p.outbound_map m.src_addr ≡ o
      → O.lookup (outbound O I B C now o p m).0.outbound_map m.src_addr ≡ some i
      → (outbound O I B C now o p m).1 ≡ some out
      → out ≡ rewrite_and_recalc C m (entry O I (outbound O I B C now o p m).0 i).public_ip true
  unfolding outbound
  outbound-out now none p m out i e h f = outbound_new-out now _ p m out i e h f
  outbound-out now (some s) p m out i e h f =
      let q : s ≡ i = some-inj (sym e ∙ h) in rw (← q) (sym (some-inj f))

  hit :
      (now : ℕ) (p : Pool O I) (m : Packet) (i : ℕ)
      → i < length p.entries
      → (outbound O I B C now (some i) p m).1
        ≡ some (rewrite_and_recalc C m (entry O I p i).public_ip true)
  unfolding outbound
  hit now p m i hi =
      ap (λ (e : Entry). some (rewrite_and_recalc C m e.public_ip true))
        (entry-write_self O I p i
          (record {
            private_ip = (entry O I p i).private_ip;
            public_ip = (entry O I p i).public_ip;
            last_seen_tsc = now;
            in_use = (entry O I p i).in_use;
          })
          hi)

  outbound-hit :
      (now : ℕ) (p : Pool O I) (m : Packet) (i : ℕ)
      → i < length p.entries
      → IsOutbound O I B C p m
      → O.lookup p.outbound_map m.src_addr ≡ some i
      → (apply_one O I B C now p m).1 ≡ some (rewrite_and_recalc C m (entry O I p i).public_ip true)
  outbound-hit now p m i hi o e = rw (apply_outbound O I B C now p m o, e) (hit now p m i hi)

  inbound_map-outbound :
      (now : ℕ) (o : Option ℕ) (p : Pool O I) (m : Packet)
      → (outbound O I B C now o p m).0.inbound_map ≡ p.inbound_map
  unfolding outbound outbound_new assign
  inbound_map-outbound now o p m = ground arith

  -- The slot `i` of the source `k`, and what the pool has beside its slots, are as they were.
  record Keeps (k i : ℕ) (p q : Pool O I) : Type 0 where
    slot : O.lookup q.outbound_map k ≡ some i
    mappings : q.inbound_map ≡ p.inbound_map
    size : q.pool_size ≡ p.pool_size
    start : q.pool_start_ip ≡ p.pool_start_ip

  same_pool : (p : Pool O I) (k i : ℕ) → O.lookup p.outbound_map k ≡ some i → Keeps k i p p
  same_pool p k i h = record { slot = h; mappings = refl; size = refl; start = refl }

  outbound_new-Keeps :
      (now : ℕ) (o : Option ℕ) (p : Pool O I) (m : Packet) (k i : ℕ)
      → O.lookup p.outbound_map m.src_addr ≡ none
      → O.lookup p.outbound_map k ≡ some i
      → Keeps k i p (outbound_new O I B C now o p m).0
  unfolding outbound_new assign
  outbound_new-Keeps now none p m k i e h = same_pool p k i h
  outbound_new-Keeps now (some s) p m k i e h = record {
    slot = lookup-add_quietly_ne O ℕ_discrete p.outbound_map m.src_addr s k other ∙ h;
    mappings = refl;
    size = refl;
    start = refl;
  }
    where
      other : m.src_addr ≢ k
      other q = cc

  outbound-Keeps :
      (now : ℕ) (o : Option ℕ) (p : Pool O I) (m : Packet) (k i : ℕ)
      → O.lookup p.outbound_map m.src_addr ≡ o
      → O.lookup p.outbound_map k ≡ some i
      → Keeps k i p (outbound O I B C now o p m).0
  unfolding outbound
  outbound-Keeps now none p m k i e h = outbound_new-Keeps now (find_free_slot O I p) p m k i e h
  outbound-Keeps now (some s) p m k i e h = record {
    slot = h;
    mappings = refl;
    size = refl;
    start = refl;
  }

  apply_one-Keeps :
      (now : ℕ) (p : Pool O I) (m : Packet) (k i : ℕ)
      → O.lookup p.outbound_map k ≡ some i
      → Keeps k i p (apply_one O I B C now p m).0
  unfolding apply_one ipv4
  apply_one-Keeps now p m k i h = elim (Bool-cases (m.ether_type == B.be16 ether_type_ipv4)) [
    | inr other ↦ rw other (same_pool p k i h)
    | inl ip ↦ elim (Option-cases (I.lookup p.inbound_map m.dst_addr)) [
      | inr (s, found) ↦ rw (ip, found) (same_pool p k i h)
      | inl missing ↦
          rw (ip, missing) (outbound-Keeps now (O.lookup p.outbound_map m.src_addr) p m k i refl h)
    ]
  ]

  -- A sound pool stays so over packets, and a source with a slot keeps it.
  nat_pool_apply-Keeps :
      (ms : List (ℕ × Packet)) (p : Pool O I) (k i : ℕ)
      → IsSound O I B p
      → O.lookup p.outbound_map k ≡ some i
      → let q = (nat_pool_apply O I B C p ms).0 in Keeps k i p q × IsSound O I B q
  unfolding nat_pool_apply
  nat_pool_apply-Keeps [] p k i v h = (same_pool p k i h, v)
  nat_pool_apply-Keeps ((now, m) ∷ ms) p k i v h =
      let a = apply_one-Keeps now p m k i h in
      let (b, w) =
        nat_pool_apply-Keeps ms (apply_one O I B C now p m).0 k i
          (apply_one-IsSound O I B C now p m v) a.slot in
      (
        record {
          slot = b.slot;
          mappings = b.mappings ∙ a.mappings;
          size = b.size ∙ a.size;
          start = b.start ∙ a.start;
        },
        w,
      )

  -- In a sound pool, once a source has a slot, the source address with which its packet left is that of its
  -- later packets, whatever other packets come in between and at any times, as long as no expiry callback
  -- runs. (After 5 seconds without a packet one may release the slot.)
  pub nat_pool_apply-sticky :
      (now later : ℕ) (p : Pool O I) (m n out : Packet) (i : ℕ) (ms : List (ℕ × Packet))
      → IsSound O I B p
      → IsOutbound O I B C p m
      → IsOutbound O I B C p n
      → n.src_addr ≡ m.src_addr
      → O.lookup (apply_one O I B C now p m).0.outbound_map m.src_addr ≡ some i
      → (apply_one O I B C now p m).1 ≡ some out
      → (apply_one O I B C later (nat_pool_apply O I B C (apply_one O I B C now p m).0 ms).0 n).1
        ≡ some (rewrite_and_recalc C n out.src_addr true)
  nat_pool_apply-sticky now later p m n out i ms v om on same h e = rw (
    outbound-hit later r n i (omega (arith, x.laid_out.sized, here)) on' (rw same kept.slot),
    src,
    address,
  )
    where
      q : Pool O I
      q = (apply_one O I B C now p m).0

      r : Pool O I
      r = (nat_pool_apply O I B C q ms).0

      w : IsSound O I B q
      w = apply_one-IsSound O I B C now p m v

      both : Keeps m.src_addr i q r × IsSound O I B r
      both = nat_pool_apply-Keeps ms q m.src_addr i w h

      kept : Keeps m.src_addr i q r
      kept = both.0

      x : IsSound O I B r
      x = both.1

      here : i < r.pool_size
      here = (x.backed _ i kept.slot).0

      address : (entry O I q i).public_ip ≡ (entry O I r i).public_ip
      address =
          w.laid_out.addressed i (w.backed _ i h).0
          ∙ sym (rw (← kept.start) (x.laid_out.addressed i here))

      step :
          apply_one O I B C now p m ≡ outbound O I B C now (O.lookup p.outbound_map m.src_addr) p m
      step = apply_outbound O I B C now p m om

      on' : IsOutbound O I B C r n
      on' = record {
        is_ipv4 = on.is_ipv4;
        unmapped =
            ap (λ (t : I.Table). I.lookup t n.dst_addr)
              (kept.mappings
                ∙ ap (λ (s : Pool O I × Option Packet). s.0.inbound_map) step
                ∙ inbound_map-outbound now _ p m)
            ∙ on.unmapped;
      }

      shape : out ≡ rewrite_and_recalc C m (entry O I q i).public_ip true
      shape =
          subst
            (λ (s : Pool O I × Option Packet).
              O.lookup s.0.outbound_map m.src_addr ≡ some i
              → s.1 ≡ some out
              → out ≡ rewrite_and_recalc C m (entry O I s.0 i).public_ip true)
            (sym step) (outbound-out now _ p m out i refl) h e

      src : out.src_addr ≡ (entry O I q i).public_ip
      src = rw shape (rewrite_and_recalc_lem C m (entry O I q i).public_ip true).0
