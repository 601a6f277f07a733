-- ===== src/StaticNat/Laws.antt =====
-- What the static NAT makes of a packet, and which sources hash.c has on record.
use dpdk_for_beginners.Base.{
  ℕ, ◌≡◌, ◌≢◌, ◌↔◌, ◌⊎◌, refl, sym, subst, ◌∙◌, ap, ap₂, ◌||◌, ◌==◌, arith, Bool-cases, inl, inr,
  true, Option, none, some, List, [], ◌∷◌, ==_iff, Option-cases, some-inj,
}
use dpdk_for_beginners.Dpdk.{HashTable, ByteOrder, add_quietly}
use dpdk_for_beginners.Dpdk.Table.{add_quietly-keys, lookup-add_quietly}
use dpdk_for_beginners.Packet.{Packet, Checksums, ether_type_ipv4, ipproto_tcp, ipproto_udp}
use dpdk_for_beginners.NatPool.Translate.{rewrite_and_recalc_lem}
use dpdk_for_beginners.NatPool.Apply.{rewrite_and_recalc}
use dpdk_for_beginners.Config.{Text, Malloc, StaticEntry, nat_load_mappings}
use dpdk_for_beginners.Config.Mappings.{static_said, said, lookup-nat_load_mappings}
use dpdk_for_beginners.StaticNat.{
  static_ipv4, static_one, IpPortKey, IpPortKey-discrete, src_key, store, track, hash_ips,
}

module _ (H : HashTable ℕ StaticEntry) (B : ByteOrder) (C : Checksums) where
  open C use {ip_ok}

  -- When a file has been loaded into an empty table, an IPv4 packet leaves with the public address that
  -- the last valid line for its source gives, with the destination that it had and a valid header
  -- checksum; a packet whose source no line names leaves as it came.
  pub static_one_lem :
      (sscanf : Text → Option (Text × Text)) (inet_pton : Text → ℕ → ℕ)
      (lines : List (Malloc × Text)) (t u : H.Table) (n : ℕ) (m : Packet)
      → ((k : ℕ) → H.lookup t k ≡ none)
      → nat_load_mappings inet_pton H sscanf (some lines) t ≡ some (u, n)
      → m.ether_type ≡ B.be16 ether_type_ipv4
      → let out = static_one H B C u m in
        let e = said sscanf (static_said inet_pton) m.src_addr lines none in
        ((e ≡ none) × (out ≡ m))
        ⊎ ((s : StaticEntry) × (e ≡ some s)
            × (out.src_addr ≡ s.public_ip)
            × (out.dst_addr ≡ m.dst_addr)
            × (ip_ok out ≡ true))
  unfolding static_one static_ipv4
  static_one_lem sscanf inet_pton lines t u n m empty load ip = elim (Option-cases e) [
    | inl q ↦ inl (q, rw ((==_iff _ _).1 ip, found ∙ q) refl)
    | inr (s, q) ↦
        let r = rewrite_and_recalc_lem C m s.public_ip true in
        let here : static_one H B C u m ≡ rewrite_and_recalc C m s.public_ip true =
          rw ((==_iff _ _).1 ip, found ∙ q) refl in
        inr (
          s,
          q,
          ap (λ (x : Packet). x.src_addr) here ∙ r.0,
          ap (λ (x : Packet). x.dst_addr) here ∙ r.1,
          ap ip_ok here ∙ r.6,
        )
  ]
    where
      e : Option StaticEntry
      e = said sscanf (static_said inet_pton) m.src_addr lines none

      found : H.lookup u m.src_addr ≡ e
      found =
          lookup-nat_load_mappings H sscanf inet_pton lines t u n m.src_addr load
          ∙ ap (said sscanf (static_said inet_pton) m.src_addr lines) (empty m.src_addr)

pub chain : {P Q R S T : Type 0} → (P ↔ (Q ⊎ R)) → (Q ↔ (S ⊎ T)) → P ↔ (S ⊎ T ⊎ R)
chain {P = P} {R = R} {S = S} {T = T} outer inner = (forth, back)
  where
    forth : P → S ⊎ T ⊎ R
    forth h = elim (outer.0 h) [
      | inr r ↦ inr (inr r)
      | inl q ↦ elim (inner.0 q) [ inl x ↦ inl x | inr y ↦ inr (inl y) ]
    ]

    back : S ⊎ T ⊎ R → P
    back (inl x) = outer.1 (inl (inner.1 (inl x)))
    back (inr (inl y)) = outer.1 (inl (inner.1 (inr y)))
    back (inr (inr r)) = outer.1 (inr r)

module _ (H : HashTable IpPortKey ℕ) (B : ByteOrder) where
  -- a key that is on record
  abbrev pub Known : H.Table → IpPortKey → Type 0
  Known t k = (v : ℕ) × (H.lookup t k ≡ some v)

  -- The packet is TCP or UDP over IPv4, and has this source.
  pub record IsFrom (k : IpPortKey) (m : Packet) : Type 0 where
    pub over_ipv4 : m.ether_type ≡ B.be16 ether_type_ipv4
    pub has_ports : (m.next_proto_id ≡ ipproto_tcp) ⊎ (m.next_proto_id ≡ ipproto_udp)
    pub from_ip : k.ip ≡ m.src_addr
    pub from_port : k.port ≡ m.src_port

  key-inj : {j k : IpPortKey} → some j ≡ some k → j ≡ k
  key-inj e = some-inj e

  src_key-IsFrom : (k : IpPortKey) (m : Packet) → (src_key B m ≡ some k) ↔ IsFrom k m
  unfolding src_key
  src_key-IsFrom k m = (forth, back)
    where
      not_some : none ≡ some k → ⊥
      not_some q = cc

      forth : src_key B m ≡ some k → IsFrom k m
      forth h = elim (Bool-cases (m.ether_type == B.be16 ether_type_ipv4)) [
        | inr n ↦ absurd (not_some (rw n at h))
        | inl y ↦
            elim (Bool-cases (m.next_proto_id == ipproto_tcp || m.next_proto_id == ipproto_udp)) [
              | inr n ↦ absurd (not_some (rw (y, n) at h))
              | inl p ↦
                  let e = key-inj (rw (y, p) at h) in
                  record {
                    over_ipv4 = (==_iff _ _).0 y;
                    has_ports = ground arith;
                    from_ip = ap (λ (x : IpPortKey). x.ip) (sym e);
                    from_port = ap (λ (x : IpPortKey). x.port) (sym e);
                  }
            ]
      ]

      back : IsFrom k m → src_key B m ≡ some k
      back f =
          let p : (m.next_proto_id == ipproto_tcp || m.next_proto_id == ipproto_udp) ≡ true =
            ground (arith, f.has_ports) in
          rw ((==_iff _ _).1 f.over_ipv4, p)
            (ap some (ap₂ (λ a b. record { ip = a; port = b }) (sym f.from_ip) (sym f.from_port)))

  -- a packet of the list has this source
  abbrev pub Sent : IpPortKey → List Packet → Type 0
  Sent k [] = ⊥
  Sent k (m ∷ ms) = IsFrom k m ⊎ Sent k ms

  module _ (room : (t : H.Table) (k : IpPortKey) → H.add t k 1 ≢ none) where
    kept_by_store :
        (t : H.Table) (j k : IpPortKey) (v : ℕ)
        → H.lookup t k ≡ some v
        → Known (add_quietly H t j 1) k
    kept_by_store t j k v old = elim (IpPortKey-discrete j k) [
      | yes e ↦ (
        1,
        subst (λ x. H.lookup (add_quietly H t j 1) x ≡ some 1) e
            (lookup-add_quietly H IpPortKey-discrete t j 1 (room t j)),
      )
      | no n ↦ elim (Option-cases (H.add t j 1)) [
        | inl full ↦ absurd (room t j full)
        | inr (u, added) ↦ (v, rw added (H.lookup-add_ne t j 1 u k added n ∙ old))
      ]
    ]

    store-Known :
        (t : H.Table) (j : IpPortKey) (o : Option ℕ) (k : IpPortKey)
        → H.lookup t j ≡ o
        → Known (store H t j o) k ↔ (Known t k ⊎ (some j ≡ some k))
    unfolding store
    store-Known t j none k new = (forth, back)
      where
        forth : Known (add_quietly H t j 1) k → Known t k ⊎ (some j ≡ some k)
        forth (v, h) = elim (add_quietly-keys H IpPortKey-discrete t j 1 k v h) [
          | inl (e, _) ↦ inr (ap some e)
          | inr old ↦ inl (v, old)
        ]

        back : Known t k ⊎ (some j ≡ some k) → Known (add_quietly H t j 1) k
        back (inl (v, old)) = kept_by_store t j k v old
        back (inr e) = (
          1,
          subst (λ x. H.lookup (add_quietly H t j 1) x ≡ some 1) (some-inj e)
              (lookup-add_quietly H IpPortKey-discrete t j 1 (room t j)),
        )
    store-Known t j (some v) k old = (inl, back)
      where
        back : Known t k ⊎ (some j ≡ some k) → Known t k
        back (inl h) = h
        back (inr e) = (v, subst (λ x. H.lookup t x ≡ some v) (some-inj e) old)

    track-Known :
        (t : H.Table) (o : Option IpPortKey) (k : IpPortKey)
        → Known (track H t o) k ↔ (Known t k ⊎ (o ≡ some k))
    unfolding track
    track-Known t none k = (inl, back)
      where
        not_some : none ≡ some k → ⊥
        not_some e = cc

        back : Known t k ⊎ (none ≡ some k) → Known t k
        back (inl v) = v
        back (inr e) = absurd (not_some e)
    track-Known t (some j) k = store-Known t j (H.lookup t j) k refl

    track_packet :
        (t : H.Table) (m : Packet) (k : IpPortKey)
        → Known (track H t (src_key B m)) k ↔ (Known t k ⊎ IsFrom k m)
    track_packet t m k = (forth, back)
      where
        forth : Known (track H t (src_key B m)) k → Known t k ⊎ IsFrom k m
        forth h = elim ((track-Known t (src_key B m) k).0 h) [
          | inl v ↦ inl v
          | inr e ↦ inr ((src_key-IsFrom k m).0 e)
        ]

        back : Known t k ⊎ IsFrom k m → Known (track H t (src_key B m)) k
        back (inl v) = (track-Known t (src_key B m) k).1 (inl v)
        back (inr f) = (track-Known t (src_key B m) k).1 (inr ((src_key-IsFrom k m).1 f))

    -- As long as no insertion fails, the record holds after a burst exactly what it held before and the
    -- sources of the TCP and UDP packets over IPv4 in the burst.
    pub hash_ips-Known :
        (ms : List Packet) (t : H.Table) (k : IpPortKey)
        → Known (hash_ips H B t ms) k ↔ (Known t k ⊎ Sent k ms)
    unfolding hash_ips
    hash_ips-Known [] t k = (inl, back)
      where
        back : Known t k ⊎ ⊥ → Known t k
        back (inl v) = v
        back (inr x) = elim x [ ]
    hash_ips-Known (m ∷ ms) t k =
        chain (hash_ips-Known ms (track H t (src_key B m)) k) (track_packet t m k)
